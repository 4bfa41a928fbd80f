-- ===== src/Crypto.antt =====
-- src/harbor_crypto.cpp: hex, base64url, comparison of secrets, and the calls of OpenSSL.
pub mod Base64Url
pub mod Hex
pub mod Openssl
