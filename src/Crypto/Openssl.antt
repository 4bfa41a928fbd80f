-- ===== src/Crypto/Openssl.antt =====
-- src/harbor_crypto.cpp: the calls of OpenSSL, a parameter with the laws that its manual states.
use duckdb_flock.Base.{
  ℕ, ◌≡◌, Option, some, [], Bytes, AreBytes, length, Result, ok, ◌>>=◌, ◌>>◌, or_throw, throw_if,
  ◌==◌, if◌then◌else◌, not,
}
use duckdb_flock.Crypto.Base64Url.{CryptoError, hmac_failed, no_entropy, base64_url_encode}
use duckdb_flock.Crypto.Hex.{bytes_to_hex}

-- `HMAC` gives null on failure; `RAND_bytes` gives another result than 1 if there is no entropy.
pub record Openssl : Type 1 where
  pub Rng : Type 0
  pub rand_bytes : ℕ → Rng → Option (Bytes × Rng)
  pub sha256 : Bytes → Bytes
  pub hmac : Bytes → Bytes → Option Bytes

-- What the manual promises.
pub record IsOpenssl (o : Openssl) : Type 0 where
  pub rand_bytes_fill :
      (n : ℕ) (g g' : o.Rng) (out : Bytes)
      → o.rand_bytes n g ≡ some (out, g')
      → (length out ≡ n) × AreBytes out
  pub sha256_size : (m : Bytes) → length (o.sha256 m) ≡ 32
  pub hmac_bytes : (key m out : Bytes) → o.hmac key m ≡ some out → AreBytes out

module _ (o : Openssl) where
  open o use {Rng, rand_bytes, sha256, hmac}

  unfoldable pub sha256_hex : Bytes → Bytes
  sha256_hex input = bytes_to_hex (sha256 input)

  unfoldable pub principal_id_hex : Bytes → Bytes
  unfolding sha256_hex
  principal_id_hex client_token = sha256_hex client_token

  unfoldable pub hmac_sha256 : Bytes → Bytes → Result CryptoError Bytes
  hmac_sha256 key message = do
    out ← or_throw (hmac key message) hmac_failed
    throw_if (not (length out == 32)) hmac_failed
    ok out

  unfoldable pub hmac_sha256_b64_url : Bytes → Bytes → Result CryptoError Bytes
  unfolding hmac_sha256
  hmac_sha256_b64_url key message = do raw ← hmac_sha256 key message; ok (base64_url_encode raw)

  unfoldable pub random_bytes : ℕ → Rng → Result CryptoError (Bytes × Rng)
  random_bytes n g = if n == 0 then ok ([], g) else or_throw (rand_bytes n g) no_entropy

  unfoldable pub random_hex : ℕ → Rng → Result CryptoError (Bytes × Rng)
  unfolding random_bytes
  random_hex n_bytes g = do drawn ← random_bytes n_bytes g; ok (bytes_to_hex drawn.0, drawn.1)
