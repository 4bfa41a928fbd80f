-- ===== src/Sql/Params.antt =====
-- src/sql_param_decoder.cpp: the request of `/sql`, the names of types and the parameters.
pub mod Tokens
pub mod Request
pub mod Types
