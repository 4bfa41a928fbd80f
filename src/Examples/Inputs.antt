-- ===== src/Examples/Inputs.antt =====
-- Small instances of what the model takes as parameters.
use duckdb_flock.Base.{
  ℕ, zero, suc, ◌≡◌, ◌<◌, if◌then◌else◌, refl, true, false, none, some, [], ◌∷◌, Bytes, codes,
  AreBytes, replicate, length, arith, starts_with, starts_with-append, bytes_eq, map, to_lower, leb,
  ◌&&◌, ◌-◌,
}
use mathlib.Core.Path.{subst}
use duckdb_flock.Crypto.Openssl.{Openssl, IsOpenssl}
use duckdb_flock.Duckdb.{Database, varchar, StringUtil, IsStringUtil, cell_boolean}
use duckdb_flock.Auth.Text.{trim_ascii}
use duckdb_flock.Auth.Manager.{AuthManager, new_auth_manager}

-- A generator that always draws sevens, and codes that do not depend on their input.
abbrev pub toy_openssl : Openssl
toy_openssl = record {
  Rng = Unit {0};
  rand_bytes = λ n g. some (replicate n 7, g);
  sha256 = λ m. replicate 32 1;
  hmac = λ key m. some (replicate 32 2);
}

length-replicate : (n x : ℕ) → length (replicate n x) ≡ n
length-replicate zero x = refl
length-replicate (suc n) x = omega (arith, length-replicate n x)

replicate-AreBytes : (n x : ℕ) → x < 256 → AreBytes (replicate n x)
replicate-AreBytes zero x h = tt
replicate-AreBytes (suc n) x h = (h, replicate-AreBytes n x h)

filled : (n : ℕ) (out : Bytes) → replicate n 7 ≡ out → (length out ≡ n) × AreBytes out
filled n out e =
    subst (λ o. (length o ≡ n) × AreBytes o) e
      (length-replicate n 7, replicate-AreBytes n 7 (omega arith))

replaced : (out : Bytes) → replicate 32 2 ≡ out → AreBytes out
replaced out e = subst AreBytes e (replicate-AreBytes 32 2 (omega arith))

pub toy_openssl-IsOpenssl : IsOpenssl toy_openssl
toy_openssl-IsOpenssl = record {
  rand_bytes_fill = λ n g g' out e. filled n out (cc);
  sha256_size = λ m. refl;
  hmac_bytes = λ key m out e. replaced out (cc);
}

-- Settings and one answer for every query.
abbrev pub allowing : Database
allowing = record {
  try_get_current_setting = λ name. none;
  query = λ sql values. cell_boolean true;
  get_uint64 = λ s. none;
}

abbrev pub with_nop_authz : Database
with_nop_authz = record {
  try_get_current_setting = λ name.
      if bytes_eq name (codes "harbor_authorization_function")
      then some (varchar (codes "main.Harbor_NOP_authorization"))
      else none;
  query = λ sql values. cell_boolean true;
  get_uint64 = λ s. none;
}

abbrev pub toy_string_util : StringUtil
toy_string_util = record {
  starts_with = starts_with;
  split = λ s d. s ∷ [];
  lower = map to_lower;
  upper = map to_upper;
  trim = trim_ascii;
}
  where
    to_upper : ℕ → ℕ
    to_upper c = if leb 97 c && leb c 122 then c - 32 else c

pub toy_string_util-IsStringUtil : IsStringUtil toy_string_util
toy_string_util-IsStringUtil = record { starts_with_prefix = starts_with-append }

abbrev pub manager : AuthManager
manager = new_auth_manager (some allowing) (codes "secret") false

-- A principal.
abbrev pub alice : Bytes
alice = replicate 64 b'a'
