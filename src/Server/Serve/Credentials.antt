-- ===== src/Server/Serve/Credentials.antt =====
-- Which credentials `harbor_serve` leaves the server with.
use duckdb_flock.Base.{
  ◌≡◌, ◌≤◌, ◌↔◌, Bool, true, false, Option, some, [], Bytes, codes, bytes_eq_refl, ok, >>=-eq-ok,
  or_throw, length, arith,
}
use duckdb_flock.Duckdb.{Database}
use duckdb_flock.Auth.Manager.{new_auth_manager, validate_token, resolve}
use duckdb_flock.Server.Serve.{
  ServeArguments, Named, omitted, null_given, HarborLifecycleBindData, UriLibrary,
  harbor_serve_bind, has_custom_authn_fn, credentials, checked, bind_of, port_of,
  harbor_uri_from_bind_port, bad_uri,
}

-- What the mode and the token owe to the argument and to the setting.
pub record IsChosen (custom : Bool) (argument : Named Bytes) (d : HarborLifecycleBindData)
    : Type 0 where
  pub open_only_on_null : d.unauthenticated ≡ true ↔ argument ≡ null_given
  pub custom_without_token : custom ≡ true → (argument ≡ omitted) × (d.token ≡ [])
  pub long_enough : custom ≡ false → d.unauthenticated ≡ false → 4 ≤ length d.token

credentials-IsChosen :
    (custom : Bool) (uri generated : Bytes) (argument : Named Bytes) (d : HarborLifecycleBindData)
    → credentials custom uri generated argument ≡ ok d
    → IsChosen custom argument d
unfolding credentials checked validate_token
credentials-IsChosen custom uri generated argument d e = record {
  open_only_on_null = ground arith;
  custom_without_token = ground arith;
  long_enough = ground arith;
}

-- When `harbor_serve` goes through: the server is unauthenticated exactly if the token argument was
-- NULL; with a custom authentication function the argument was omitted and there is no token; else
-- an authenticated server has a token of four characters or more.
pub harbor_serve_bind_credentials :
    (u : UriLibrary) (db : Option Database) (generated : Bytes) (args : ServeArguments)
    (d : HarborLifecycleBindData)
    → harbor_serve_bind u db generated args ≡ ok d
    → IsChosen (has_custom_authn_fn db) args.token d
unfolding harbor_serve_bind
harbor_serve_bind_credentials u db generated args d e =
    let (host, _, e1) = >>=-eq-ok (bind_of args.bind) _ e in
    let (port, _, e2) = >>=-eq-ok (port_of args.port) _ e1 in
    let (text, _, e3) = >>=-eq-ok (harbor_uri_from_bind_port u host port) _ e2 in
    let (uri, _, e4) = >>=-eq-ok (or_throw (u.quack_uri text) bad_uri) _ e3 in
    credentials-IsChosen _ uri generated args.token d e4

-- `harbor_serve` and the manager of the server that it starts agree on whether the authentication
-- function is a custom one.
pub has_custom_authn_fn-new_auth_manager :
    (db : Database) (token : Bytes) (unauthenticated : Bool)
    → has_custom_authn_fn (some db)
      ≡ (new_auth_manager (some db) token unauthenticated).has_custom_authn_fn
unfolding has_custom_authn_fn new_auth_manager resolve
has_custom_authn_fn-new_auth_manager db token unauthenticated =
    ground (arith, bytes_eq_refl (codes "harbor_check_token"))
