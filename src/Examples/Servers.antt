-- ===== src/Examples/Servers.antt =====
-- Servers that start and stop.
use duckdb_flock.Base.{
  suc, ◌≡◌, ◌≢◌, ◌↔◌, refl, true, false, none, some, List, [], ◌∷◌, Bytes, codes, bytes_eq, ok,
}
use duckdb_flock.Server.{
  cors_config, HarborHttpServer, Environment, start, wait, wait_done, is_running, initial_state,
  listening, LifecycleCall, starts, stops, lifecycle,
}
use duckdb_flock.Server.Lifetime.{some_stop, wait_returns_after_stop, start_all_or_nothing}
use duckdb_flock.Server.Serve.{
  ServeArguments, UriLibrary, omitted, null_given, given, HarborLifecycleBindData,
  harbor_serve_bind, has_custom_authn_fn,
}
use duckdb_flock.Server.Serve.Credentials.{
  IsChosen, harbor_serve_bind_credentials, has_custom_authn_fn-new_auth_manager,
}
use duckdb_flock.Auth.Manager.{new_auth_manager}
use duckdb_flock.Auth.Text.{find, trim_ascii}
use duckdb_flock.Auth.Cookie.Decimal.{to_decimal}
use duckdb_flock.Examples.Inputs.{toy_string_util, allowing}

abbrev working : Environment
working = record {
  is_valid = true;
  bind_to_port = λ uri. true;
  database = some allowing;
  string_util = toy_string_util;
  sweeper_starts = true;
  handlers_construct = true;
  listener_starts = true;
}

abbrev address : Bytes
address = codes "harbor:127.0.0.1:9494"

abbrev before : List LifecycleCall
before = starts working address ∷ stops address ∷ starts working address ∷ []

abbrev later : List LifecycleCall
later = stops (codes "harbor:elsewhere:1") ∷ stops address ∷ starts working address ∷ []

second_waits : wait (lifecycle before initial_state) ≡ ok 2
unfolding wait lifecycle initial_state bytes_eq trim_ascii
second_waits = refl

wait_returns_after_stop_example :
    wait_done 2 (lifecycle later (lifecycle before initial_state))
    ≡ some_stop later (lifecycle before initial_state)
wait_returns_after_stop_example = wait_returns_after_stop before later 2 second_waits

start_all_or_nothing_example :
    ((start working address initial_state).0 ≡ none ↔ (
      (is_running initial_state ≡ false)
      × (true ≡ true)
      × (true ≡ true)
      × ((cors_config working).0 ≡ ok tt)
      × (true ≡ true)
      × (true ≡ true)
      × (true ≡ true)))
    × ((start working address initial_state).0 ≡ none
        → (s : HarborHttpServer) × ((start working address initial_state).1.server ≡ some s)
          × (s.phase ≡ listening)
          × (s.listen_uri ≡ address)
          × (s.has_handlers ≡ true)
          × (s.cors_allowed_origins ≡ (cors_config working).1)
          × ((start working address initial_state).1.generation ≡ suc initial_state.generation))
    × ((start working address initial_state).0 ≢ none
        → (start working address initial_state).1 ≡ initial_state)
start_all_or_nothing_example = start_all_or_nothing working address initial_state

abbrev library : UriLibrary
library = record { trim = λ s. s; quack_uri = λ s. some s }

abbrev arguments : ServeArguments
arguments = record { bind = omitted; port = given 9000; token = null_given }

abbrev bound : HarborLifecycleBindData
bound = record { listen_uri = codes "harbor:127.0.0.1:9000"; token = []; unauthenticated = true }

binds : harbor_serve_bind library (some allowing) (codes "random") arguments ≡ ok bound
unfolding harbor_serve_bind find to_decimal
binds = refl

harbor_serve_bind_credentials_example :
    IsChosen (has_custom_authn_fn (some allowing)) null_given bound
harbor_serve_bind_credentials_example =
    harbor_serve_bind_credentials library (some allowing) (codes "random") arguments bound binds

has_custom_authn_fn-new_auth_manager_example :
    has_custom_authn_fn (some allowing)
    ≡ (new_auth_manager (some allowing) (codes "secret") false).has_custom_authn_fn
has_custom_authn_fn-new_auth_manager_example =
    has_custom_authn_fn-new_auth_manager allowing (codes "secret") false
