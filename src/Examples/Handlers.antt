-- ===== src/Examples/Handlers.antt =====
-- Requests to the handlers.
use duckdb_flock.Base.{
  ◌↔◌, ap, sym, ◌∙◌, is_space, starts_with, to_lower, ◌≡◌, ◌≢◌, refl, false, List, [], ◌∷◌, Bytes,
  codes, ok, arith, some, none, bytes_eq,
}
use duckdb_flock.Crypto.Hex.{bytes_to_hex, hex_char}
use duckdb_flock.Crypto.Openssl.{principal_id_hex, sha256_hex}
use duckdb_flock.Duckdb.{evaluate_auth_query, cell_of}
use duckdb_flock.Auth.Text.{trim_ascii, skip_spaces, drop_spaces_end}
use duckdb_flock.Sql.Params.Tokens.{
  skip_whitespace, parse_string, consume_char, parse_raw_value, is_json_space, string_here,
  string_loop, raw_here, raw_string, push,
}
use duckdb_flock.Sql.Params.Request.{
  parse_request, request_here, request_loop, parse_member, skip_comma, store_member, check_sql,
  empty_request, ends_object,
}
use duckdb_flock.Auth.Request.{authenticate_request, try_x_harbor, check_token}
use duckdb_flock.Auth.Manager.{run_authentication, run_authorization, new_auth_manager}
use duckdb_flock.Auth.Cookie.{accepted, x_harbor_token}
use duckdb_flock.Session.WellFormed.{IsWellFormed}
use duckdb_flock.Session.Ownership.{owner_of}
use duckdb_flock.Http.{
  HttpRequest, HttpResponse, is_json_content_type, read_bounded_body, read_ubigint_setting,
}
use duckdb_flock.Http.Origin.{is_cookie}
use duckdb_flock.Http.Sql.{Environment, HandlerState, authenticate, is_authorized, sql_session_id}
use duckdb_flock.Http.Sql.Admission.{
  Parser, Admitted, handle_sql, handle_parsed, read_request, admit, resolve_session,
  single_statement, begins_transaction, with_header_session,
}
use duckdb_flock.Http.Sql.Admission.Sound.{Grounds}
use duckdb_flock.Http.Sql.Admission.Complete.{handle_sql-Grounds_iff}
use duckdb_flock.Http.Routes.{Route, post_sessions_new, get_sessions}
use duckdb_flock.Http.Routes
use duckdb_flock.Http.Routes.Sequence.{Arrival, serve_all, NeverAs, serve_all-isolates}
use duckdb_flock.Examples.Inputs.{allowing, toy_openssl, toy_string_util, manager, alice}
use duckdb_flock.Examples.Cookies.{empty_keyring}
use duckdb_flock.Examples.Sessions.{two_sessions, two_sessions-IsWellFormed, two_sessions-owner}

abbrev pub environment : Environment
environment = record {
  string_util = toy_string_util;
  auth = manager;
  db = some allowing;
  uri = record { host = codes "localhost"; port = 9494; ipv6 = false };
  now = 1000;
  steady_now = 5;
  what = λ x. codes "harbor session limit reached";
}

-- One statement, whatever the text.
abbrev parser : Parser
parser = record { Statement = Bytes; extract_statements = λ sql. ok (sql ∷ []) }

abbrev pub empty_response : HttpResponse
empty_response = record { status = 200; headers = []; content = []; content_type = [] }

abbrev request_of : Bytes → Bytes → HttpRequest
request_of token body = record {
  credentials = record { authorization = []; x_harbor = token; cookies = [] };
  content_type = codes "application/json";
  content_length = [];
  origin = [];
  referer = [];
  x_harbor_session_id = [];
  x_forwarded_proto = [];
  destroy_sessions = [];
  match = codes "s1";
  body = body;
  chunks = body ∷ [];
}

abbrev pub state : HandlerState toy_openssl
state = record { keyring = empty_keyring; sessions = two_sessions }

abbrev pub select : HttpRequest
select = request_of (codes "secret") (codes "{\"sql\":\"SELECT 1\"}")

abbrev admitted : Admitted parser
admitted = record {
  request = record { sql = codes "SELECT 1"; session_id = []; params_json = [] };
  principal_id = principal_id_hex toy_openssl (codes "secret");
  session = none;
  statement = codes "SELECT 1";
}

reads : read_request toy_string_util (some allowing) select ≡ ok admitted.request
unfolding read_request is_json_content_type bytes_eq to_lower starts_with read_bounded_body
    read_ubigint_setting parse_request request_here skip_whitespace request_loop parse_member
    skip_comma parse_string consume_char parse_raw_value store_member check_sql empty_request
    ends_object is_json_space string_here string_loop raw_here raw_string trim_ascii skip_spaces
    drop_spaces_end is_space with_header_session push
reads = refl

enters :
    (id : Bytes) (st : HandlerState toy_openssl)
    → (authenticate toy_openssl environment id select st).0
      ≡ accepted (principal_id_hex toy_openssl (codes "secret")) x_harbor_token
unfolding authenticate authenticate_request try_x_harbor check_token run_authentication
    new_auth_manager trim_ascii skip_spaces drop_spaces_end is_space evaluate_auth_query cell_of
enters id st = refl

admits :
    admit toy_openssl environment parser select admitted.request
      (λ r. false)
      (accepted admitted.principal_id x_harbor_token)
      two_sessions
    ≡ ok admitted
unfolding admit is_cookie resolve_session is_authorized run_authorization starts_with
    single_statement begins_transaction trim_ascii skip_spaces drop_spaces_end is_space
    evaluate_auth_query cell_of new_auth_manager
admits = refl

selects : (handle_sql toy_openssl environment parser select (λ r. false) state).0 ≡ ok admitted
unfolding handle_sql handle_parsed authenticate
selects =
    ap (λ r. (handle_parsed toy_openssl environment parser select (λ r. false) state r).0) reads
    ∙ ap
        (λ a.
          admit toy_openssl environment parser select admitted.request (λ r. false) a two_sessions)
        (enters sql_session_id state)
    ∙ admits

handle_sql-Grounds_iff_example :
    ((handle_sql toy_openssl environment parser select (λ r. false) state).0 ≡ ok admitted) ↔ (
      (read_request toy_string_util (some allowing) select ≡ ok admitted.request)
      × (toy_string_util.starts_with
            (toy_string_util.trim (codes "SELECT 1"))
            (codes "__HARBOR_ADMIN__:")
          ≡ false)
      × Grounds toy_openssl environment parser select
          (λ r. false)
          (authenticate toy_openssl environment (codes "__HARBOR_AUTH__:sql") select state).0
          two_sessions
          admitted)
handle_sql-Grounds_iff_example =
    handle_sql-Grounds_iff toy_openssl environment parser select (λ r. false) state admitted

abbrev arrivals : List Arrival
arrivals =
    record {
      environment = environment;
      route = Routes.delete_session;
      request = select;
      response = empty_response;
    }
    ∷ record {
      environment = environment;
      route = post_sessions_new (ok (codes "s3"));
      request = select;
      response = empty_response;
    }
    ∷ []

not_alice : principal_id_hex toy_openssl (codes "secret") ≢ alice
unfolding principal_id_hex sha256_hex bytes_to_hex hex_char
not_alice h = ground arith

stranger :
    (id : Bytes) (st : HandlerState toy_openssl)
    → (authenticate toy_openssl environment id select st).0.principal_id ≢ alice
stranger id st h = not_alice (ap (λ a. a.principal_id) (sym (enters id st)) ∙ h)

never : NeverAs toy_openssl parser (codes "s1") alice arrivals state
never = ((λ id h. stranger id _ h), tt, ((λ id h. stranger id _ h), tt, tt))

serve_all-isolates_example :
    IsWellFormed (serve_all toy_openssl parser arrivals state).sessions
    × (owner_of (serve_all toy_openssl parser arrivals state).sessions (codes "s1") ≡ some alice)
serve_all-isolates_example =
    serve_all-isolates toy_openssl parser arrivals state (codes "s1") alice
      two_sessions-IsWellFormed two_sessions-owner never
