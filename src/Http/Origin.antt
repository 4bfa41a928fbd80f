-- ===== src/Http/Origin.antt =====
-- The tests of the `Origin` and `Referer` headers: src/sql_handlers.cpp `IsSameOriginAllowed` and
-- `HasAllowedBrowserOrigin`, src/admin_handlers.cpp `HasAllowedBrowserOriginIfCookie`.
use duckdb_flock.Base.{
  ℕ, ◌-◌, Bool, true, false, not, ◌&&◌, ◌||◌, none, some, [], ◌∷◌, ◌++◌, Bytes, codes, is_empty,
  bytes_eq, take, drop, length, if◌then◌else◌,
}
use duckdb_flock.Auth.Manager.{AuthManager}
use duckdb_flock.Auth.Cookie.{AuthSource, cookie}
use duckdb_flock.Auth.Cookie.Decimal.{to_decimal}
use duckdb_flock.Auth.Cors.{resolve_cors_origin}
use duckdb_flock.Http.{HttpRequest, find_text, before, or_else}

-- What `server.ListenUri()` answers.
pub record ListenUri : Type 0 where
  pub host : Bytes
  pub port : ℕ
  pub ipv6 : Bool

-- `StringUtil::Format("http://%s:%d", host, port)`.
unfoldable pub http_origin : Bytes → ℕ → Bytes
http_origin host port = codes "http://" ++ (host ++ (b':' ∷ to_decimal port))

unfoldable pub is_same_origin_allowed : ListenUri → Bytes → Bool
unfolding http_origin
is_same_origin_allowed uri origin =
    let own = if uri.ipv6 then b'[' ∷ (uri.host ++ (b']' ∷ [])) else uri.host in
    if is_empty origin
    then false
    else if bytes_eq origin (http_origin (codes "localhost") uri.port)
        || bytes_eq origin (http_origin (codes "127.0.0.1") uri.port)
        || bytes_eq origin (http_origin (codes "[::1]") uri.port)
    then true
    else if not (is_empty uri.host) && not (bytes_eq uri.host (codes "0.0.0.0"))
    then bytes_eq origin (http_origin own uri.port)
    else false

-- `decision.allowed` of `ResolveCorsOrigin`.
unfoldable pub is_listed : AuthManager → Bytes → Bool
unfolding resolve_cors_origin
is_listed m origin = elim (resolve_cors_origin m.cors_allowed_origins origin) [
  | none ↦ false
  | some a ↦ true
]

-- What stands in front of the path: the text in front of the first slash behind `://`.
unfoldable pub origin_of_referer : Bytes → Bytes
unfolding find_text before
origin_of_referer referer = elim (find_text (codes "://") referer) [
  | none ↦ or_else (before b'/' referer) referer
  | some rest ↦
      let authority = drop 3 rest in
      take (length referer - length rest) referer
      ++ (codes "://" ++ or_else (before b'/' authority) authority)
]

unfoldable pub has_allowed_browser_origin : ListenUri → AuthManager → HttpRequest → Bool
unfolding is_same_origin_allowed is_listed origin_of_referer
has_allowed_browser_origin uri m req =
    let of_referer = origin_of_referer req.referer in
    if not (is_empty req.origin)
    then is_same_origin_allowed uri req.origin || is_listed m req.origin
    else if not (is_empty req.referer)
    then is_same_origin_allowed uri of_referer || is_listed m of_referer
    else false

unfoldable pub is_cookie : AuthSource → Bool
is_cookie cookie = true
is_cookie _ = false

unfoldable pub has_allowed_browser_origin_if_cookie : AuthManager → HttpRequest → AuthSource → Bool
unfolding is_listed origin_of_referer find_text is_cookie
has_allowed_browser_origin_if_cookie m req source =
    if not (is_cookie source)
    then true
    else if not (is_empty req.origin)
    then is_listed m req.origin
    else if is_empty req.referer
    then false
    else elim (find_text (codes "://") req.referer) [
      | none ↦ false
      | some rest ↦ is_listed m (origin_of_referer req.referer)
    ]
