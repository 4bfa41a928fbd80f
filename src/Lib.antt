-- ===== src/Lib.antt =====
-- duckdb-harbor: the DuckDB extension that serves one HTTP endpoint for SQL, sessions and
-- administration.
--
-- A process has at most one server. `harbor_serve` checks its arguments, builds the server, binds,
-- registers the handlers and listens; a request is authenticated (bearer token, header token or
-- signed cookie), its query authorized by a callback in the database, and then runs on a session
-- that the principal owns, under a guard that a background sweep uses to interrupt what is overdue.
-- Answers leave through a streaming JSON writer.
--
-- The files, by the sources they are about:
--   Crypto    src/harbor_crypto.cpp. Crypto/Hex and Crypto/Base64Url have the encodings, in
--             Crypto/Openssl are the calls of OpenSSL, a parameter `Openssl` with the laws
--             `IsOpenssl`: a filled buffer of random bytes, digests of 32 bytes, codes of bytes.
--   Duckdb    what the code asks of DuckDB: settings, a query of one Boolean cell, `StringUtil`.
--             A `Database` answers as one state of the process does.
--   Auth      src/harbor_auth.cpp. Auth/Text is the handling of texts (`TrimAscii`,
--             `ExtractCookie`, `IsBuiltinNopAuthz`), Auth/Manager the state fixed at the start and
--             `RunAuthentication` and `RunAuthorization`, Auth/Cookie `IssueCookie` and
--             `VerifyCookie`, Auth/Request `AuthenticateRequest`, Auth/Cors the list of origins.
--   Session   src/harbor_session.cpp. `SessionManager` is a store of session objects and the map
--             `active` into it, so that a handler's pointer outlives the entry of the map. One
--             function per method; `Call` and `run` are sequences of calls.
--   Timeout   src/harbor_query_timeout.cpp: `QueryExecutionGuard` (`arm` and `disarm` are its
--             constructor and destructor), and in Timeout/Watchdog `QueryTimeoutWatchdog`.
--             Timeout/Sweeper has the sweep of one session as steps between which handlers run;
--             `sweep_session` is the same as one step.
--   Sql       src/sql_json_writer.cpp (Sql/JsonWriter), UTF-8 from there and from
--             src/sql_param_decoder.cpp (Sql/Utf8), and of the latter the tokens of JSON
--             (Sql/Params/Tokens), `ParseRequest` (Sql/Params/Request) and `ParseLogicalType`
--             (Sql/Params/Types).
--   Server    src/harbor_http_server.cpp: `HarborHttpServer`'s states and `HarborServerState`.
--             Server/Serve is src/harbor_lifecycle.cpp up to the start of the server.
--   Http      the handlers, as functions from a request and the state that they share (the key ring
--             and the sessions) to the response and the state: Http/Sql is src/sql_handlers.cpp,
--             with `HandleSql` up to its statement in Http/Sql/Admission and what its guard writes
--             into the session in Http/Sql/Guarded, Http/Admin src/admin_handlers.cpp, Http/Auth
--             src/auth_handlers.cpp. Http/Origin has the tests of `Origin` and `Referer`,
--             Http/Escape `EscapeJsonString`, Http/Quack the messages of POST /quack that make or
--             end a session (src/quack/quack_server.cpp), Http/Routes the routes together.
--             Http/Stream is the provider of a streamed answer: a call of it meets what `Fetch`
--             gives, the cause of an interrupt, an encoder that may throw and a sink that may
--             refuse.
--   Base      shared names, lists, texts, Boolean tests, and results for code that throws.
--   Examples  small instances of the parameters, and each theorem at a concrete input.
--
-- A text is the list of its bytes; an exception is an `err`, or `none` where only one can be
-- thrown. A 64-bit counter wraps where it is written (`% 2 ^ 64`): the generation of queries and the
-- expiry of a cookie. Theorems on generations assume that the counter does not wrap. Clocks are
-- numbers of seconds or milliseconds. A deadline that does not fit into the clock is undefined in C++;
-- it is an argument, `overflowed`, and the theorems on deadlines assume that it fits.
--
-- Fuel: `decimal_loop` prints with 20 steps, as many as the digits of a 64-bit number;
-- `escape_loop` runs on the length of the text, since every turn takes a byte or more;
-- `extract_cookie_loop` on one more than the length of the header; `request_loop` on one more than the
-- length of the body. The round trips show that these are enough, and for `request_loop` a theorem on
-- every body. `parse_logical_type` is called with 33, one more than the nesting that the code allows,
-- and its running out is the code's own error. Behind a missing header is the empty text, as httplib
-- has it.
--
-- `CRYPTO_memcmp`, `std::stoull`, `snprintf` of integers and the condition variables are taken as
-- their documentation describes them. Locks make a method one step, except in Timeout/Sweeper,
-- where the sweep holds none.
--
-- Whether a thread starts and whether the handlers can be constructed, which may throw, is given with
-- a start of the server. `Stop` is its part under the lock; `Close` follows when the lock is released.
--
-- DuckDB's parser of SQL, the clock, the random ids, the locks that other requests hold and the
-- texts of exceptions are arguments of the handlers. `StringUtil::Format` puts its arguments in the
-- places of its marks.
--
-- Not modelled: the HTTP library and its matching of paths; of `HandleSql` the preparation of the
-- statement, its parameters, what it does inside DuckDB and the one-shot answers; the routes /health, /info,
-- /ready, /whoami, /tables and /schema, and the CHECKPOINT behind its gates; the rest of
-- src/sql_param_decoder.cpp (values of parameters); the encoding of chunks
-- (src/sql_chunk_encoder.cpp), whose lines stand for what they say; the copies of the upstream
-- extensions (src/quack but for the two messages, src/ui), and the registration with DuckDB (src/harbor_extension.cpp).
pub mod Base
pub mod Crypto
pub mod Duckdb
pub mod Auth
pub mod Session
pub mod Timeout
pub mod Sql
pub mod Server
pub mod Http
pub mod Examples
