-- ===== src/Http/Quack.antt =====
-- src/quack/quack_server.cpp: the messages of POST /quack that put a session into the map or take one
-- out of it. Neither belongs to a principal.
use duckdb_flock.Base.{Bytes, if◌then◌else◌}
use duckdb_flock.Session.{SessionManager, create_new_connection, disconnect_connection, kept}
use duckdb_flock.Auth.Manager.{run_authentication}
use duckdb_flock.Http.Sql.{Environment}

-- A connection request has the id that `GenerateSessionId` gives, and its credential; a disconnect
-- has the id that it names.
pub data QuackMessage : Type 0 where
  connection_request : Bytes → Bytes → QuackMessage
  disconnect_message : Bytes → QuackMessage

unfoldable pub handle_message : Environment → QuackMessage → SessionManager → SessionManager
unfolding run_authentication create_new_connection disconnect_connection
handle_message e (connection_request id auth_string) m =
    if run_authentication e.auth e.db id auth_string
    then kept m (create_new_connection m e.db e.steady_now id)
    else m
handle_message e (disconnect_message id) m = (disconnect_connection m id).1
