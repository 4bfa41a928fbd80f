-- ===== src/Examples/Sessions.antt =====
-- Two principals with sessions.
use duckdb_flock.Base.{
  ℕ, get_elem?, ◌↔◌, ◌+◌, ◌≡◌, ◌≤◌, refl, none, some, List, [], ◌∷◌, Bytes, codes, bytes_eq,
  replicate, ok, if◌then◌else◌,
}
use duckdb_flock.Session.{
  HarborSession, step, timeout_sweep_once, is_owned_by, sweep_session, SessionManager, new_session,
  new_manager, Call, creates, destroys, sweeps, run, is_some, lookup_owned_session,
  destroy_owned_session, create_owned_session, destroy_all_owned_by, active_count,
  read_max_sessions, add_session,
}
use duckdb_flock.Session.Assoc.{find_key}
use duckdb_flock.Crypto.Hex.{is_valid_principal_hex}
use duckdb_flock.Session.WellFormed.{IsWellFormed, run-IsWellFormed, new_manager-IsWellFormed}
use duckdb_flock.Session.Ownership.{
  owner_of, owns, lookup_owned_session-owner, destroy_owned_session-owner,
  create_owned_session-owner, destroy_all_owned_by-owner,
}
use duckdb_flock.Examples.Inputs.{allowing, alice}

abbrev bob : Bytes
bob = replicate 64 b'b'

abbrev calls : List Call
calls =
    creates (some allowing) 5 (codes "s1") alice
    ∷ creates (some allowing) 6 (codes "s2") bob
    ∷ sweeps 9
    ∷ destroys (codes "s2") alice
    ∷ []

pub two_sessions : SessionManager
two_sessions = run new_manager calls

pub two_sessions-IsWellFormed : IsWellFormed two_sessions
unfolding two_sessions
two_sessions-IsWellFormed = run-IsWellFormed calls new_manager new_manager-IsWellFormed

pub two_sessions-owner : owner_of two_sessions (codes "s1") ≡ some alice
unfolding two_sessions owner_of run find_key step destroy_owned_session timeout_sweep_once
    create_owned_session is_valid_principal_hex read_max_sessions add_session bytes_eq new_session
    is_owned_by sweep_session
two_sessions-owner = refl

run-IsWellFormed_example : IsWellFormed (run new_manager calls)
run-IsWellFormed_example = run-IsWellFormed calls new_manager new_manager-IsWellFormed

lookup_owned_session-owner_example :
    ((r : ℕ)
      → (lookup_owned_session two_sessions (codes "s1") alice ≡ some r) ↔ (
          (find_key (codes "s1") two_sessions.active ≡ some r)
          × ((s : HarborSession) × (get_elem? two_sessions.objects r ≡ some s)
              × (s.session_id ≡ codes "s1")
              × (s.owner ≡ alice))))
    × (is_some (lookup_owned_session two_sessions (codes "s1") alice)
        ≡ owns (owner_of two_sessions (codes "s1")) alice)
lookup_owned_session-owner_example =
    lookup_owned_session-owner two_sessions (codes "s1") alice two_sessions-IsWellFormed

destroy_owned_session-owner_example :
    ((destroy_owned_session two_sessions (codes "s1") alice).0
      ≡ owns (owner_of two_sessions (codes "s1")) alice)
    × (owner_of (destroy_owned_session two_sessions (codes "s1") alice).1 (codes "s2") ≡ (
        if owns (owner_of two_sessions (codes "s1")) alice
        then (if bytes_eq (codes "s1") (codes "s2")
            then none
            else owner_of two_sessions (codes "s2"))
        else owner_of two_sessions (codes "s2")))
destroy_owned_session-owner_example =
    destroy_owned_session-owner two_sessions (codes "s1") alice (codes "s2")
      two_sessions-IsWellFormed

abbrev one_session : SessionManager
one_session = record {
  objects = new_session (codes "s1") alice 5 ∷ [];
  active = (codes "s1", 0) ∷ [];
}

created : create_owned_session new_manager (some allowing) 5 (codes "s1") alice ≡ ok one_session
unfolding create_owned_session is_valid_principal_hex read_max_sessions find_key add_session
    new_session
created = refl

create_owned_session-owner_example :
    (owner_of one_session (codes "s2") ≡ (
      if bytes_eq (codes "s1") (codes "s2") then some alice else owner_of new_manager (codes "s2")))
    × (owner_of new_manager (codes "s1") ≡ none)
    × (active_count one_session ≤ read_max_sessions (some allowing))
create_owned_session-owner_example =
    create_owned_session-owner new_manager one_session (some allowing) 5 (codes "s1") alice
      (codes "s2") new_manager-IsWellFormed created

destroy_all_owned_by-owner_example :
    (owner_of (destroy_all_owned_by two_sessions alice).1 (codes "s2") ≡ (
      if owns (owner_of two_sessions (codes "s2")) alice
      then none
      else owner_of two_sessions (codes "s2")))
    × (active_count (destroy_all_owned_by two_sessions alice).1
          + (destroy_all_owned_by two_sessions alice).0
        ≡ active_count two_sessions)
destroy_all_owned_by-owner_example =
    destroy_all_owned_by-owner two_sessions alice (codes "s2") two_sessions-IsWellFormed refl
