-- ===== src/Tests/Sessions.antt =====
-- The session store and the user directory, at concrete calls.
use xal_tor_ka.Base.{◌≡◌, refl, Bool, true, false, some, List, [], ◌∷◌, lookup, insert, delete, pos}
use xal_tor_ka.Models.Identity.{Session}
use xal_tor_ka.Auth.Sessions.{
  new_memory_store, create, get, get_found, complete_2fa, remove, persist_locked, is_over,
  is_expired,
}
use xal_tor_ka.Auth.Sessions.History.{
  Call, creates, gets, completes, removes, step, run, view_run, run-View,
}
use xal_tor_ka.Auth.Sessions.Trust.{Earned, past, unused, get-Earned_live}
use xal_tor_ka.Tests.Fixtures.{session_of}

-- two users log in, one finishes and the other logs out
abbrev calls : List (Bool × Call)
calls =
    (true, creates (some "s") 10 "ann" "local")
    ∷ (true, creates (some "t") 12 "bob" "local")
    ∷ (true, gets 14 "s")
    ∷ (false, completes "s")
    ∷ (true, removes "t")
    ∷ []

abbrev last_seen_30 : Session
last_seen_30 = record (session_of "s" "ann" true) { last_seen = 30 }

get-Earned_live_example :
    Earned (past "s" unused calls) last_seen_30
    × (is_over (pos 100) last_seen_30.created_at 30 ≡ false)
unfolding new_memory_store create get get_found complete_2fa remove persist_locked is_over
    is_expired step run lookup insert delete
get-Earned_live_example = get-Earned_live (pos 100) (pos 50) calls true 30 "s" last_seen_30 refl

run-View_example :
    lookup "s" (run (new_memory_store (pos 100) (pos 50)) calls).m
    ≡ view_run
        (new_memory_store (pos 100) (pos 50)).ttl
        (new_memory_store (pos 100) (pos 50)).idle
        "s"
        (lookup "s" (new_memory_store (pos 100) (pos 50)).m)
        calls
run-View_example = run-View (new_memory_store (pos 100) (pos 50)) "s" calls
