-- ===== src/SessionStore/Examples.antt =====
-- Runs of the session table on concrete values.
use vibe_deck.Prelude.{str_eq, if◌then◌else◌, some, [], ◌∷◌, String, ◌≡◌}
use vibe_deck.Protocol.Models.{lan, idle, connected}
use vibe_deck.SessionStore.{
  Session, Store, set_state, get, upsert, with_state, is_some, set_state_lem,
}

abbrev store : Store
store = record { sessions = ("s1", record { id = "s1"; transport = lan; state = idle }) ∷ [] }

set_state_lem_example :
    ((set_state "s1" connected store).1 ≡ is_some (get "s1" store))
    × (get "s1" (set_state "s1" connected store).0 ≡ with_state connected (get "s1" store))
    × ((other : String)
        → get other (set_state "s1" connected store).0
          ≡ (if str_eq "s1" other then with_state connected (get "s1" store) else get other store))
    × ((session : Session) → get session.id (upsert session store) ≡ some session)
set_state_lem_example = set_state_lem "s1" connected store
