-- ===== src/SessionStore.antt =====
-- internal/session/store.go: the table of sessions with their transport and state.
mod Examples
use vibe_deck.Prelude.{
  str_eq, if◌then◌else◌, Bool, true, false, Option, none, some, [], String, ◌≡◌, ◌≢◌, refl, ◌∙◌,
  eq_refl, str_eq-ne, inl, inr, Option-cases,
}
use vibe_deck.GoMap.{
  lookup_same, GoMap, IsMap, lookup, insert, lookup-insert, insert-IsMap, Each, Each-insert,
  Each-lookup,
}
use vibe_deck.Protocol.Models.{TransportMode, SessionState}

pub record Session : Type 0 where
  pub id : String
  pub transport : TransportMode
  pub state : SessionState

pub record Store : Type 0 where
  pub sessions : GoMap Session

unfoldable pub new_store : Store
new_store = record { sessions = [] }

unfoldable pub upsert : Session → Store → Store
upsert session s = record { sessions = insert session.id session s.sessions }

unfoldable pub get : String → Store → Option Session
get id s = lookup id s.sessions

abbrev set_found : SessionState → String → Option Session → Store → Store × Bool
set_found state id none s = (s, false)
set_found state id (some session) s =
    (record { sessions = insert id (record session { state = state }) s.sessions }, true)

unfoldable pub set_state : String → SessionState → Store → Store × Bool
set_state id state s = set_found state id (lookup id s.sessions) s

-- Every session stands under its own id.
pub record IsStore (s : Store) : Type 0 where
  pub unique : IsMap s.sessions
  pub keyed : Each (λ id (session : Session). session.id ≡ id) s.sessions

pub upsert-IsStore : (session : Session) (s : Store) → IsStore s → IsStore (upsert session s)
unfolding upsert
upsert-IsStore session s w = record {
  unique = insert-IsMap session.id session s.sessions w.unique;
  keyed = Each-insert _ session.id session s.sessions refl w.keyed;
}

pub set_state-IsStore :
    (id : String) (state : SessionState) (s : Store) → IsStore s → IsStore (set_state id state s).0
unfolding set_state
set_state-IsStore id state s w = elim (Option-cases (lookup id s.sessions)) [
  | inl e ↦ rw e w
  | inr (old, e) ↦ rw e (record {
    unique = insert-IsMap id _ s.sessions w.unique;
    keyed = Each-insert _ id _ s.sessions (Each-lookup _ id old s.sessions w.keyed e) w.keyed;
  })
]

-- The session that `set_state` leaves under the id.
abbrev with_state : SessionState → Option Session → Option Session
with_state state none = none
with_state state (some session) = some (record session { state = state })

abbrev is_some : Option Session → Bool
is_some none = false
is_some (some session) = true

-- `set_state` answers whether the id is known; it sets the state of that session and nothing else
-- of it, and every other session is as before. An `upsert` is read back by `get`.
pub set_state_lem :
    (id : String) (state : SessionState) (s : Store)
    → ((set_state id state s).1 ≡ is_some (get id s))
      × (get id (set_state id state s).0 ≡ with_state state (get id s))
      × ((other : String)
          → get other (set_state id state s).0
            ≡ (if str_eq id other then with_state state (get id s) else get other s))
      × ((session : Session) → get session.id (upsert session s) ≡ some session)
unfolding set_state get upsert
set_state_lem id state s = (
  (go (lookup id s.sessions) refl).0,
  (go (lookup id s.sessions) refl).1,
  (go (lookup id s.sessions) refl).2,
  (λ session. lookup-insert session.id session.id session s.sessions ∙ rw eq_refl),
)
  where
    go :
        (o : Option Session)
        → lookup id s.sessions ≡ o
        → ((set_found state id o s).1 ≡ is_some o)
          × (lookup id (set_found state id o s).0.sessions ≡ with_state state o)
          × ((other : String)
              → lookup other (set_found state id o s).0.sessions
                ≡ (if str_eq id other then with_state state o else lookup other s.sessions))
    go none e = (refl, e, λ other. lookup_same id other s.sessions none e)
    go (some session) e = (
      refl,
      lookup-insert id id _ s.sessions ∙ rw eq_refl,
      λ other. lookup-insert id other _ s.sessions,
    )
