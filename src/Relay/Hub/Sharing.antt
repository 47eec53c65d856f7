-- ===== src/Relay/Hub/Sharing.antt =====
-- Who shares a session of the hub with whom (relay/hub.go).
use vibe_deck.Prelude.{
  str_eq, ◌&&◌, if◌then◌else◌, ℕ, ◌==◌, Option, none, some, String, ◌≡◌, ◌≢◌, refl, ◌∙◌, arith,
  length, get_elem?, inl, inr, Bool-cases, eq_refl, get_elem?-lt, if◌then◌else◌,
}
use vibe_deck.GoMap.{lookup_same, lookup, insert, delete, lookup-insert, lookup-delete}
use vibe_deck.Relay.Session.{Session, peer_count}
use vibe_deck.Relay.Hub.{Hub, get_or_create, remove_if_empty, get_found}

-- `get_or_create` puts the session that it returns into the map, so that a second call gives the
-- same session and changes nothing; another id's session is never touched.
get_or_create_shares :
    (id : String) (h : Hub)
    → (lookup id (get_or_create id h).0.sessions ≡ some (get_or_create id h).1)
      × (get_or_create id (get_or_create id h).0 ≡ get_or_create id h)
      × ((other : String)
          → lookup other (get_or_create id h).0.sessions
            ≡ (if str_eq id other then some (get_or_create id h).1 else lookup other h.sessions))
unfolding get_or_create
get_or_create_shares id h = go (lookup id h.sessions) refl
  where
    go :
        (o : Option ℕ)
        → lookup id h.sessions ≡ o
        → (lookup id (get_found id o h).0.sessions ≡ some (get_found id o h).1)
          × (get_found id (lookup id (get_found id o h).0.sessions) (get_found id o h).0
              ≡ get_found id o h)
          × ((other : String)
              → lookup other (get_found id o h).0.sessions
                ≡ (if str_eq id other then some (get_found id o h).1 else lookup other h.sessions))
    go (some p) e = (e, rw e, λ other. lookup_same id other h.sessions (some p) e)
    go none e =
        let q : lookup id (insert id (length h.heap) h.sessions) ≡ some (length h.heap) =
          lookup-insert id id (length h.heap) h.sessions ∙ rw eq_refl in
        (q, rw q, λ other. lookup-insert id other (length h.heap) h.sessions)

remove_eq :
    (id : String) (h : Hub) (p : ℕ) (s : Session)
    → lookup id h.sessions ≡ some p
    → get_elem? h.heap p ≡ some s
    → peer_count s ≡ 0
    → remove_if_empty id h ≡ record h { sessions = delete id h.sessions }
unfolding remove_if_empty
remove_eq id h p s l e z = rw (l, e, z)

create_eq :
    (id : String) (h : Hub) → lookup id h.sessions ≡ none → (get_or_create id h).1 ≡ length h.heap
unfolding get_or_create
create_eq id h e = rw e

-- A connection holds the session from `get_or_create` before it has registered its peer. If another
-- connection's `remove_if_empty` runs in between and the session has no peer yet, the session is
-- off the map, and the next connection of the same id gets another session: the two never meet.
pub orphaned_session :
    (id : String) (h : Hub) (s : Session)
    → get_elem? (get_or_create id h).0.heap (get_or_create id h).1 ≡ some s
    → peer_count s ≡ 0
    → (get_or_create id (remove_if_empty id (get_or_create id h).0)).1 ≢ (get_or_create id h).1
orphaned_session id h s e z same =
    let g = (get_or_create id h).0 in
    let p = (get_or_create id h).1 in
    let gone : lookup id (delete id g.sessions) ≡ none =
      lookup-delete id id g.sessions ∙ rw eq_refl in
    let new : (get_or_create id (record g { sessions = delete id g.sessions })).1 ≡ length g.heap =
      create_eq id (record g { sessions = delete id g.sessions }) gone in
    let same' : (get_or_create id (record g { sessions = delete id g.sessions })).1 ≡ p =
      rw (remove_eq id g p s (get_or_create_shares id h).0 e z) at same in
    absurd (omega (arith, get_elem?-lt g.heap p e))

-- `remove_if_empty` takes a session off the map exactly when it has no peer, and no other id is
-- touched.
remove_if_empty_lem :
    (id other : String) (h : Hub) (p : ℕ) (s : Session)
    → lookup id h.sessions ≡ some p
    → get_elem? h.heap p ≡ some s
    → lookup other (remove_if_empty id h).sessions
      ≡ (if str_eq id other && peer_count s == 0 then none else lookup other h.sessions)
unfolding remove_if_empty
remove_if_empty_lem id other h p s l e = elim (Bool-cases (peer_count s == 0)) [
  | inl z ↦ rw (l, e, z) (lookup-delete id other h.sessions ∙ ground arith)
  | inr n ↦ rw (l, e, n) (ground arith)
]
