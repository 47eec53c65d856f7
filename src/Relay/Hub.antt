-- ===== src/Relay/Hub.antt =====
-- relay/hub.go: the sessions of the relay. A `*Session` is an index into the heap `heap`; the
-- map holds those that new connections find.
pub mod Sharing
use vibe_deck.Prelude.{
  ℕ, zero, suc, ◌+◌, ◌==◌, Option, none, some, List, [], ◌∷◌, ◌++◌, String, if◌then◌else◌, length,
  get_elem?,
}
use vibe_deck.GoMap.{GoMap, lookup, insert, delete}
use vibe_deck.Relay.Session.{Session, new_session, peer_count}

pub record Hub : Type 0 where
  pub sessions : GoMap ℕ
  pub queue_size : ℕ
  pub heap : List Session

unfoldable pub new_hub : ℕ → Hub
new_hub queue_size = record { sessions = []; queue_size = queue_size; heap = [] }

abbrev pub get_found : String → Option ℕ → Hub → Hub × ℕ
get_found id (some p) h = (h, p)
get_found id none h =
    let p = length h.heap in
    (
      record h {
        sessions = insert id p h.sessions;
        heap = h.heap ++ (new_session id h.queue_size) ∷ [];
      },
      p,
    )

unfoldable pub get_or_create : String → Hub → Hub × ℕ
get_or_create id h = get_found id (lookup id h.sessions) h

-- `s.PeerCount()` of the session at the pointer; a pointer of the map is always allocated.
abbrev pub peers_at : Option Session → ℕ
peers_at none = 0
peers_at (some s) = peer_count s

abbrev pub remove_found : String → Option ℕ → Hub → Hub
remove_found id none h = h
remove_found id (some p) h =
    if peers_at (get_elem? h.heap p) == 0 then record h { sessions = delete id h.sessions } else h

unfoldable pub remove_if_empty : String → Hub → Hub
remove_if_empty id h = remove_found id (lookup id h.sessions) h
