-- ===== src/Signaling/Store.antt =====
-- signaling/store.go and types.go: pairings, found by their code and by their session id.
-- Both maps hold the same `*Pairing`, which `ClaimPairing` writes through: `heap` holds the pairings
-- and a pointer is an index. The clock's readings and the tokens of `randomToken` (none if the
-- system's random source fails) are arguments; `now.After(t)` is `t < now`.
pub mod Sharing
pub mod Claims
use Prim.Native.Char.{Char}
use vibe_deck.Prelude.{
  ℕ, zero, suc, ◌+◌, ℤ, Bool, true, false, not, Option, none, some, List, [], ◌∷◌, ◌++◌, String,
  ltb, str_eq, if◌then◌else◌, length, get_elem?, set,
}
use vibe_deck.GoMap.{GoMap, lookup, insert, delete}
use vibe_deck.Text.{trim_space, map_chars}

pub data Role : Type 0 where
  pc mobile : Role

pub record Pairing : Type 0 where
  pub code : String
  pub session_id : String
  pub pc_device_key : String
  pub mobile_device_key : String
  pub created_at : ℕ
  pub expires_at : ℕ
  pub claimed : Bool

pub data Error : Type 0 where
  pairing_not_found pairing_expired pairing_claimed : Error
  token_failed : String → Error

pub record Store : Type 0 where
  pub ttl : ℕ
  pub by_code : GoMap ℕ
  pub by_session : GoMap ℕ
  pub heap : List Pairing

-- strings.ToUpper, over the case table `upper` of Unicode.
abbrev pub to_upper : (Char → Char) → String → String
to_upper upper s = map_chars upper s

unfoldable pub new_store : ℕ → Store
new_store ttl = record { ttl = ttl; by_code = []; by_session = []; heap = [] }

-- The session of an expired pairing.
abbrev pub expired_session : ℕ → Option Pairing → Option String
expired_session now none = none
expired_session now (some p) = if ltb p.expires_at now then some p.session_id else none

abbrev pub drop_pairing : String → Option String → Store → Store
drop_pairing code none s = s
drop_pairing code (some id) s = record s {
  by_code = delete code s.by_code;
  by_session = delete id s.by_session;
}

-- The loop goes over the codes that are in the map when it starts.
unfoldable pub evict_loop : ℕ → GoMap ℕ → Store → Store
evict_loop now [] s = s
evict_loop now ((code, p) ∷ rest) s =
    evict_loop now rest (drop_pairing code (expired_session now (get_elem? s.heap p)) s)

unfoldable pub evict_expired_locked : ℕ → Store → Store
evict_expired_locked now s = evict_loop now s.by_code s

pub data Result (A : Type 0) : Type 0 where
  ok : A → Result A
  err : Error → Result A

abbrev pub created : (Char → Char) → ℕ → String → String → String → Store → Store × Result Pairing
created upper now code id key s =
    let p : Pairing = record {
      code = to_upper upper code;
      session_id = id;
      pc_device_key = key;
      mobile_device_key = "";
      created_at = now;
      expires_at = now + s.ttl;
      claimed = false;
    } in
    (
      record s {
        by_code = insert p.code (length s.heap) s.by_code;
        by_session = insert id (length s.heap) s.by_session;
        heap = s.heap ++ p ∷ [];
      },
      ok p,
    )

abbrev pub create_with :
    (Char → Char)
    → ℕ
    → Option String
    → Option String
    → Option String
    → Store
    → Store × Result Pairing
create_with upper now none id key s = (s, err (token_failed "generate pairing code"))
create_with upper now (some code) none key s = (s, err (token_failed "generate session id"))
create_with upper now (some code) (some id) none s = (s, err (token_failed "generate device key"))
create_with upper now (some code) (some id) (some key) s = created upper now code id key s

-- `evicted_at` and `now` are the two readings of the clock.
unfoldable pub create_pairing :
    (Char → Char)
    → ℕ
    → ℕ
    → Option String
    → Option String
    → Option String
    → Store
    → Store × Result Pairing
create_pairing upper evicted_at now code id key s =
    create_with upper now code id key (evict_expired_locked evicted_at s)

abbrev pub claimed_with : ℕ → Pairing → Option String → Store → Store × Result Pairing
claimed_with i p none s = (s, err (token_failed "generate mobile key"))
claimed_with i p (some key) s =
    let p' = record p { mobile_device_key = key; claimed = true } in
    (record s { heap = set s.heap i p' }, ok p')

abbrev pub claim_at :
    ℕ → Option String → String → ℕ → Option Pairing → Store → Store × Result Pairing
claim_at now key code i none s = (s, err pairing_not_found)
claim_at now key code i (some p) s =
    if ltb p.expires_at now
    then (drop_pairing code (some p.session_id) s, err pairing_expired)
    else if p.claimed
    then (s, err pairing_claimed)
    else claimed_with i p key s

abbrev pub claim_found : ℕ → Option String → String → Option ℕ → Store → Store × Result Pairing
claim_found now key code none s = (s, err pairing_not_found)
claim_found now key code (some i) s = claim_at now key code i (get_elem? s.heap i) s

unfoldable pub claim_pairing :
    (Char → Char) → ℕ → Option String → String → Store → Store × Result Pairing
claim_pairing upper now key code s =
    let normalized = to_upper upper (trim_space code) in
    claim_found now key normalized (lookup normalized s.by_code) s

-- The `switch` takes the first key that fits.
abbrev pub role_of_key : ℕ → String → Option Pairing → Option Role
role_of_key now key none = none
role_of_key now key (some p) =
    if ltb p.expires_at now
    then none
    else if str_eq key p.pc_device_key
    then some pc
    else if str_eq key p.mobile_device_key
    then some mobile
    else none

abbrev pub key_found : ℕ → String → Option ℕ → Store → Option Role
key_found now key none s = none
key_found now key (some i) s = role_of_key now key (get_elem? s.heap i)

unfoldable pub validate_session_key : ℕ → String → String → Store → Option Role
validate_session_key now session_id key s = key_found now key (lookup session_id s.by_session) s
