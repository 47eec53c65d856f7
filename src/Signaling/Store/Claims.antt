-- ===== src/Signaling/Store/Claims.antt =====
-- Claims of a pairing one after another, and the keys that a claim leaves (signaling/store.go).
use Prim.Native.Char.{Char}
use vibe_deck.Prelude.{
  ℕ, true, false, Option, some, String, ◌≡◌, ◌≢◌, sym, arith, ltb, str_eq-ne, eq_refl,
  if◌then◌else◌, get_elem?, inl, inr, Bool-cases, get_elem?-lt, get_elem?-set_self,
}
use vibe_deck.GoMap.{lookup}
use vibe_deck.Text.{trim_space}
use vibe_deck.Signaling.Store.{
  Pairing, Store, ok, err, pairing_expired, pairing_claimed, pc, mobile, to_upper, claim_pairing,
  claim_at, drop_pairing, validate_session_key,
}
use vibe_deck.Signaling.Store.Sharing.{IsShared, Claim, claim_pairing-Claim}

claim_at-claimed :
    (later : ℕ) (key : Option String) (code : String) (i : ℕ) (p : Pairing) (s : Store)
    → p.claimed ≡ true
    → claim_at later key code i (some p) s ≡ (
        if ltb p.expires_at later
        then (drop_pairing code (some p.session_id) s, err pairing_expired)
        else (s, err pairing_claimed))
claim_at-claimed later key code i p s c = elim (Bool-cases (ltb p.expires_at later)) [
  | inl e ↦ rw e
  | inr e ↦ rw e (ground arith)
]

module _ (upper : Char → Char) (now : ℕ) (key : Option String) (code : String) (s s' : Store)
    (p : Pairing) where
  -- The claimed pairing stands where the old one stood.
  written : (i : ℕ) → Claim now key s i s' p → get_elem? s'.heap i ≡ some p
  written i c =
      rw (c.store, c.pairing) (get_elem?-set_self s.heap i _ (get_elem?-lt s.heap i c.there))

  -- After a successful claim, any further claim with that code, at any time and with any token, is
  -- refused: as claimed, with nothing changed, until the pairing expires, and then as expired,
  -- with the pairing taken off both maps.
  pub claim_once :
      (later : ℕ) (key' : Option String)
      → claim_pairing upper now key code s ≡ (s', ok p)
      → claim_pairing upper later key' code s' ≡ (
          if ltb p.expires_at later
          then (
            drop_pairing (to_upper upper (trim_space code)) (some p.session_id) s',
            err pairing_expired,
          )
          else (s', err pairing_claimed))
  unfolding claim_pairing
  claim_once later key' h =
      let (i, e, c) = claim_pairing-Claim upper now key code s s' p h in
      let found : lookup (to_upper upper (trim_space code)) s'.by_code ≡ some i = rw c.store e in
      let is_claimed : p.claimed ≡ true = rw c.pairing in
      rw (found, written i c) (claim_at-claimed later key' _ i p s' is_claimed)

  -- The device key that a claim hands out is the mobile device's key of the session until the
  -- pairing expires, and the desktop's key stays the desktop's, unless the two are the same.
  claim_visible :
      (later : ℕ)
      → IsShared s
      → claim_pairing upper now key code s ≡ (s', ok p)
      → ltb p.expires_at later ≡ false
      → p.mobile_device_key ≢ p.pc_device_key
      → (validate_session_key later p.session_id p.mobile_device_key s' ≡ some mobile)
        × (validate_session_key later p.session_id p.pc_device_key s' ≡ some pc)
  unfolding validate_session_key
  claim_visible later w h fresh differ =
      let (i, e, c) = claim_pairing-Claim upper now key code s s' p h in
      let (q, there, named, session) = w.shared _ i e in
      let same : q ≡ c.old = ground (arith, there, c.there) in
      let by_session : lookup p.session_id s'.by_session ≡ some i =
        rw (c.store, c.pairing) (rw same at session) in
      (
        rw (by_session, written i c, fresh, str_eq-ne _ _ differ, eq_refl p.mobile_device_key),
        rw (by_session, written i c, fresh, eq_refl p.pc_device_key),
      )

-- A session whose pairing is not claimed yet has the empty mobile key, so an empty device key passes
-- for the mobile device's.
pub empty_key_passes :
    (now : ℕ) (session_id : String) (s : Store) (i : ℕ) (p : Pairing)
    → lookup session_id s.by_session ≡ some i
    → get_elem? s.heap i ≡ some p
    → ltb p.expires_at now ≡ false
    → p.mobile_device_key ≡ ""
    → p.pc_device_key ≢ ""
    → validate_session_key now session_id "" s ≡ some mobile
unfolding validate_session_key
empty_key_passes now session_id s i p e there fresh m k =
    rw (e, there, fresh, m, str_eq-ne _ _ (λ q. k (sym q)))
