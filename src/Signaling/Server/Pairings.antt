-- ===== src/Signaling/Server/Pairings.antt =====
-- What the requests to signaling/server.go are answered.
use Prim.Native.Char.{Char}
use vibe_deck.Prelude.{
  ℕ, Option, none, some, List, [], ◌∷◌, String, ◌≡◌, refl, ap, arith, eq_iff, ltb, Bool, true,
  false, if◌then◌else◌,
}
use vibe_deck.GoMap.{delete}
use vibe_deck.Text.{trim_space, trim_slashes, split_slash}
use vibe_deck.Signaling.Store.{
  Store, Pairing, to_upper, drop_pairing, pairing_claimed, pairing_expired, Result, ok, err,
  claim_pairing,
}
use vibe_deck.Signaling.Store.Claims.{claim_once}
use vibe_deck.Signaling.Server.{
  failed, pairing_claimed_by, claim_reply, claim_with, claim_code, answer, handle_pairing_claim,
  unix_milli,
}

claim_path-eq :
    (segments : List String) (code : String)
    → claim_code segments ≡ some code
    → segments ≡ "v1" ∷ "pairings" ∷ code ∷ "claim" ∷ []
claim_path-eq (v ∷ p ∷ i ∷ c ∷ []) code h =
    ground (arith, eq_iff v "v1", eq_iff p "pairings", eq_iff c "claim")
claim_path-eq _ code h = ground arith

-- A claim that the reply shows to have succeeded.
answer-claimed :
    (r : Store × Result Pairing) (s' : Store) (id mobile_key : String) (until : ℕ)
    → answer claim_reply r ≡ (s', pairing_claimed_by id mobile_key until)
    → (p : Pairing) × (r ≡ (s', ok p)) × (p.session_id ≡ id) × (unix_milli p.expires_at ≡ until)
answer-claimed (s, ok p) s' id mobile_key until h = (p, ground arith, ground arith, ground arith)
answer-claimed (s, err e) s' id mobile_key until h = absurd (ground arith)

claim_with-claimed :
    (upper : Char → Char) (now : ℕ) (key o : Option String) (s s' : Store) (id mobile_key : String)
    (until : ℕ)
    → claim_with upper now key o s ≡ (s', pairing_claimed_by id mobile_key until)
    → (code : String) × (p : Pairing) × (o ≡ some code)
      × (claim_pairing upper now key code s ≡ (s', ok p))
      × (p.session_id ≡ id)
      × (unix_milli p.expires_at ≡ until)
claim_with-claimed upper now key none s s' id mobile_key until h = absurd (ground arith)
claim_with-claimed upper now key (some code) s s' id mobile_key until h =
    let (p, e, n, k) =
      answer-claimed (claim_pairing upper now key code s) s' id mobile_key until h in
    (code, p, refl, e, n, k)

-- The store without that code and that session.
abbrev pub without : String → String → Store → Store
without code id s = record s {
  by_code = delete code s.by_code;
  by_session = delete id s.by_session;
}

answered_again :
    (past : Bool) (code session id : String) (s : Store)
    → session ≡ id
    → answer claim_reply (
        if past
        then (drop_pairing code (some session) s, err pairing_expired)
        else (s, err pairing_claimed))
      ≡ (if past
          then (without code id s, failed 409 pairing_expired)
          else (s, failed 409 pairing_claimed))
answered_again true code session id s e =
    ap (λ (i : String). (drop_pairing code (some i) s, failed 409 pairing_expired)) e
answered_again false code session id s e = refl

-- After a claim request has been answered with a device key, the next claim request on the same path,
-- at any time and with any token, is answered 409 and hands out no key: as claimed, with the store
-- unchanged, up to the time when the pairing expires, which in milliseconds is the one of the first
-- answer; after that time as expired, with the pairing off the store.
pub claim_conflict :
    (upper : Char → Char) (now : ℕ) (key : Option String) (path : String) (s s' : Store)
    (id mobile_key : String) (until : ℕ)
    → handle_pairing_claim upper now key "POST" path s
      ≡ (s', pairing_claimed_by id mobile_key until)
    → (later : ℕ) (key' : Option String)
    → (expires_at : ℕ) × (code : String) × (unix_milli expires_at ≡ until)
      × (split_slash (trim_slashes path) ≡ "v1" ∷ "pairings" ∷ code ∷ "claim" ∷ [])
      × (handle_pairing_claim upper later key' "POST" path s' ≡ (
          if ltb expires_at later
          then (without (to_upper upper (trim_space code)) id s', failed 409 pairing_expired)
          else (s', failed 409 pairing_claimed)))
unfolding handle_pairing_claim
claim_conflict upper now key path s s' id mobile_key until h later key' =
    let (code, p, o, c, same, expiry) =
      claim_with-claimed upper now key (claim_code (split_slash (trim_slashes path))) s s' id
        mobile_key until h in
    let again = claim_once upper now key code s s' p later key' c in
    (
      p.expires_at,
      code,
      expiry,
      claim_path-eq (split_slash (trim_slashes path)) code o,
      rw (o, again) (answered_again (ltb p.expires_at later) _ p.session_id id s' same),
    )
