-- ===== src/Signaling/Store/Sharing.antt =====
-- The two maps of the pairing store and the pairings that they share (signaling/store.go).
use Prim.Native.Char.{Char}
use vibe_deck.Prelude.{
  ℕ, true, false, Option, none, some, String, ◌≡◌, refl, arith, ltb, get_elem?, set, inl, inr,
  Option-cases,
}
use vibe_deck.GoMap.{lookup}
use vibe_deck.Text.{trim_space}
use vibe_deck.Signaling.Store.{Pairing, Store, ok, to_upper, claim_pairing, claim_found, claim_at}

-- What a code finds, its session finds too.
pub record IsShared (s : Store) : Type 0 where
  pub shared :
      (code : String) (i : ℕ)
      → lookup code s.by_code ≡ some i
      → (p : Pairing) × (get_elem? s.heap i ≡ some p)
        × (p.code ≡ code)
        × (lookup p.session_id s.by_session ≡ some i)

-- What a successful claim found and did.
pub record Claim (now : ℕ) (key : Option String) (s : Store) (i : ℕ) (s' : Store) (p' : Pairing)
    : Type 0 where
  pub old : Pairing
  pub token : String
  pub there : get_elem? s.heap i ≡ some old
  pub drawn : key ≡ some token
  pub unclaimed : old.claimed ≡ false
  pub not_expired : ltb old.expires_at now ≡ false
  pub pairing : p' ≡ record old { mobile_device_key = token; claimed = true }
  pub store :
      s'
      ≡ record s { heap = set s.heap i (record old { mobile_device_key = token; claimed = true }) }

claim_at-ok :
    (now : ℕ) (key : Option String) (code : String) (i : ℕ) (p : Pairing) (s s' : Store)
    (p' : Pairing)
    → get_elem? s.heap i ≡ some p
    → claim_at now key code i (some p) s ≡ (s', ok p')
    → Claim now key s i s' p'
claim_at-ok now none code i p s s' p' e h = absurd (ground arith)
claim_at-ok now (some token) code i p s s' p' e h = record {
  old = p;
  token = token;
  there = e;
  drawn = refl;
  unclaimed = ground arith;
  not_expired = ground arith;
  pairing = ground arith;
  store = ground arith;
}

claim_found-ok :
    (now : ℕ) (key : Option String) (code : String) (i : ℕ) (s s' : Store) (p' : Pairing)
    → claim_found now key code (some i) s ≡ (s', ok p')
    → Claim now key s i s' p'
claim_found-ok now key code i s s' p' h = elim (Option-cases (get_elem? s.heap i)) [
  | inl e ↦ absurd (ground arith)
  | inr (p, e) ↦ claim_at-ok now key code i p s s' p' e (rw e at h)
]

pub claim_pairing-Claim :
    (upper : Char → Char) (now : ℕ) (key : Option String) (code : String) (s s' : Store)
    (p' : Pairing)
    → claim_pairing upper now key code s ≡ (s', ok p')
    → (i : ℕ) × (lookup (to_upper upper (trim_space code)) s.by_code ≡ some i)
      × Claim now key s i s' p'
unfolding claim_pairing
claim_pairing-Claim upper now key code s s' p' h =
    elim (Option-cases (lookup (to_upper upper (trim_space code)) s.by_code)) [
      | inl e ↦ absurd (ground arith)
      | inr (i, e) ↦ (i, e, claim_found-ok now key _ i s s' p' (rw e at h))
    ]
