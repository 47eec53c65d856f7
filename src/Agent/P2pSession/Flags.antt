-- ===== src/Agent/P2pSession/Flags.antt =====
-- Which runtimes are cancelled, and the steps that leave that alone (p2p_session.go).
use vibe_deck.Prelude.{
  ◌==◌, ◌≤◌, not, ℕ, zero, suc, ◌+◌, Bool, true, false, Option, none, some, List, [], ◌∷◌, ◌++◌,
  String, if◌then◌else◌, length, get_elem?, set, ◌≡◌, refl, ap, ◌∙◌, arith,
}
use vibe_deck.Runtime.StateManager.{StateManager}
use vibe_deck.Webrtc.Bridge.{BridgePeer}
use vibe_deck.Agent.P2pSession.State.{P2pRuntime, P2pSessionManager}
use vibe_deck.Agent.P2pSession.Lifecycle.{set_last_error, update_state_snapshot, in_state_manager}
use vibe_deck.Agent.P2pSession.Loops.{put_runtime, reconnect_after}

abbrev pub flags : {P : BridgePeer} → List (P2pRuntime P) → List Bool
flags [] = []
flags (rt ∷ rest) = rt.cancelled ∷ flags rest

abbrev pub one_if : Bool → ℕ
one_if true = 1
one_if false = 0

-- 1 for the place of a runtime that is not cancelled, 0 for any other.
abbrev pub live_at : List Bool → ℕ → ℕ
live_at [] i = 0
live_at (c ∷ rest) zero = one_if (not c)
live_at (c ∷ rest) (suc i) = live_at rest i

-- How often a place is in a list.
abbrev pub times : ℕ → List ℕ → ℕ
times i [] = 0
times i (j ∷ rest) = one_if (j == i) + times i rest

-- What a round does not change.
pub record Same {P : BridgePeer} {O : Type 0} (m m' : P2pSessionManager P O) : Type 0 where
  pub active : m'.active ≡ m.active
  pub cancelled : flags m'.runtimes ≡ flags m.runtimes
  pub shown : m'.status.active ≡ m.status.active

abbrev pub flag_of : {P : BridgePeer} → Option (P2pRuntime P) → Option Bool
flag_of none = none
flag_of (some rt) = some rt.cancelled

pub get_elem?-flags :
    {P : BridgePeer}
    → (xs : List (P2pRuntime P)) (i : ℕ) (rt : P2pRuntime P) → get_elem? xs i ≡ some rt
    → get_elem? (flags xs) i ≡ some rt.cancelled
get_elem?-flags [] i rt h = absurd (ground arith)
get_elem?-flags (x ∷ xs) zero rt h = ap flag_of h
get_elem?-flags (x ∷ xs) (suc i) rt h = get_elem?-flags xs i rt h

pub flags-set :
    {P : BridgePeer}
    → (xs : List (P2pRuntime P)) (i : ℕ) (rt : P2pRuntime P)
    → flags (set xs i rt) ≡ set (flags xs) i rt.cancelled
flags-set [] i rt = refl
flags-set (x ∷ xs) zero rt = refl
flags-set (x ∷ xs) (suc i) rt = ap (λ (bs : List Bool). x.cancelled ∷ bs) (flags-set xs i rt)

pub set-same : (bs : List Bool) (i : ℕ) (b : Bool) → get_elem? bs i ≡ some b → set bs i b ≡ bs
set-same [] i b h = refl
set-same (x ∷ bs) zero b h = ap (λ (c : Bool). c ∷ bs) (ground arith)
set-same (x ∷ bs) (suc i) b h = ap (λ (cs : List Bool). x ∷ cs) (set-same bs i b h)

pub live_at_bound : (bs : List Bool) (i : ℕ) → live_at bs i ≤ 1
live_at_bound [] i = omega arith
live_at_bound (true ∷ bs) zero = omega arith
live_at_bound (false ∷ bs) zero = omega arith
live_at_bound (c ∷ bs) (suc i) = live_at_bound bs i

pub live_at-absent :
    {P : BridgePeer}
    → (xs : List (P2pRuntime P)) (i : ℕ) → get_elem? xs i ≡ none
    → live_at (flags xs) i ≡ 0
live_at-absent [] i h = refl
live_at-absent (x ∷ xs) zero h = absurd (ground arith)
live_at-absent (x ∷ xs) (suc i) h = live_at-absent xs i h

pub live_at-set :
    (bs : List Bool) (j i : ℕ) → live_at (set bs j true) i ≡ (if j == i then 0 else live_at bs i)
live_at-set [] j i = ground arith
live_at-set (c ∷ bs) zero zero = refl
live_at-set (c ∷ bs) zero (suc i) = ground arith
live_at-set (c ∷ bs) (suc j) zero = ground arith
live_at-set (c ∷ bs) (suc j) (suc i) = ground (arith, live_at-set bs j i)

pub flags-append :
    {P : BridgePeer}
    → (xs : List (P2pRuntime P)) (rt : P2pRuntime P)
    → flags (xs ++ rt ∷ []) ≡ flags xs ++ rt.cancelled ∷ []
flags-append [] rt = refl
flags-append (x ∷ xs) rt = ap (λ (bs : List Bool). x.cancelled ∷ bs) (flags-append xs rt)

pub live_at-append :
    {P : BridgePeer}
    → (xs : List (P2pRuntime P)) (i : ℕ)
    → live_at (flags xs ++ false ∷ []) i ≡ live_at (flags xs) i + one_if (length xs == i)
live_at-append [] zero = ground arith
live_at-append [] (suc i) = ground arith
live_at-append (x ∷ xs) zero = ground arith
live_at-append (x ∷ xs) (suc i) = ground (arith, live_at-append xs i)

module _ {P : BridgePeer} {O : Type 0} where
  pub Same-refl : (m : P2pSessionManager P O) → Same m m
  Same-refl m = record { active = refl; cancelled = refl; shown = refl }

  pub Same-trans : (a b c : P2pSessionManager P O) → Same a b → Same b c → Same a c
  Same-trans a b c h k = record {
    active = k.active ∙ h.active;
    cancelled = k.cancelled ∙ h.cancelled;
    shown = k.shown ∙ h.shown;
  }

  pub put_runtime-Same :
      (i : ℕ) (rt : P2pRuntime P) (m : P2pSessionManager P O)
      → get_elem? (flags m.runtimes) i ≡ some rt.cancelled
      → Same m (put_runtime i rt m)
  put_runtime-Same i rt m h = record {
    active = refl;
    cancelled = flags-set m.runtimes i rt ∙ set-same (flags m.runtimes) i rt.cancelled h;
    shown = refl;
  }

  pub reconnect_after-Same :
      (now : ℕ) (message : String) (m : P2pSessionManager P O)
      → Same m (reconnect_after now message m)
  unfolding reconnect_after set_last_error update_state_snapshot
  reconnect_after-Same now message m = record { active = refl; cancelled = refl; shown = refl }

  pub set_last_error-Same :
      (now : ℕ) (message : String) (m : P2pSessionManager P O)
      → Same m (set_last_error now message m)
  unfolding set_last_error
  set_last_error-Same now message m = record { active = refl; cancelled = refl; shown = refl }

  pub in_state_manager-Same :
      (now : ℕ) (f : StateManager → StateManager) (m : P2pSessionManager P O)
      → Same m (in_state_manager now f m)
  unfolding update_state_snapshot
  in_state_manager-Same now f m = record { active = refl; cancelled = refl; shown = refl }

  -- The place `i` still has a runtime with the flag of `rt`.
  abbrev pub At : ℕ → P2pRuntime P → P2pSessionManager P O → Type 0
  At i rt m = get_elem? (flags m.runtimes) i ≡ some rt.cancelled

  pub At-Same :
      (i : ℕ) (rt : P2pRuntime P) (m m' : P2pSessionManager P O)
      → Same m m'
      → At i rt m
      → At i rt m'
  At-Same i rt m m' s h = rw s.cancelled h

  -- A loop that ends with an error, or quietly after the session's end.
  pub ended-Same :
      (now i : ℕ) (c : Bool) (rt : P2pRuntime P) (message : String) (m : P2pSessionManager P O)
      → At i rt m
      → Same m (if c then put_runtime i rt m else reconnect_after now message (put_runtime i rt m))
  ended-Same now i true rt message m h = put_runtime-Same i rt m h
  ended-Same now i false rt message m h =
      Same-trans m (put_runtime i rt m) _ (put_runtime-Same i rt m h)
        (reconnect_after-Same now message (put_runtime i rt m))
