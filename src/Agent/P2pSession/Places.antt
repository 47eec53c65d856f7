-- ===== src/Agent/P2pSession/Places.antt =====
-- The places that stops have taken (p2p_session.go).
use vibe_deck.Prelude.{
  ◌==◌, ◌+◌, Bool, inl, inr, Bool-cases, Option-cases, ℕ, suc, true, Option, none, some, List, [],
  ◌∷◌, length, set, ◌≡◌, ap, arith,
}
use vibe_deck.Agent.P2pSession.Flags.{one_if, live_at, times, live_at_bound, live_at-set}
use vibe_deck.Agent.P2pSession.Events.{places, take_out}

pub take_out-times :
    (i : ℕ) (js rest : List ℕ)
    → take_out i js ≡ some rest
    → (length js ≡ suc (length rest)) × ((k : ℕ) → times k js ≡ one_if (i == k) + times k rest)
take_out-times i [] rest h = absurd (ground arith)
take_out-times i (j ∷ js) rest h = elim (Bool-cases (j == i)) [
  | inl e ↦
      let same : js ≡ rest = ground arith in
      let at : j ≡ i = ground arith in
      (
        omega (arith, ap (λ (l : List ℕ). length l) same),
        λ k. omega (arith, ap (times k) same, ap (λ (n : ℕ). one_if (n == k)) at),
      )
  | inr e ↦ elim (Option-cases (take_out i js)) [
    | inl n ↦ absurd (ground (arith, n))
    | inr (rest', n) ↦
        let same : j ∷ rest' ≡ rest = ground (arith, n) in
        let (size, each) = take_out-times i js rest' n in
        (
          omega (arith, size, ap (λ (l : List ℕ). length l) same),
          λ k. omega (arith, each k, ap (times k) same),
        )
  ]
]

pub times-places :
    (k : ℕ) (active : Option ℕ) (js : List ℕ)
    → times k (places active js) ≡ times k (places active []) + times k js
times-places k none js = omega arith
times-places k (some i) js = omega arith

-- A place that is taken out of `ending` was there.
pub cancelled_place :
    (bs : List Bool) (active : Option ℕ) (i k : ℕ) (js rest : List ℕ)
    → live_at bs k ≡ times k (places active js)
    → times k js ≡ one_if (i == k) + times k rest
    → live_at (set bs i true) k ≡ times k (places active rest)
cancelled_place bs active i k js rest w h =
    let a = times-places k active js in
    let b = times-places k active rest in
    let c = live_at_bound bs k in
    let d = live_at-set bs i k in
    elim (Bool-cases (i == k)) [
      | inl e ↦ omega (arith, a, b, c, w, rw e at d, rw e at h)
      | inr e ↦ omega (arith, a, b, c, w, rw e at d, rw e at h)
    ]
