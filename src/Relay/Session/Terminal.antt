-- ===== src/Relay/Session/Terminal.antt =====
-- The account of the lines of terminal output: those in the queue, those that a TERM_SUMMARY in the
-- queue counts, and those that the drop counter counts (relay/session.go).
use vibe_deck.Prelude.{
  ℕ, ◌+◌, ◌==◌, ltb, ℤ, pos, Bool, true, false, none, some, List, [], ◌∷◌, ◌++◌, String, ◌≡◌, refl,
  ap, arith, length, get_elem?, set, inl, inr, Bool-cases, eq_refl, get_elem?-set_self,
  get_elem?-lt, if◌then◌else◌,
}
use vibe_deck.GoMap.{lookup, lookup-insert}
use vibe_deck.Protocol.Models.{MessageType, term, term_summary, of_term_summary}
use vibe_deck.Protocol.Envelope.{Envelope, Codec, Result, ok, err}
use vibe_deck.Protocol.Envelope.Laws.{new_envelope-IsComplete}
use vibe_deck.Relay.Session.{
  Session, done, sent, full, try_send, or_zero, increment_drop_counter, reset_drop_counter,
  current_drop_counter, try_emit_term_summary, emit_summary, after_term, term_summary_of, deliver,
  is_term,
}

-- The lines that a packet stands for, where `skipped` is how the receiver reads a summary's payload.
abbrev pub kind_lines : MessageType → ℕ → ℕ
kind_lines term n = 1
kind_lines term_summary n = n
kind_lines _ n = 0

abbrev pub lines_of : (String → ℕ) → Envelope → ℕ
lines_of skipped e = kind_lines e.kind (skipped e.payload)

abbrev pub lines : (String → ℕ) → List Envelope → ℕ
lines skipped [] = 0
lines skipped (e ∷ es) = lines_of skipped e + lines skipped es

-- The receiver reads the number that the relay encoded.
unfoldable pub ReadsSummary : Codec → (String → ℕ) → Type 0
ReadsSummary codec skipped =
    (n : ℕ) (s : String)
    → codec.marshal (of_term_summary (record { skipped_lines = pos n })) ≡ ok s
    → skipped s ≡ n

lines-append :
    (skipped : String → ℕ) (es : List Envelope) (e : Envelope)
    → lines skipped (es ++ e ∷ []) ≡ lines skipped es + lines_of skipped e
lines-append skipped [] e = omega arith
lines-append skipped (x ∷ es) e = omega (arith, lines-append skipped es e)

-- The session has an open channel at `ch` with this buffer, and this drop counter for the target.
pub record Holds (s : Session) (ch : ℕ) (target : String) (buffer : List Envelope) (count : ℕ)
    : Type 0 where
  pub there : get_elem? s.channels ch ≡ some (record { buffer = buffer; closed = false })
  pub counted : current_drop_counter target s ≡ count

module _ (ch : ℕ) (target : String) where
  abbrev pushed : Session → List Envelope → Envelope → Session
  pushed s buffer env = record s {
    channels = set s.channels ch (record { buffer = buffer ++ env ∷ []; closed = false });
  }

  try_send_eq :
      (s : Session) (buffer : List Envelope) (count : ℕ) (env : Envelope)
      → Holds s ch target buffer count
      → try_send ch env s
        ≡ (if ltb (length buffer) s.queue_size then sent (pushed s buffer env) else full)
  unfolding try_send
  try_send_eq s buffer count env h = rw h.there

  pushed-Holds :
      (s : Session) (buffer : List Envelope) (count : ℕ) (env : Envelope)
      → Holds s ch target buffer count
      → Holds (pushed s buffer env) ch target (buffer ++ env ∷ []) count
  unfolding current_drop_counter
  pushed-Holds s buffer count env h = record {
    there = get_elem?-set_self s.channels ch _ (get_elem?-lt s.channels ch h.there);
    counted = h.counted;
  }

  reset-Holds :
      (s : Session) (buffer : List Envelope) (count : ℕ)
      → Holds s ch target buffer count
      → Holds (reset_drop_counter target s) ch target buffer 0
  unfolding reset_drop_counter current_drop_counter
  reset-Holds s buffer count h = record {
    there = h.there;
    counted = rw (lookup-insert target target 0 s.dropped_term, eq_refl target);
  }

  increment-Holds :
      (s : Session) (buffer : List Envelope) (count : ℕ)
      → Holds s ch target buffer count
      → Holds (increment_drop_counter target s) ch target buffer (count + 1)
  unfolding increment_drop_counter current_drop_counter
  increment-Holds s buffer count h = record {
    there = h.there;
    counted =
        rw
          (
            lookup-insert target target (or_zero (lookup target s.dropped_term) + 1) s.dropped_term,
            eq_refl target,
          )
          (ap (λ (n : ℕ). n + 1) h.counted);
  }

-- The run returns a session in which the lines add up to `total`.
abbrev pub Accounts : (String → ℕ) → ℕ → String → ℕ → Session → Type 0
Accounts skipped ch target total s =
    (buffer : List Envelope) × (count : ℕ) × Holds s ch target buffer count
    × (lines skipped buffer + count ≡ total)

module _ (codec : Codec) (skipped : String → ℕ) (reads : ReadsSummary codec skipped) (now : ℤ)
    (ch : ℕ) (target : String) where
  emit_summary-Accounts :
      (s : Session) (buffer : List Envelope) (count : ℕ) (r : Result Envelope)
      → Holds s ch target buffer count
      → ((e : Envelope) → r ≡ ok e → lines_of skipped e ≡ count)
      → (s' : Session) × (emit_summary ch target s r ≡ done s')
        × Accounts skipped ch target (lines skipped buffer + count) s'
  emit_summary-Accounts s buffer count (err x) h k = (s, refl, (buffer, count, h, refl))
  emit_summary-Accounts s buffer count (ok e) h k =
      elim (Bool-cases (ltb (length buffer) s.queue_size)) [
        | inl room ↦ (
          reset_drop_counter target (pushed ch target s buffer e),
          rw (try_send_eq ch target s buffer count e h, room),
          (
            buffer ++ e ∷ [],
            0,
            reset-Holds ch target (pushed ch target s buffer e) (buffer ++ e ∷ []) count
                (pushed-Holds ch target s buffer count e h),
            omega (arith, lines-append skipped buffer e, k e refl),
          ),
        )
        | inr no_room ↦
            (s, rw (try_send_eq ch target s buffer count e h, no_room), (buffer, count, h, refl))
      ]

  summary_lines :
      (env : Envelope) (count : ℕ) (e : Envelope)
      → term_summary_of codec now env count ≡ ok e
      → lines_of skipped e ≡ count
  unfolding ReadsSummary
  summary_lines env count e h =
      let (complete, sid, rid, seq, kind, payload) =
        new_envelope-IsComplete codec now _ _ _ _ _ h in
      rw kind (reads count e.payload payload)

  try_emit-Accounts :
      (env : Envelope) (s : Session) (buffer : List Envelope) (count : ℕ)
      → Holds s ch target buffer count
      → (s' : Session) × (try_emit_term_summary codec now ch env target s ≡ done s')
        × Accounts skipped ch target (lines skipped buffer + count) s'
  unfolding try_emit_term_summary
  try_emit-Accounts env s buffer count h = elim (Bool-cases (count == 0)) [
    | inl zero_count ↦ (s, rw (h.counted, zero_count), (buffer, count, h, refl))
    | inr some_count ↦
        let (s', e, a) =
          emit_summary-Accounts s buffer count (term_summary_of codec now env count) h
            (summary_lines env count) in
        (s', rw (h.counted, some_count) e, a)
  ]

  after_term-Accounts :
      (env : Envelope) (s : Session) (buffer : List Envelope) (count : ℕ)
      → env.kind ≡ term
      → Holds s ch target buffer count
      → (s' : Session) × (after_term target s (try_send ch env s) ≡ done (s', none))
        × Accounts skipped ch target (lines skipped buffer + count + 1) s'
  after_term-Accounts env s buffer count k h =
      elim (Bool-cases (ltb (length buffer) s.queue_size)) [
        | inl room ↦ (
          pushed ch target s buffer env,
          rw (try_send_eq ch target s buffer count env h, room),
          (
            buffer ++ env ∷ [],
            count,
            pushed-Holds ch target s buffer count env h,
            let one : lines_of skipped env ≡ 1 = rw k in
                omega (arith, lines-append skipped buffer env),
          ),
        )
        | inr no_room ↦ (
          increment_drop_counter target s,
          rw (try_send_eq ch target s buffer count env h, no_room),
          (buffer, count + 1, increment-Holds ch target s buffer count h, omega arith),
        )
      ]

  -- A TERM packet is delivered without an error, and adds exactly one line to the account of its
  -- target: the queue's lines, where a summary counts as many as its receiver reads from it, plus
  -- the drop counter.
  pub deliver-Accounts :
      (drained : Bool) (env : Envelope) (s : Session) (buffer : List Envelope) (count : ℕ)
      → env.kind ≡ term
      → Holds s ch target buffer count
      → (s' : Session) × (deliver codec now drained ch target env s ≡ done (s', none))
        × Accounts skipped ch target (lines skipped buffer + count + 1) s'
  unfolding deliver
  deliver-Accounts drained env s buffer count k h =
      let (t, e, (b, c, g, sum)) = try_emit-Accounts env s buffer count h in
      let (s', f, (b', c', g', sum')) = after_term-Accounts env t b c k g in
      let is : is_term env.kind ≡ true = ap (λ (x : MessageType). is_term x) k in
      (s', rw (is, e) f, (b', c', g', omega arith))
