-- ===== src/Relay/Session/Stream.antt =====
-- The account of a stream of terminal output, with its reader taking packets in between
-- (relay/session.go).
use mathlib.Core.List.{tail}
use vibe_deck.Prelude.{
  ℕ, suc, ◌+◌, ℤ, true, Option, none, some, List, [], ◌∷◌, String, ◌≡◌, refl, ap, arith, get_elem?,
  All, get_elem?-set_self, get_elem?-lt,
}
use vibe_deck.Protocol.Models.{term}
use vibe_deck.Protocol.Envelope.{Envelope, Codec}
use vibe_deck.Relay.Session.{
  Channel, Session, Outcome, done, ◌>>=◌, deliver, take_packet, current_drop_counter,
}
use vibe_deck.Relay.Session.Terminal.{lines_of, lines, ReadsSummary, Holds, deliver-Accounts}

-- What happens to one target: TERM packets come in, and its reader takes packets.
pub data TermAct : Type 0 where
  line : Envelope → TermAct
  read : TermAct

abbrev pub IsTermAct : TermAct → Type 0
IsTermAct (line env) = env.kind ≡ term
IsTermAct read = Unit

abbrev first_lines : (String → ℕ) → List Envelope → ℕ
first_lines skipped [] = 0
first_lines skipped (e ∷ es) = lines_of skipped e

abbrev head_lines : (String → ℕ) → Option Channel → ℕ
head_lines skipped none = 0
head_lines skipped (some channel) = first_lines skipped channel.buffer

-- The second result is the number of lines that the reader has accounted for.
unfoldable pub stream :
    Codec → (String → ℕ) → ℤ → ℕ → String → List TermAct → Session → ℕ → Outcome (Session × ℕ)
stream codec skipped now ch target [] s n = done (s, n)
stream codec skipped now ch target (line env ∷ rest) s n =
    deliver codec now true ch target env s >>= λ r. stream codec skipped now ch target rest r.0 n
stream codec skipped now ch target (read ∷ rest) s n =
    stream codec skipped now ch target rest (take_packet ch s)
      (n + head_lines skipped (get_elem? s.channels ch))

abbrev pub line_count : List TermAct → ℕ
line_count [] = 0
line_count (line env ∷ rest) = suc (line_count rest)
line_count (read ∷ rest) = line_count rest

module _ (codec : Codec) (skipped : String → ℕ) (reads : ReadsSummary codec skipped) (now : ℤ)
    (ch : ℕ) (target : String) where
  read-Holds :
      (s : Session) (buffer : List Envelope) (count : ℕ)
      → Holds s ch target buffer count
      → Holds (take_packet ch s) ch target (tail buffer) count
  unfolding take_packet current_drop_counter
  read-Holds s buffer count h = rw h.there (record {
    there = get_elem?-set_self s.channels ch _ (get_elem?-lt s.channels ch h.there);
    counted = h.counted;
  })

  first-tail :
      (buffer : List Envelope)
      → first_lines skipped buffer + lines skipped (tail buffer) ≡ lines skipped buffer
  first-tail [] = refl
  first-tail (e ∷ es) = refl

  -- Of any stream of TERM packets and reads, on a target with an open channel: every line that came
  -- in, or was in the queue or in the drop counter before, is accounted for by what the reader has
  -- taken, by what is in the queue, or by the drop counter.
  pub stream_accounts :
      (todo : List TermAct) (s : Session) (n : ℕ) (buffer : List Envelope) (count : ℕ)
      → All IsTermAct todo
      → Holds s ch target buffer count
      → (s' : Session) × (n' : ℕ) × (buffer' : List Envelope) × (count' : ℕ) × (stream codec skipped
            now ch target todo s n
          ≡ done (s', n'))
        × Holds s' ch target buffer' count'
        × (n' + lines skipped buffer' + count' ≡ n + lines skipped buffer + count + line_count todo)
  unfolding stream
  stream_accounts [] s n buffer count t h = (s, n, buffer, count, refl, h, omega arith)
  stream_accounts (line env ∷ rest) s n buffer count t h =
      let (s1, e, (b1, c1, h1, sum1)) =
        deliver-Accounts codec skipped reads now ch target true env s buffer count t.0 h in
      let (s2, n2, b2, c2, f, h2, sum2) = stream_accounts rest s1 n b1 c1 t.1 h1 in
      (s2, n2, b2, c2, rw e f, h2, omega arith)
  stream_accounts (read ∷ rest) s n buffer count t h =
      let (s2, n2, b2, c2, f, h2, sum2) =
        stream_accounts rest (take_packet ch s) (n + head_lines skipped (get_elem? s.channels ch))
          (tail buffer) count t.1 (read-Holds s buffer count h) in
      let taken : head_lines skipped (get_elem? s.channels ch) ≡ first_lines skipped buffer =
        ap (λ (o : Option Channel). head_lines skipped o) h.there in
      (s2, n2, b2, c2, f, h2, omega (arith, first-tail buffer))
