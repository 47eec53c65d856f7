-- ===== src/Agent/ThreadStore/Reload.antt =====
-- The threads that are loaded from a snapshot of a store (thread_store.go).
use mathlib.Core.Path.{subst}
use mathlib.Core.Option.{map as option_map}
use vibe_deck.Prelude.{
  map, ℕ, Bool, true, false, ◌||◌, Option, none, some, List, [], ◌∷◌, String, str_eq, str_eq-ne,
  if◌then◌else◌, ◌≡◌, ◌≢◌, refl, sym, ap, ◌∙◌, arith, eq_iff, inl, inr, Bool-cases, Option-cases,
}
use vibe_deck.GoMap.{GoMap, lookup, lookup-insert, Each, Each-lookup}
use vibe_deck.Text.{trim_space}
use vibe_deck.Protocol.Envelope.{Result}
use vibe_deck.Protocol.Envelope as Protocol
use vibe_deck.Agent.ThreadStore.State.{
  ThreadRecord, ThreadDetail, ThreadStoreSnapshot, written, ThreadStore,
}
use vibe_deck.Agent.ThreadStore.Disk.{
  insert_sorted, sort_strings, keys, collect, snapshot_locked, next_outcome,
  persist_locked_best_effort, load_details, ok, content, load_from_disk,
}
use vibe_deck.Agent.ThreadStore.Methods.{get, detail_of}

-- Every thread stands under its own id.
abbrev pub Keyed : GoMap ThreadRecord → Type 0
Keyed threads = Each (λ id (r : ThreadRecord). r.summary.id ≡ id) threads

abbrev contains : String → List String → Bool
contains id [] = false
contains id (x ∷ xs) = str_eq x id || contains id xs

contains-insert_sorted :
    (id x : String) (xs : List String) → contains id (insert_sorted x xs) ≡ contains id (x ∷ xs)
contains-insert_sorted id x [] = refl
contains-insert_sorted id x (y ∷ ys) = ground (arith, contains-insert_sorted id x ys)

contains-sort_strings :
    (id : String) (xs : List String) → contains id (sort_strings xs) ≡ contains id xs
unfolding sort_strings
contains-sort_strings id [] = refl
contains-sort_strings id (x ∷ xs) =
    contains-insert_sorted id x (sort_strings xs)
    ∙ ap (λ (b : Bool). str_eq x id || b) (contains-sort_strings id xs)

absent_key :
    (id : String) (m : GoMap ThreadRecord) → contains id (keys m) ≡ false → lookup id m ≡ none
unfolding lookup
absent_key id [] h = refl
absent_key id ((k, r) ∷ m) h = ground (arith, absent_key id m)

abbrev or_else : Option ThreadRecord → Option ThreadRecord → Option ThreadRecord
or_else none o = o
or_else (some r) o = some r

-- What reading back makes of a record.
abbrev back_record : (ThreadDetail → ThreadDetail) → ThreadRecord → ThreadRecord
back_record read_back r =
    let d = read_back (record { thread = r.summary; events = r.events }) in
    record { summary = d.thread; events = d.events }

abbrev back : (ThreadDetail → ThreadDetail) → Option ThreadRecord → Option ThreadRecord
back read_back none = none
back read_back (some r) = some (back_record read_back r)

-- A key without a record adds nothing; the key of a record adds that record.
skipped :
    (same later : Bool) (here old : Option ThreadRecord)
    → (same ≡ true → here ≡ none)
    → (if later then or_else here old else old) ≡ (if same || later then or_else here old else old)
skipped true later here old h = rw (h refl) (ground arith)
skipped false later here old h = refl

loaded :
    (same later : Bool) (here old : Option ThreadRecord) (r : ThreadRecord)
    → (same ≡ true → here ≡ some r)
    → (if later then or_else here (if same then some r else old) else if same then some r else old)
      ≡ (if same || later then or_else here old else old)
loaded true later here old r h = rw (h refl) (ground arith)
loaded false later here old r h = refl

module _ (threads : GoMap ThreadRecord) (k : Keyed threads)
    (read_back : ThreadDetail → ThreadDetail)
    (keeps : (d : ThreadDetail) → (read_back d).thread.id ≡ d.thread.id) where
  at_key :
      (x id : String) (o : Option ThreadRecord)
      → lookup x threads ≡ o
      → str_eq x id ≡ true
      → lookup id threads ≡ o
  at_key x id o e q = subst (λ (j : String). lookup j threads ≡ o) ((eq_iff x id).0 q) e

  lookup-load_details :
      (ids : List String) (s : ThreadStore) (id : String)
      → lookup id (load_details (map read_back (collect threads ids)) s).threads ≡ (
          if contains id ids
          then or_else (back read_back (lookup id threads)) (lookup id s.threads)
          else lookup id s.threads)
  unfolding collect load_details
  lookup-load_details [] s id = refl
  lookup-load_details (x ∷ ids) s id = elim (Option-cases (lookup x threads)) [
    | inl e ↦ rw e (
        lookup-load_details ids s id
        ∙ skipped (str_eq x id) (contains id ids) (back read_back (lookup id threads))
            (lookup id s.threads) (λ q. ap (back read_back) (at_key x id none e q)))
    | inr (r, e) ↦
        let r' = back_record read_back r in
        let named : r'.summary.id ≡ x = keeps _ ∙ Each-lookup _ x r threads k e in
        let test : str_eq r'.summary.id id ≡ str_eq x id = ap (λ (j : String). str_eq j id) named in
        rw e (
          lookup-load_details ids _ id
          ∙ rw (lookup-insert r'.summary.id id r' s.threads, test)
              (loaded (str_eq x id) (contains id ids) (back read_back (lookup id threads))
                (lookup id s.threads) r' (λ q. ap (back read_back) (at_key x id (some r) e q))))
  ]

  load_details-collect :
      (s : ThreadStore) (id : String)
      → lookup id s.threads ≡ none
      → lookup id
          (load_details (map read_back (collect threads (sort_strings (keys threads)))) s).threads
        ≡ back read_back (lookup id threads)
  load_details-collect s id h =
      let step = lookup-load_details (sort_strings (keys threads)) s id in
      elim (Bool-cases (contains id (keys threads))) [
        | inl e ↦
            step
            ∙ rw (contains-sort_strings id (keys threads), e, h)
                (either (back read_back (lookup id threads)))
        | inr n ↦
            step
            ∙ rw (contains-sort_strings id (keys threads), n, h)
                (sym (ap (back read_back) (absent_key id threads n)))
      ]
    where
      either : (o : Option ThreadRecord) → or_else o none ≡ o
      either none = refl
      either (some r) = refl

get-back :
    (read_back : ThreadDetail → ThreadDetail) (o : Option ThreadRecord)
    → detail_of (back read_back o) ≡ option_map read_back (detail_of o)
get-back read_back none = refl
get-back read_back (some r) = refl

-- Let a store with a path, whose threads stand under their own ids, write its file, where the file
-- system does not fail and JSON makes a text of the snapshot that is not blank; and let JSON read
-- that text as the snapshot with each thread changed by a function that keeps its id, as Go's does
-- with the kinds of event data and with bytes that are no text. Then the file holds that text, and a
-- store with a path that is loaded from it gives under every id the thread that the first store
-- gives, changed by that function alone, and no thread where the first has none.
pub get-load_from_disk :
    (unmarshal : String → Result ThreadStoreSnapshot) (read_back : ThreadDetail → ThreadDetail)
    (now : ℕ) (s fresh : ThreadStore) (bytes : String)
    → Keyed s.threads
    → s.persistence_path ≢ ""
    → fresh.persistence_path ≢ ""
    → next_outcome s.disk.outcomes ≡ written
    → ((d : ThreadDetail) → (read_back d).thread.id ≡ d.thread.id)
    → s.disk.marshal (snapshot_locked now s) ≡ Protocol.ok bytes
    → trim_space bytes ≢ ""
    → unmarshal bytes
      ≡ Protocol.ok (record (snapshot_locked now s) {
        threads = map read_back (snapshot_locked now s).threads;
      })
    → (t : ThreadStore) × ((persist_locked_best_effort now s).disk.file ≡ some bytes)
      × (load_from_disk unmarshal (content bytes) fresh ≡ ok t)
      × ((id : String) → get id t ≡ option_map read_back (get id s))
unfolding persist_locked_best_effort load_from_disk snapshot_locked get lookup
get-load_from_disk unmarshal read_back now s fresh bytes k p q w keeps m b u = (
  load_details (map read_back (snapshot_locked now s).threads)
      (record fresh { threads = []; job_to_thread = [] }),
  rw (str_eq-ne s.persistence_path "" p, m, w) refl,
  rw (str_eq-ne fresh.persistence_path "" q, str_eq-ne (trim_space bytes) "" b, u) refl,
  λ id.
      ap detail_of (
        load_details-collect s.threads k read_back keeps
          (record fresh { threads = []; job_to_thread = [] }) id refl)
      ∙ get-back read_back (lookup id s.threads),
)
