-- ===== src/GoMap.antt =====
-- Go's `map[string]V` as an association list with one entry to a key. Go leaves the order of an
-- iteration open; the list's order stands for one such order, and the laws speak of `lookup`.
use mathlib.Core.Path.{subst}
use vibe_deck.Prelude.{
  ◌+◌, ◌≤◌, ◌≡◌, refl, Bool, eq_refl, Option, none, some, inl, inr, Bool-cases, List, [], ◌∷◌,
  String, arith, eq_iff, str_eq, if◌then◌else◌, length,
}

abbrev pub GoMap {ℓ} : Type ℓ → Type ℓ
GoMap V = List (String × V)

module _ {ℓ} {V : Type ℓ} where
  -- v, ok := m[k]
  unfoldable pub lookup : String → GoMap V → Option V
  lookup key [] = none
  lookup key ((other, value) ∷ rest) = if str_eq other key then some value else lookup key rest

  -- m[k] = v
  unfoldable pub insert : String → V → GoMap V → GoMap V
  insert key value [] = (key, value) ∷ []
  insert key value ((other, old) ∷ rest) =
      if str_eq other key then (key, value) ∷ rest else (other, old) ∷ insert key value rest

  -- delete(m, k)
  unfoldable pub delete : String → GoMap V → GoMap V
  delete k [] = []
  delete k ((j, w) ∷ m) = let rest = delete k m in if str_eq j k then rest else (j, w) ∷ rest

  -- One entry to a key.
  abbrev pub IsMap : GoMap V → Type ℓ
  IsMap [] = Unit
  IsMap ((k, v) ∷ m) = (lookup k m ≡ none) × IsMap m

  pub lookup-insert :
      (key asked : String) (value : V) (table : GoMap V)
      → lookup asked (insert key value table)
        ≡ (if str_eq key asked then some value else lookup asked table)
  unfolding lookup insert
  lookup-insert key asked value [] = refl
  lookup-insert key asked value ((first, old) ∷ rest) = ground (
    arith,
    eq_iff first key,
    eq_iff key asked,
    eq_iff first asked,
    lookup-insert key asked value rest,
  )

  pub lookup-delete :
      (k j : String) (m : GoMap V)
      → lookup j (delete k m) ≡ (if str_eq k j then none else lookup j m)
  unfolding lookup delete
  lookup-delete k j [] = ground arith
  lookup-delete k j ((i, w) ∷ m) =
      ground (arith, eq_iff k j, eq_iff i k, eq_iff i j, lookup-delete k j m)

  -- What is known of one key, said of every key.
  pub lookup_same :
      (k j : String) (m : GoMap V) (o : Option V)
      → lookup k m ≡ o
      → lookup j m ≡ (if str_eq k j then o else lookup j m)
  lookup_same k j m o h = elim (Bool-cases (str_eq k j)) [
    | inl e ↦ rw e (subst (λ (i : String). lookup i m ≡ o) ((eq_iff k j).0 e) h)
    | inr n ↦ rw n refl
  ]

  pub insert-IsMap : (k : String) (v : V) (m : GoMap V) → IsMap m → IsMap (insert k v m)
  unfolding lookup insert
  insert-IsMap k v [] h = (refl, tt)
  insert-IsMap k v ((i, w) ∷ m) h =
      ground (arith, eq_iff i k, eq_iff k i, lookup-insert k i v m, insert-IsMap k v m h.1)

  pub delete-IsMap : (k : String) (m : GoMap V) → IsMap m → IsMap (delete k m)
  unfolding delete
  delete-IsMap k [] h = tt
  delete-IsMap k ((i, w) ∷ m) h =
      ground (arith, eq_iff i k, eq_iff k i, lookup-delete k i m, delete-IsMap k m h.1)

  pub delete_absent : (k : String) (m : GoMap V) → lookup k m ≡ none → delete k m ≡ m
  unfolding lookup delete
  delete_absent k [] h = refl
  delete_absent k ((i, w) ∷ m) h = ground (arith, eq_iff i k, delete_absent k m)

  pub length-delete :
      (k : String) (m : GoMap V) (v : V)
      → IsMap m
      → lookup k m ≡ some v
      → length (delete k m) + 1 ≡ length m
  unfolding lookup delete
  length-delete k [] v u h = ground arith
  length-delete k ((i, w) ∷ m) v u h =
      ground (arith, eq_iff i k, delete_absent k m, length-delete k m v u.1)

  pub length-insert_new :
      (k : String) (v : V) (m : GoMap V) → lookup k m ≡ none → length (insert k v m) ≡ length m + 1
  unfolding lookup insert
  length-insert_new k v [] h = refl
  length-insert_new k v ((i, w) ∷ m) h = ground (arith, length-insert_new k v m)

  pub length-insert_old :
      (k : String) (v : V) (m : GoMap V) (w : V)
      → lookup k m ≡ some w
      → length (insert k v m) ≡ length m
  unfolding lookup insert
  length-insert_old k v [] w h = ground arith
  length-insert_old k v ((i, x) ∷ m) w h = ground (arith, length-insert_old k v m w)

  -- A property of every entry; it computes to a tuple.
  abbrev pub Each {κ} : (String → V → Type κ) → GoMap V → Type κ
  Each P [] = Unit
  Each P ((k, v) ∷ m) = P k v × Each P m

  pub Each-lookup {κ} :
      (P : String → V → Type κ) (k : String) (v : V) (m : GoMap V)
      → Each P m
      → lookup k m ≡ some v
      → P k v
  unfolding lookup
  Each-lookup P k v [] h e = ground arith
  Each-lookup P k v ((i, w) ∷ m) h e = elim (Bool-cases (str_eq i k)) [
    | inl same ↦
        subst (λ (j : String). P j v) ((eq_iff i k).0 same)
          (subst (λ (x : V). P i x) (ground arith) h.0)
    | inr other ↦ Each-lookup P k v m h.1 (rw other at e)
  ]

  pub Each-insert {κ} :
      (P : String → V → Type κ) (k : String) (v : V) (m : GoMap V)
      → P k v
      → Each P m
      → Each P (insert k v m)
  unfolding insert
  Each-insert P k v [] p h = (p, tt)
  Each-insert P k v ((i, w) ∷ m) p h = elim (Bool-cases (str_eq i k)) [
    | inl same ↦ rw same (p, h.1)
    | inr other ↦ rw other (h.0, Each-insert P k v m p h.1)
  ]

  pub Each-delete {κ} :
      (P : String → V → Type κ) (k : String) (m : GoMap V) → Each P m → Each P (delete k m)
  unfolding delete
  Each-delete P k [] h = tt
  Each-delete P k ((i, w) ∷ m) h = elim (Bool-cases (str_eq i k)) [
    | inl same ↦ rw same (Each-delete P k m h.1)
    | inr other ↦ rw other (h.0, Each-delete P k m h.1)
  ]

  -- for k, v := range m { if !test(k, v) { delete(m, k) } }
  unfoldable pub retain : (String → V → Bool) → GoMap V → GoMap V
  retain test [] = []
  retain test ((k, v) ∷ m) = let rest = retain test m in if test k v then (k, v) ∷ rest else rest

  abbrev kept : (V → Bool) → Option V → Option V
  kept test none = none
  kept test (some v) = if test v then some v else none

  lookup-retain_absent :
      (test : String → V → Bool) (j : String) (m : GoMap V)
      → lookup j m ≡ none
      → lookup j (retain test m) ≡ none
  unfolding lookup retain
  lookup-retain_absent test j [] h = refl
  lookup-retain_absent test j ((i, w) ∷ m) h = ground (arith, lookup-retain_absent test j m)

  -- A key keeps its value if the value passes the test.
  pub lookup-retain :
      (test : String → V → Bool) (j : String) (m : GoMap V)
      → IsMap m
      → lookup j (retain test m) ≡ kept (test j) (lookup j m)
  unfolding lookup retain
  lookup-retain test j [] u = refl
  lookup-retain test j ((i, w) ∷ m) u = elim (Bool-cases (str_eq i j)) [
    | inl same ↦
        subst
          (λ (k : String).
            lookup k (retain test ((i, w) ∷ m)) ≡ kept (test k) (lookup k ((i, w) ∷ m)))
          ((eq_iff i j).0 same) (ground (arith, eq_refl i, lookup-retain_absent test i m u.0))
    | inr other ↦ ground (arith, lookup-retain test j m u.1)
  ]

  pub retain-IsMap : (test : String → V → Bool) (m : GoMap V) → IsMap m → IsMap (retain test m)
  unfolding retain
  retain-IsMap test [] u = tt
  retain-IsMap test ((i, w) ∷ m) u =
      ground (arith, lookup-retain_absent test i m u.0, retain-IsMap test m u.1)

  pub retain-Each {κ} :
      (P : String → V → Type κ) (test : String → V → Bool) (m : GoMap V)
      → Each P m
      → Each P (retain test m)
  unfolding retain
  retain-Each P test [] h = tt
  retain-Each P test ((i, w) ∷ m) h = elim (Bool-cases (test i w)) [
    | inl e ↦ rw e (h.0, retain-Each P test m h.1)
    | inr e ↦ rw e (retain-Each P test m h.1)
  ]

  pub length-retain : (test : String → V → Bool) (m : GoMap V) → length (retain test m) ≤ length m
  unfolding retain
  length-retain test [] = omega arith
  length-retain test ((i, w) ∷ m) = ground (arith, length-retain test m)
