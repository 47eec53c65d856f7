-- ===== src/Control/Profiles.antt =====
-- internal/agent/profiles.go: the run profiles. The file's content is what `os.ReadFile` returns, and
-- `decode` is json.Unmarshal into the map; `sort` is sort.Slice, given the comparison.
use Prim.Native.Nat.{Ordering}
use Prim.Native.String.{◌++◌ as concat, compare}
use mathlib.Core.Path.{subst}
use vibe_deck.Prelude.{
  ◌≤◌, Bool, true, false, not, List, [], ◌∷◌, map, String, str_eq, if◌then◌else◌, length, ◌≡◌, ◌⊎◌,
  inl, inr, refl, sym, ap, eq_iff, arith, Bool-cases,
}
use vibe_deck.GoMap.{GoMap}
use vibe_deck.Protocol.Envelope.{Result, ok, err, ◌>>=◌, wrap}

pub record RunProfile : Type 0 where
  pub label : String
  pub command : String
  pub scope : String
  pub optional : Bool

pub record RunProfileDescriptor : Type 0 where
  pub id : String
  pub label : String
  pub command : String
  pub scope : String
  pub optional : Bool

unfoldable pub default_run_profiles : GoMap RunProfile
default_run_profiles =
    (
      "test_last",
      record {
        label = "Re-run Last Test";
        command = "dynamic";
        scope = "MEDIUM";
        optional = false;
      },
    )
    ∷ (
      "test_all",
      record { label = "Run All Tests"; command = "npm test"; scope = "MEDIUM"; optional = false },
    )
    ∷ (
      "build",
      record { label = "Build"; command = "npm run build"; scope = "MEDIUM"; optional = false },
    )
    ∷ (
      "dev",
      record { label = "Dev Server"; command = "npm run dev"; scope = "MEDIUM"; optional = true },
    )
    ∷ []

-- What reading a file gives.
pub data FileRead : Type 0 where
  content : String → FileRead
  not_exist : FileRead
  failed : String → FileRead

abbrev pub non_empty : GoMap RunProfile → Result (GoMap RunProfile)
non_empty [] = err "run profile file is empty"
non_empty (p ∷ rest) = ok (p ∷ rest)

abbrev pub load_read : (String → Result (GoMap RunProfile)) → FileRead → Result (GoMap RunProfile)
load_read decode (content bytes) =
    wrap "parse run profile json: " (decode bytes) >>= λ profiles. non_empty profiles
load_read decode not_exist = ok default_run_profiles
load_read decode (failed e) = err (concat "read run profile file: " e)

unfoldable pub load_run_profiles :
    (String → Result (GoMap RunProfile)) → String → FileRead → Result (GoMap RunProfile)
load_run_profiles decode path file =
    if str_eq path "" then ok default_run_profiles else load_read decode file

-- a < b on strings
abbrev pub str_less : String → String → Bool
str_less a b = elim (compare a b) [ Ordering.lt ↦ true | _ ↦ false ]

abbrev pub differ : Bool → Bool → Bool
differ true b = not b
differ false b = b

unfoldable pub less : RunProfileDescriptor → RunProfileDescriptor → Bool
less a b =
    if differ a.optional b.optional
    then not a.optional
    else if str_eq a.label b.label
    then str_less a.id b.id
    else str_less a.label b.label

abbrev pub descriptor : String × RunProfile → RunProfileDescriptor
descriptor (id, p) = record {
  id = id;
  label = p.label;
  command = p.command;
  scope = p.scope;
  optional = p.optional;
}

unfoldable pub run_profile_descriptors :
    ((RunProfileDescriptor → RunProfileDescriptor → Bool)
      → List RunProfileDescriptor
      → List RunProfileDescriptor)
    → GoMap RunProfile
    → List RunProfileDescriptor
run_profile_descriptors sort profiles = sort less (map descriptor profiles)

non_empty_lem :
    (read loaded : GoMap RunProfile)
    → non_empty read ≡ ok loaded
    → (read ≡ loaded) × (1 ≤ length loaded)
non_empty_lem [] loaded h = absurd (ground arith)
non_empty_lem (p ∷ rest) loaded h =
    let same : p ∷ rest ≡ loaded = ground arith in
    (same, subst (λ (m : GoMap RunProfile). 1 ≤ length m) same (omega arith))

parsed_lem :
    (r : Result (GoMap RunProfile)) (loaded : GoMap RunProfile)
    → wrap "parse run profile json: " r >>= (λ profiles. non_empty profiles) ≡ ok loaded
    → (r ≡ ok loaded) × (1 ≤ length loaded)
parsed_lem (err e) loaded h = absurd (ground arith)
parsed_lem (ok read) loaded h =
    let (same, some_profile) = non_empty_lem read loaded h in (ap ok same, some_profile)

load_read_lem :
    (path : String) (decode : String → Result (GoMap RunProfile)) (file : FileRead)
    (loaded : GoMap RunProfile)
    → load_read decode file ≡ ok loaded
    → (1 ≤ length loaded)
      × (((loaded ≡ default_run_profiles) × ((path ≡ "") ⊎ (file ≡ not_exist)))
          ⊎ ((bytes : String) × (file ≡ content bytes) × (decode bytes ≡ ok loaded)))
unfolding default_run_profiles
load_read_lem path decode (content bytes) loaded h =
    let (same, some_profile) = parsed_lem (decode bytes) loaded h in
    (some_profile, inr (bytes, refl, same))
load_read_lem path decode not_exist loaded h =
    let same : default_run_profiles ≡ loaded = ground arith in
    (subst (λ (m : GoMap RunProfile). 1 ≤ length m) same (omega arith), inl (sym same, inr refl))
load_read_lem path decode (failed e) loaded h = absurd (ground arith)

-- Profiles that are loaded are never empty: they are the defaults, where no path is given or no file is
-- there, or all that the file's content decodes to.
pub load_run_profiles_lem :
    (decode : String → Result (GoMap RunProfile)) (path : String) (file : FileRead)
    (loaded : GoMap RunProfile)
    → load_run_profiles decode path file ≡ ok loaded
    → (1 ≤ length loaded)
      × (((loaded ≡ default_run_profiles) × ((path ≡ "") ⊎ (file ≡ not_exist)))
          ⊎ ((bytes : String) × (file ≡ content bytes) × (decode bytes ≡ ok loaded)))
unfolding load_run_profiles default_run_profiles
load_run_profiles_lem decode path file loaded h = elim (Bool-cases (str_eq path "")) [
  | inl e ↦
      let same : default_run_profiles ≡ loaded = ground arith in
      (
        subst (λ (m : GoMap RunProfile). 1 ≤ length m) same (omega arith),
        inl (sym same, inl ((eq_iff path "").0 e)),
      )
  | inr n ↦ load_read_lem path decode file loaded (rw n at h)
]
