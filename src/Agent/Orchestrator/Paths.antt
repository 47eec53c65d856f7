-- ===== src/Agent/Orchestrator/Paths.antt =====
-- The paths that a job keeps of its patch (`patchFilePaths` of orchestrator.go).
use mathlib.Core.Path.{subst}
use vibe_deck.Prelude.{
  Bool, true, false, ◌&&◌, ◌||◌, not, List, [], ◌∷◌, String, str_eq, ◌≡◌, refl, ◌∙◌, arith, eq_iff,
  eq_refl, inl, inr, Bool-cases,
}
use vibe_deck.Protocol.Models.{FilePatch}
use vibe_deck.Agent.Orchestrator.Steps.{has_path, paths_loop, patch_file_paths}

-- Whether some file has that path.
abbrev pub named : String → List FilePatch → Bool
named path [] = false
named path (f ∷ rest) = str_eq f.path path || named path rest

abbrev pub IsDistinct : List String → Type 0
IsDistinct [] = Unit
IsDistinct (p ∷ rest) = (has_path p rest ≡ false) × IsDistinct rest

-- A path that is skipped is empty or was seen before.
skipped :
    (path other : String) (seen : List String)
    → (str_eq other "" || has_path other seen) ≡ true
    → (not (has_path path seen) && (not (str_eq path "") && str_eq other path)) ≡ false
skipped path other seen h = elim (Bool-cases (str_eq other path)) [
  | inl e ↦
      subst
        (λ (p : String). (not (has_path p seen) && (not (str_eq p "") && str_eq other p)) ≡ false)
        ((eq_iff other path).0 e) (ground (arith, eq_refl other))
  | inr e ↦ ground arith
]

kept :
    (path other : String) (seen : List String)
    → (str_eq other "" || has_path other seen) ≡ false
    → str_eq other path ≡ true
    → (has_path path seen ≡ false) × (str_eq path "" ≡ false)
kept path other seen h e =
    subst (λ (p : String). (has_path p seen ≡ false) × (str_eq p "" ≡ false))
      ((eq_iff other path).0 e) (ground arith, ground arith)

paths_loop-skip :
    (f : FilePatch) (rest : List FilePatch) (seen : List String)
    → (str_eq f.path "" || has_path f.path seen) ≡ true
    → paths_loop seen (f ∷ rest) ≡ paths_loop seen rest
paths_loop-skip f rest seen e = rw (e, paths_loop) refl

paths_loop-take :
    (f : FilePatch) (rest : List FilePatch) (seen : List String)
    → (str_eq f.path "" || has_path f.path seen) ≡ false
    → paths_loop seen (f ∷ rest) ≡ f.path ∷ paths_loop (f.path ∷ seen) rest
paths_loop-take f rest seen e = rw (e, paths_loop) refl

pub has_path-paths_loop :
    (path : String) (seen : List String) (files : List FilePatch)
    → has_path path (paths_loop seen files)
      ≡ (not (has_path path seen) && (not (str_eq path "") && named path files))
has_path-paths_loop path seen [] = ground arith
has_path-paths_loop path seen (f ∷ rest) =
    elim (Bool-cases (str_eq f.path "" || has_path f.path seen)) [
      | inl e ↦
          rw (paths_loop-skip f rest seen e)
            (ground (arith, has_path-paths_loop path seen rest, skipped path f.path seen e))
      | inr e ↦ rw (paths_loop-take f rest seen e) (elim (Bool-cases (str_eq f.path path)) [
        | inl same ↦ ground (arith, kept path f.path seen e same)
        | inr other ↦ ground (arith, has_path-paths_loop path (f.path ∷ seen) rest)
      ])
    ]

paths_loop-IsDistinct :
    (seen : List String) (files : List FilePatch) → IsDistinct (paths_loop seen files)
paths_loop-IsDistinct seen [] = tt
paths_loop-IsDistinct seen (f ∷ rest) =
    elim (Bool-cases (str_eq f.path "" || has_path f.path seen)) [
      | inl e ↦ rw (paths_loop-skip f rest seen e) (paths_loop-IsDistinct seen rest)
      | inr e ↦ rw (paths_loop-take f rest seen e) (
        has_path-paths_loop f.path (f.path ∷ seen) rest ∙ rw (eq_refl f.path) refl,
        paths_loop-IsDistinct (f.path ∷ seen) rest,
      )
    ]

-- Each path of the files but the empty one, and nothing else.
pub has_path-patch_file_paths :
    (path : String) (files : List FilePatch)
    → has_path path (patch_file_paths files) ≡ (not (str_eq path "") && named path files)
unfolding patch_file_paths
has_path-patch_file_paths path files = has_path-paths_loop path [] files

pub patch_file_paths-IsDistinct : (files : List FilePatch) → IsDistinct (patch_file_paths files)
unfolding patch_file_paths
patch_file_paths-IsDistinct files = paths_loop-IsDistinct [] files
