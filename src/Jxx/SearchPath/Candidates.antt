-- ===== src/Jxx/SearchPath/Candidates.antt =====
-- What the nested loops find: the first candidate that exists.
use chakra_jxx.Base.{
  ℕ, suc, ◌≡◌, refl, String, List, [], ◌∷◌, ◌++◌, Option, none, some, arith, if◌then◌else◌, ℤ, pos,
  negsuc,
}
use chakra_jxx.Jxx.FileSystem.{FileSystem}
use chakra_jxx.Jxx.SearchPath.{ModuleDirectory, ModuleStorages, first_in, resolve_ex}

module _ {P : Type 0} (fs : FileSystem P) where
  -- The files that the directory may hold, with the index of each specialer.
  abbrev in_directory : ModuleDirectory P → ℕ → List String → List (ℕ × P)
  in_directory d i [] = []
  in_directory d i (s ∷ ss) = (i, fs.join d.directory (fs.path s)) ∷ in_directory d (suc i) ss

  -- All candidates in the order of preference: by directory, and in it by specialer.
  abbrev pub candidates : ModuleStorages P → List String → List (ℕ × P)
  candidates [] specialers = []
  candidates (d ∷ ds) specialers = in_directory d 0 specialers ++ candidates ds specialers

  abbrev pub first_existing : List (ℕ × P) → Option (ℕ × P)
  first_existing [] = none
  first_existing ((i, p) ∷ cs) = if fs.exists p then some (i, p) else first_existing cs

  -- The answer for a candidate.
  abbrev pub answer : Option (ℕ × P) → P → ℤ × P
  answer none resolved = (negsuc 0, resolved)
  answer (some (i, p)) resolved = (pos i, fs.lexically_normal p)

  first_in-append :
      (d : ModuleDirectory P) (i : ℕ) (ss : List String) (cs : List (ℕ × P)) (resolved : P)
      → answer (first_existing (in_directory d i ss ++ cs)) resolved ≡ (elim (first_in fs d i ss) [
        | none ↦ answer (first_existing cs) resolved
        | some (j, p) ↦ (pos j, p)
      ])
  unfolding first_in
  first_in-append d i [] cs resolved = refl
  first_in-append d i (s ∷ ss) cs resolved =
      ground (arith, first_in-append d (suc i) ss cs resolved)

  -- `ResolveEx` answers with the first candidate that exists, in its normal form, where the
  -- directories count before the specialers; with -1, and `resolved` as it was, if none exists.
  pub resolve_ex-candidates :
      (ds : ModuleStorages P) (specialers : List String) (resolved : P)
      → resolve_ex fs ds specialers resolved
        ≡ answer (first_existing (candidates ds specialers)) resolved
  unfolding resolve_ex
  resolve_ex-candidates [] specialers resolved = refl
  resolve_ex-candidates (d ∷ ds) specialers resolved = ground (
    arith,
    first_in-append d 0 specialers (candidates ds specialers) resolved,
    resolve_ex-candidates ds specialers resolved,
  )
