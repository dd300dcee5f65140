-- ===== src/Jxx/SearchPath.antt =====
-- jxx.module.h: `ModuleDirectory` and `PathResolver`, the directories that modules are looked up
-- in.
pub mod Tokens
pub mod Candidates
use chakra_jxx.Base.{
  ℕ, suc, String, Bool, true, false, not, List, [], ◌∷◌, ◌++◌, Option, none, some, if◌then◌else◌, ℤ,
  pos, negsuc,
}
use chakra_jxx.Base.{string_eq}
use chakra_jxx.Jxx.FileSystem.{FileSystem}

-- `ModuleDirectory`, the one class of `IModuleStroage`.
pub record ModuleDirectory (P : Type 0) : Type 0 where
  pub token : String
  pub directory : P

-- `ModuleStorages`, oldest first.
abbrev pub ModuleStorages : Type 0 → Type 0
ModuleStorages P = List (ModuleDirectory P)

module _ {P : Type 0} (fs : FileSystem P) where
  -- `ModuleDirectory::resolve`; `none` is false, with `resolved` left alone.
  unfoldable pub resolve_in : ModuleDirectory P → String → Option P
  resolve_in d specialer =
      let full = fs.join d.directory (fs.path specialer) in
      if not (fs.exists full) then none else some (fs.lexically_normal full)

  -- `ModuleDirectory::create`.
  unfoldable pub create : String → ModuleDirectory P
  create specialer =
      let path = fs.path specialer in
      record {
        token = specialer;
        directory = if fs.is_relative path then fs.join fs.current_path path else path;
      }

  unfoldable pub exists : ModuleStorages P → String → Bool
  exists [] specialer = false
  exists (d ∷ ds) specialer = if string_eq.beq d.token specialer then true else exists ds specialer

  -- `AddPath`.
  unfoldable pub add_path : ModuleStorages P → String → Bool × ModuleStorages P
  unfolding exists create
  add_path ds specialer =
      if exists ds specialer then (false, ds) else (true, ds ++ create specialer ∷ [])

  -- `RemovePath`: the first storage with the token goes.
  unfoldable pub remove_path : ModuleStorages P → String → Bool × ModuleStorages P
  remove_path [] specialer = (false, [])
  remove_path (d ∷ ds) specialer =
      let (done, ds') = remove_path ds specialer in
      if string_eq.beq d.token specialer then (true, ds) else (done, d ∷ ds')

  -- `Resolve`, with what `resolved` holds at the call.
  unfoldable pub resolve : ModuleStorages P → String → P → Bool × P
  unfolding resolve_in
  resolve [] specialer resolved = (false, resolved)
  resolve (d ∷ ds) specialer resolved = elim (resolve_in d specialer) [
    | none ↦ resolve ds specialer resolved
    | some p ↦ (true, p)
  ]

  -- The inner loop of `ResolveEx`, from index `i` on.
  unfoldable pub first_in : ModuleDirectory P → ℕ → List String → Option (ℕ × P)
  unfolding resolve_in
  first_in d i [] = none
  first_in d i (s ∷ ss) = elim (resolve_in d s) [
    | none ↦ first_in d (suc i) ss
    | some p ↦ some (i, p)
  ]

  -- `ResolveEx`: the index of the specialer found, or -1.
  unfoldable pub resolve_ex : ModuleStorages P → List String → P → ℤ × P
  resolve_ex [] specialers resolved = (negsuc 0, resolved)
  resolve_ex (d ∷ ds) specialers resolved = elim (first_in d 0 specialers) [
    | none ↦ resolve_ex ds specialers resolved
    | some (i, p) ↦ (pos i, p)
  ]
