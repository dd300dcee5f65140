-- ===== src/Jxx/Main/Lookup.antt =====
-- The program's lookup against that of the library.
use chakra_jxx.Base.{String, true, [], ◌∷◌, ◌≡◌, if◌then◌else◌, arith}
use chakra_jxx.Jxx.FileSystem.{FileSystem}
use chakra_jxx.Jxx.SearchPath.{ModuleStorages, create, resolve_in}
use chakra_jxx.Jxx.SearchPath
use chakra_jxx.Jxx.Main

module _ {P : Type 0} (fs : FileSystem P) where
  -- The current directory, and the folder `node_modules` in it.
  abbrev pub here_and_modules : ModuleStorages P
  here_and_modules =
      record { token = "."; directory = fs.current_path }
      ∷ record {
        token = "node_modules";
        directory = fs.join fs.current_path (fs.path "node_modules");
      }
      ∷ []

  -- Where a path exists exactly if its normal form does: of a relative specialer, the program's
  -- `resolve` answers as `PathResolver::Resolve` does with the current directory and its
  -- `node_modules` as the search path, and finds the same file.
  pub resolve-here_and_modules :
      (specialer : String) (out : P)
      → ((p : P) → fs.exists (fs.lexically_normal p) ≡ fs.exists p)
      → fs.is_relative (fs.path specialer) ≡ true
      → let (found, path) = Main.resolve fs specialer out in
        let (found', path') = SearchPath.resolve fs here_and_modules specialer out in
        (found ≡ found') × ((if found then path else out) ≡ (if found' then path' else out))
  unfolding Main.resolve SearchPath.resolve resolve_in
  resolve-here_and_modules specialer out same relative = ground (
    arith,
    same (fs.join fs.current_path (fs.path specialer)),
    same (fs.join (fs.join fs.current_path (fs.path "node_modules")) (fs.path specialer)),
  )
