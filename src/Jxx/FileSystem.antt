-- ===== src/Jxx/FileSystem.antt =====
-- What the module loader asks of `std::filesystem`: paths `P` and the state of the disk are
-- parameters of the model.
use Prim.Native.String.{String}
use chakra_jxx.Base.{◌≡◌, ◌⊎◌, Bool, List, ℕ, Eq}

pub record FileSystem (P : Type 0) : Type 0 where
  pub same_path : Eq P
  pub path : String → P
  pub c_str : P → String
  pub join : P → P → P
  pub current_path : P
  pub is_relative : P → Bool
  pub exists : P → Bool
  pub is_directory : P → Bool
  pub lexically_normal : P → P
  pub filename : P → String
  pub extension : P → String
  pub parent_path : P → P
  -- What an `ifstream` reads: nothing, if the file cannot be opened.
  pub contents : P → String
  -- The same, as bytes.
  pub bytes : P → List ℕ

-- `path::extension()` is empty, or begins with the dot.
pub record DottedExtensions {P : Type 0} (fs : FileSystem P) : Type 0 where
  pub dotted :
      (p : P) → (fs.extension p ≡ "") ⊎ ((rest : String) × (fs.extension p ≡ String.◌∷◌ "." rest))
