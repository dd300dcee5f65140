-- ===== src/Jxx/Toy.antt =====
-- A small disk for the tests, with one script and one package, and a runtime that searches it.
use Prim.Native.String.{◌++◌ as ◌<>◌}
use chakra_jxx.Base.{refl, String, [], ◌∷◌, ◌||◌, if◌then◌else◌, string_eq, inr, Bool, false}
use chakra_jxx.Js.Toy.{Engine, engine}
use chakra_jxx.Jxx.FileSystem.{FileSystem, DottedExtensions}
use chakra_jxx.Jxx.Loader.{Runtime}

abbrev is : String → String → Bool
is = string_eq.beq

abbrev pub disk : FileSystem String
disk = record {
  same_path = string_eq;
  path = λ s. s;
  c_str = λ p. p;
  join = λ d p. d <> "/" <> p;
  current_path = "";
  is_relative = λ p. is p "lib";
  exists = λ p. (is p "/lib/a.js" || is p "/lib/box/package.json") || is p "/lib/box/main.js";
  is_directory = λ p. false;
  lexically_normal = λ p. p;
  filename = λ p. if is p "/lib/box/package.json" then "package.json" else "a.js";
  extension = λ p. ".js";
  parent_path = λ p. "/lib/box";
  contents = λ p. "exports = 1";
  bytes = λ p. 101 ∷ 61 ∷ 49 ∷ [];
}

pub disk_dots : DottedExtensions disk
disk_dots = record { dotted = λ p. inr ("js", refl) }

abbrev pub runtime : Runtime Engine String
runtime = record {
  engine = engine;
  self = 7;
  handle = 50;
  search_path = record { token = "lib"; directory = "/lib" } ∷ [];
  running_modules = ("/lib/old.js", 31) ∷ [];
  json_parser = 19;
  module_global = 18;
}
