-- ===== src/Jxx/Loader/Kinds.antt =====
-- Which of the loaders a file goes to.
use Prim.Native.Char.{code}
use Prim.Native.Nat.{ℕ}
use text.Mathlib.TextEquality.{eq_iff}
use chakra_jxx.Base.{
  String, ◌≡◌, refl, ap, sym, ◌∙◌, Bool, false, ◌||◌, arith, inl, inr, string_eq, Bool-cases,
  returned,
}
use chakra_jxx.Js.Jsrt.{Jsrt, JsValueRef}
use chakra_jxx.Jxx.FileSystem.{FileSystem, DottedExtensions}
use chakra_jxx.Jxx.Loader.{Runtime, load_file_as_module, load_located, load_module, locate, found}
use chakra_jxx.Jxx.Loader.Running.{load_module_at}

abbrev first_code : String → ℕ
first_code String.[] = 0
first_code (String.◌∷◌ c s) = code c

starts_otherwise :
    (s t : String) → first_code s ≡ 46 → (first_code t ≡ 46 → ⊥) → string_eq.beq s t ≡ false
starts_otherwise s t dot other = elim (Bool-cases (string_eq.beq s t)) [
  | inl same ↦ absurd (other (ap first_code (sym ((eq_iff s t).0 same)) ∙ dot))
  | inr differ ↦ differ
]

-- The extensions that `LoadModule` tests for, none of which has its dot.
abbrev is_tested : String → Bool
is_tested ext =
    ((string_eq.beq ext "js" || string_eq.beq ext "cjs") || string_eq.beq ext "json")
    || string_eq.beq ext "jsxm"

module _ {P : Type 0} (fs : FileSystem P) (dots : DottedExtensions fs) where
  extension_untested : (p : P) → is_tested (fs.extension p) ≡ false
  extension_untested p = elim (dots.dotted p) [
    | inl none' ↦ rw none' refl
    | inr (rest, e) ↦ rw (
      e,
      starts_otherwise (String.◌∷◌ "." rest) "js" refl (λ h. omega arith),
      starts_otherwise (String.◌∷◌ "." rest) "cjs" refl (λ h. omega arith),
      starts_otherwise (String.◌∷◌ "." rest) "json" refl (λ h. omega arith),
      starts_otherwise (String.◌∷◌ "." rest) "jsxm" refl (λ h. omega arith),
    )
  ]

module _ {E P : Type 0} (js : Jsrt E) (fs : FileSystem P) (dots : DottedExtensions fs) where
  load_located_file :
      (p : P) (exports : JsValueRef) (s : Runtime E P)
      → load_located js fs p exports s ≡ load_file_as_module js fs p exports s
  unfolding load_located load_file_as_module
  load_located_file p exports s = ground (arith, extension_untested fs dots p)

  -- Where an extension begins with its dot, which the tests do not have, a load goes to the loader
  -- of plain files whatever file it settles on: no source, JSON or native module is ever loaded.
  pub load_module_file :
      (specialer : String) (exports : JsValueRef) (s : Runtime E P) (p : P)
      → (locate js fs specialer s).0 ≡ returned (found p)
      → load_module js fs specialer exports s
        ≡ load_file_as_module js fs p exports (locate js fs specialer s).1
  load_module_file specialer exports s p at =
      load_module_at js fs specialer exports s p at ∙ load_located_file p exports _
