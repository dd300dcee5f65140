-- ===== src/Jxx/Class/Exports.antt =====
-- jxx.class.h and jxx.api.h: the lists that the export macros fill before `main`, and the
-- definition of a class, which is made when the class is first asked for and kept. The static
-- variables of a class are those of its number. `none` is a read of a vector's storage after the
-- vector has grown, when the storage may be gone.
use chakra_jxx.Base.{
  ℕ, String, List, [], ◌∷◌, ◌++◌, Option, none, some, ◌==◌, if◌then◌else◌, length, take,
}
use chakra_jxx.Jxx.Class.{Export}

-- `JxxExports`: the entries are null, or the storage that a vector had at a number of elements.
pub record JxxExports : Type 0 where
  pub count : ℕ
  pub entries : Option ℕ

pub record JxxClassDefinition : Type 0 where
  pub class_id : ℕ
  pub unc_name : String
  pub methods : JxxExports
  pub functions : JxxExports
  pub parents : List ℕ

-- What a class template says: `__JS_UNCNAME__` and `__PARENTS__`, without the null at its end.
pub record Template : Type 0 where
  pub js_uncname : String
  pub parents_ : List ℕ

-- `__EXPORTED_METHODS__` and `__EXPORTED_FUNCTIONS__` of each class, and the static variable of
-- each `JXX_DEFINITION_OF_`.
pub record Statics : Type 0 where
  pub exported_methods : ℕ → List Export
  pub exported_functions : ℕ → List Export
  pub out : ℕ → Option JxxClassDefinition

abbrev pub put : {A : Type 0} → ℕ → A → (ℕ → A) → ℕ → A
put k v f c = if k == c then v else f c

-- `ADD_EXPORT_METHOD`.
unfoldable pub add_export_method : ℕ → Export → Statics → Statics
add_export_method cls item s = record s {
  exported_methods = put cls (s.exported_methods cls ++ item ∷ []) s.exported_methods;
}

-- `ADD_EXPORT_FUNCTION`.
unfoldable pub add_export_function : ℕ → Export → Statics → Statics
add_export_function cls item s = record s {
  exported_functions = put cls (s.exported_functions cls ++ item ∷ []) s.exported_functions;
}

-- `__JS_METHODS__` and `__JS_FUNCTIONS__`, of the vector.
unfoldable pub js_exports : List Export → JxxExports
js_exports v = record {
  count = length v;
  entries = if length v == 0 then none else some (length v);
}

-- The loops over `Entries[i]` for `i < Count`.
unfoldable pub read_entries : List Export → JxxExports → Option (List Export)
read_entries v x = if x.count == 0 then some [] else elim x.entries [
  | none ↦ none
  | some n ↦ if length v == n then some (take x.count v) else none
]

module _ (templates : ℕ → Template) where
  abbrev pub initial_value : ℕ → Statics → JxxClassDefinition
  initial_value cls s = record {
    class_id = cls;
    unc_name = (templates cls).js_uncname;
    methods = js_exports (s.exported_methods cls);
    functions = js_exports (s.exported_functions cls);
    parents = (templates cls).parents_;
  }

  -- A static variable, which keeps what it was made as.
  abbrev pub kept : Option JxxClassDefinition → ℕ → Statics → JxxClassDefinition × Statics
  kept (some out) cls s = (out, s)
  kept none cls s =
      let out = initial_value cls s in (out, record s { out = put cls (some out) s.out })

  -- `JXX_DEFINITION_OF_`, which `JxxQueryClass` calls.
  unfoldable pub definition_of : ℕ → Statics → JxxClassDefinition × Statics
  definition_of cls s = kept (s.out cls) cls s

-- Before `main`, no class has exports or a definition.
abbrev pub no_statics : Statics
no_statics = record {
  exported_methods = λ cls. [];
  exported_functions = λ cls. [];
  out = λ cls. none;
}
