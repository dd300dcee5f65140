-- ===== src/Jxx/Class/Registered.antt =====
-- The exports of a class are those that were registered for it, in order.
use mathlib.Core.List.{append-nil, append_assoc}
use chakra_jxx.Base.{
  ℕ, ◌≡◌, refl, ap, ◌∙◌, sym, Bool, List, [], ◌∷◌, ◌++◌, Option, none, some, ◌==◌, if◌then◌else◌,
  length, take, arith, Bool-cases, subst, ==_iff, inl, inr,
}
use chakra_jxx.Jxx.Class.{Export}
use chakra_jxx.Jxx.Class.Exports.{
  JxxExports, JxxClassDefinition, Template, Statics, add_export_method, add_export_function,
  js_exports, read_entries, initial_value, kept, definition_of, no_statics,
}

-- What the export macros do.
pub data Registration : Type 0 where
  a_method : ℕ → Export → Registration
  a_function : ℕ → Export → Registration

unfoldable pub register_all : List Registration → Statics → Statics
unfolding add_export_method add_export_function
register_all [] s = s
register_all (a_method cls item ∷ rs) s = register_all rs (add_export_method cls item s)
register_all (a_function cls item ∷ rs) s = register_all rs (add_export_function cls item s)

-- What was registered for a class.
unfoldable pub methods_of : ℕ → List Registration → List Export
methods_of cls [] = []
methods_of cls (a_method c item ∷ rs) =
    let rest = methods_of cls rs in if c == cls then item ∷ rest else rest
methods_of cls (a_function c item ∷ rs) = methods_of cls rs

unfoldable pub functions_of : ℕ → List Registration → List Export
functions_of cls [] = []
functions_of cls (a_method c item ∷ rs) = functions_of cls rs
functions_of cls (a_function c item ∷ rs) =
    let rest = functions_of cls rs in if c == cls then item ∷ rest else rest

methods-register_all :
    (cls : ℕ) (rs : List Registration) (s : Statics)
    → (register_all rs s).exported_methods cls ≡ s.exported_methods cls ++ methods_of cls rs
unfolding register_all methods_of add_export_method add_export_function
methods-register_all cls [] s = sym (append-nil (s.exported_methods cls))
methods-register_all cls (a_method c item ∷ rs) s = ground (
  arith,
  methods-register_all cls rs (add_export_method c item s),
  append_assoc (s.exported_methods cls) (item ∷ []) (methods_of cls rs),
)
methods-register_all cls (a_function c item ∷ rs) s =
    methods-register_all cls rs (add_export_function c item s)

functions-register_all :
    (cls : ℕ) (rs : List Registration) (s : Statics)
    → (register_all rs s).exported_functions cls ≡ s.exported_functions cls ++ functions_of cls rs
unfolding register_all functions_of add_export_method add_export_function
functions-register_all cls [] s = sym (append-nil (s.exported_functions cls))
functions-register_all cls (a_method c item ∷ rs) s =
    functions-register_all cls rs (add_export_method c item s)
functions-register_all cls (a_function c item ∷ rs) s = ground (
  arith,
  functions-register_all cls rs (add_export_function c item s),
  append_assoc (s.exported_functions cls) (item ∷ []) (functions_of cls rs),
)

out-register_all :
    (cls : ℕ) (rs : List Registration) (s : Statics) → (register_all rs s).out cls ≡ s.out cls
unfolding register_all add_export_method add_export_function
out-register_all cls [] s = refl
out-register_all cls (a_method c item ∷ rs) s = out-register_all cls rs (add_export_method c item s)
out-register_all cls (a_function c item ∷ rs) s =
    out-register_all cls rs (add_export_function c item s)

some_injective : {A : Type 0} (a b : A) → some a ≡ some b → a ≡ b
some_injective a b h = ap (λ o. elim o [ none ↦ a | some x ↦ x ]) h

take-length : (v : List Export) → take (length v) v ≡ v
take-length [] = refl
take-length (x ∷ v) = ap (λ t. x ∷ t) (take-length v)

read_entries-js_exports : (v : List Export) → read_entries v (js_exports v) ≡ some v
unfolding read_entries js_exports
read_entries-js_exports [] = refl
read_entries-js_exports (x ∷ v) = ground (arith, take-length v)

read_back :
    (v u w : List Export) (x : JxxExports)
    → v ≡ w
    → x ≡ js_exports u
    → u ≡ w
    → read_entries v x ≡ some w
read_back v u w x same from registered = cc (read_entries-js_exports w)

module _ (templates : ℕ → Template) where
  -- Every definition that was made is what it would be made as now.
  abbrev IsCurrent : Statics → Type 0
  IsCurrent s =
      (cls : ℕ) (d : JxxClassDefinition) → s.out cls ≡ some d → d ≡ initial_value templates cls s

  kept-current :
      (o : Option JxxClassDefinition) (cls : ℕ) (s : Statics)
      → s.out cls ≡ o
      → IsCurrent s
      → (kept templates o cls s).0 ≡ initial_value templates cls s
  kept-current none cls s same current = refl
  kept-current (some d) cls s same current = current cls d same

  kept-IsCurrent :
      (o : Option JxxClassDefinition) (cls : ℕ) (s : Statics)
      → IsCurrent s
      → IsCurrent (kept templates o cls s).1
  kept-IsCurrent (some x) cls s current c d made = current c d made
  kept-IsCurrent none cls s current c d made = elim (Bool-cases (cls == c)) [
    | inl same ↦
        let given : some (initial_value templates cls s) ≡ some d =
          subst
            (λ (b : Bool). (if b then some (initial_value templates cls s) else s.out c) ≡ some d)
            same made in
        let same_class : cls ≡ c = (==_iff cls c).0 same in
        subst (λ (x : ℕ). d ≡ initial_value templates x s) same_class
          (sym (some_injective _ _ given))
    | inr other ↦ current c d (
        subst (λ (b : Bool). (if b then some (initial_value templates cls s) else s.out c) ≡ some d)
          other made)
  ]

  kept-exports :
      (o : Option JxxClassDefinition) (cls c : ℕ) (s : Statics)
      → ((kept templates o cls s).1.exported_methods c ≡ s.exported_methods c)
        × ((kept templates o cls s).1.exported_functions c ≡ s.exported_functions c)
  kept-exports none cls c s = (refl, refl)
  kept-exports (some d) cls c s = (refl, refl)

  -- The classes that are asked for.
  unfoldable pub ask_all : List ℕ → Statics → Statics
  unfolding definition_of
  ask_all [] s = s
  ask_all (cls ∷ rest) s = ask_all rest (definition_of templates cls s).1

  ask_all-IsCurrent : (cs : List ℕ) (s : Statics) → IsCurrent s → IsCurrent (ask_all cs s)
  unfolding ask_all definition_of
  ask_all-IsCurrent [] s current = current
  ask_all-IsCurrent (cls ∷ cs) s current =
      ask_all-IsCurrent cs (definition_of templates cls s).1
        (kept-IsCurrent (s.out cls) cls s current)

  ask_all-exports :
      (cs : List ℕ) (c : ℕ) (s : Statics)
      → ((ask_all cs s).exported_methods c ≡ s.exported_methods c)
        × ((ask_all cs s).exported_functions c ≡ s.exported_functions c)
  unfolding ask_all definition_of
  ask_all-exports [] c s = (refl, refl)
  ask_all-exports (cls ∷ cs) c s =
      let later = ask_all-exports cs c (definition_of templates cls s).1 in
      let now = kept-exports (s.out cls) cls c s in (later.0 ∙ now.0, later.1 ∙ now.1)

  -- Where exports are registered first, for any classes and in any order, and then definitions are
  -- asked for, of any classes and however often: the definition of a class names it and the parents
  -- of its template, and reading its methods and its functions gives what was registered for the
  -- class, in the order of registration.
  pub definition_of-register_all :
      (rs : List Registration) (cs : List ℕ) (cls : ℕ)
      → let s = ask_all cs (register_all rs no_statics) in
        let (d, s') = definition_of templates cls s in
        (d.class_id ≡ cls)
        × (d.unc_name ≡ (templates cls).js_uncname)
        × (d.parents ≡ (templates cls).parents_)
        × (read_entries (s'.exported_methods cls) d.methods ≡ some (methods_of cls rs))
        × (read_entries (s'.exported_functions cls) d.functions ≡ some (functions_of cls rs))
  unfolding definition_of
  definition_of-register_all rs cs cls =
      let s0 = register_all rs no_statics in
      let s = ask_all cs s0 in
      let fresh : IsCurrent s0 =
        λ c d made. absurd (ground (arith, out-register_all c rs no_statics, made)) in
      let is = kept-current (s.out cls) cls s refl (ask_all-IsCurrent cs s0 fresh) in
      let same = kept-exports (s.out cls) cls cls s in
      let before = ask_all-exports cs cls s0 in
      let registered : s.exported_methods cls ≡ methods_of cls rs =
        before.0 ∙ methods-register_all cls rs no_statics in
      let registered' : s.exported_functions cls ≡ functions_of cls rs =
        before.1 ∙ functions-register_all cls rs no_statics in
      (
        ap (λ (x : JxxClassDefinition). x.class_id) is,
        ap (λ (x : JxxClassDefinition). x.unc_name) is,
        ap (λ (x : JxxClassDefinition). x.parents) is,
        read_back _ _ (methods_of cls rs) _ (same.0 ∙ registered)
            (ap (λ (x : JxxClassDefinition). x.methods) is) registered,
        read_back _ _ (functions_of cls rs) _ (same.1 ∙ registered')
            (ap (λ (x : JxxClassDefinition). x.functions) is) registered',
      )
