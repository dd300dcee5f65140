-- ===== src/Jxx/Class.antt =====
-- jxx.api.h and jxx.class.h: the classes of C++ objects, and how their exports get to scripts. A
-- class is the tree of its parents, as the templates list them; `IJxxObject` is one without
-- parents.
pub mod Query
pub mod Exports
pub mod Mixin
pub mod Registered
use chakra_jxx.Base.{
  ℕ, suc, String, Bool, true, false, not, List, [], ◌∷◌, ◌++◌, Option, none, some, ◌==◌,
  if◌then◌else◌, bit_and, ℤ, pos, negsuc, returned, Exec, ◌>>=◌, ◌>>◌, pure,
}
use chakra_jxx.Js.Jsrt.{Jsrt, JsValueRef, nullptr}
use chakra_jxx.Js.Mask
use chakra_jxx.Js.Value.{base_value, error_type_mismatch}
use chakra_jxx.Js.Primitive.{just_string}
use chakra_jxx.Js.Object
use chakra_jxx.Jxx.Evaluate.{object, call}

-- `JxxExport`. The callee is the address of the stub.
pub record Export : Type 0 where
  pub name : String
  pub callee : ℕ

mutual
  -- `JxxClassDefinition`: the identifier, the methods, the functions and the parents.
  pub data JxxClass : Type 0 where
    jxx_class : ℕ → List Export → List Export → Parents → JxxClass

  -- `JxxParents`.
  pub data Parents : Type 0 where
    no_parents : Parents
    parent : JxxClass → Parents → Parents

unfoldable mutual
  -- `QueryClass`. The pointer that it answers with is given as the way from the object to the part
  -- of it that has the class: the number of a parent, and then of a parent of that one, and so on.
  pub query_class : JxxClass → ℕ → Option (List ℕ)
  query_class (jxx_class id methods functions ps) clsid =
      if id == clsid then some [] else query_parents ps 0 clsid

  -- The loop over `ptrs_`, from parent `i` on.
  pub query_parents : Parents → ℕ → ℕ → Option (List ℕ)
  query_parents no_parents i clsid = none
  query_parents (parent c ps) i clsid = elim (query_class c clsid) [
    | none ↦ query_parents ps (suc i) clsid
    | some path ↦ some (i ∷ path)
  ]

-- `JxxMixinOptions`.
abbrev pub mixin_method : ℕ
mixin_method = 1

abbrev pub mixin_function : ℕ
mixin_function = 2

abbrev is_negative : ℤ → Bool
is_negative (pos n) = false
is_negative (negsuc n) = true

module _ {E : Type 0} (js : Jsrt E) where
  -- The constructor of `js::Function`.
  abbrev pub function : JsValueRef → Exec E JsValueRef
  function v e = (base_value js e (Mask.function js.types) true v, e)

  -- `Function::JsrtNative`.
  abbrev pub jsrt_native : ℕ → JsValueRef → ℕ → E → JsValueRef × E
  jsrt_native callee name data' e =
      let (err, out, e') = js.create_named_function e name callee data' in (out, e')

  -- One of the loops over exports: false where it returns `JsErrorOutOfMemory`. The answer of
  -- `SetProperty` is not looked at.
  unfoldable pub mixin_exports : JsValueRef → ℕ → List Export → Exec E Bool
  unfolding just_string Object.property_id Object.set_property
  mixin_exports target clsid [] = pure true
  mixin_exports target clsid (item ∷ items) = do
    name ← just_string js item.name
    if name == nullptr then pure false else do
      native ← call js (jsrt_native item.callee name clsid)
      fn ← function native
      if fn == nullptr then pure false else do
        pid ← call js (λ e. Object.property_id js e item.name)
        _ ← call js (λ e. Object.set_property js e target pid fn)
        mixin_exports target clsid items

  unfoldable mutual
    unfolding object mixin_exports

    -- `JxxMixinObject`.
    pub mixin_object : JsValueRef → JxxClass → ℕ → Exec E ℤ
    mixin_object ref (jxx_class clsid methods functions ps) options = do
      target ← object js ref
      if target == nullptr then pure error_type_mismatch else do
        err ← mixin_parents ref ps options
        if is_negative err then pure err else do
          defined ←
              (if bit_and options mixin_method == 0
                then pure true
                else mixin_exports target clsid methods)
          if not defined then pure (pos js.error_out_of_memory) else do
            defined' ←
                (if bit_and options mixin_function == 0
                  then pure true
                  else mixin_exports target clsid functions)
            if not defined' then pure (pos js.error_out_of_memory) else pure (pos 0)

    -- The loop over the parents: a negative code ends it, and any other counts as none.
    pub mixin_parents : JsValueRef → Parents → ℕ → Exec E ℤ
    mixin_parents ref no_parents options = pure (pos 0)
    mixin_parents ref (parent c ps) options = do
      err ← mixin_object ref c options
      if is_negative err then pure err else mixin_parents ref ps options
