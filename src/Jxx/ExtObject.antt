-- ===== src/Jxx/ExtObject.antt =====
-- jxx.object.h: JavaScript objects that stand for a C++ object, `ExtObject`; and jxx.class.h: the
-- stub through which the engine calls a method of that C++ object.
pub mod Ownership
pub mod Methods
use chakra_jxx.Base.{
  ℕ, ◌-◌, Bool, true, not, List, Option, none, some, ◌==◌, if◌then◌else◌, bit_and, drop, get_elem?,
  Outcome, returned, thrown, pos,
}
use chakra_jxx.Js.Jsrt.{Jsrt, JsValueRef, nullptr}
use chakra_jxx.Js.Mask
use chakra_jxx.Js.Value.{base_value, error_call_mode_is_denied}
use chakra_jxx.Js.Param.{CallInfo}
use chakra_jxx.Js.Function.{
  ParamKind, Argument, deny_new, deny_normal, convert_all, throw_js_exception,
}
use chakra_jxx.Jxx.Class.{JxxClass, query_class}
use chakra_jxx.Jxx.ObjectPtr.{Pointers, add_ref, release}

-- The engine, and the C++ objects with their counts.
pub record World (E : Type 0) : Type 0 where
  pub engine : E
  pub objects : Pointers

module _ {E : Type 0} (js : Jsrt E) where
  -- `if (p) p->AddRef()` and `if (p) p->Release()`.
  abbrev pub hold : ℕ → World E → World E
  hold p w = record w { objects = if p == 0 then w.objects else add_ref w.objects p }

  abbrev pub drop_ref : ℕ → World E → World E
  drop_ref p w = record w { objects = if p == 0 then w.objects else release w.objects p }

  -- `JxxRelease`, which the engine calls for an object that it collects.
  unfoldable pub jxx_release : ℕ → World E → World E
  unfolding release
  jxx_release p w = drop_ref p w

  -- `AssignJxxObject`.
  unfoldable pub assign_jxx_object : JsValueRef → ℕ → World E → ℕ × World E
  unfolding add_ref release
  assign_jxx_object self xobj w =
      let (err, old) = js.get_external_data w.engine self in
      if not (err == 0)
      then (err, w)
      else let (err', e') = js.set_external_data w.engine self xobj in
        if not (err' == 0)
        then (err', record w { engine = e' })
        else (0, drop_ref old (hold xobj (record w { engine = e' })))

  -- `GetJxxObject`: 0 is the null pointer.
  unfoldable pub get_jxx_object : E → JsValueRef → ℕ
  get_jxx_object e self =
      let (err, out) = js.get_external_data e self in if not (err == 0) then 0 else out

  -- `Create`. `none` is a call of a member of a null pointer.
  unfoldable pub create : ℕ → JsValueRef → World E → Option (JsValueRef × World E)
  unfolding add_ref
  create xobj proto w =
      let (err, out, e') = js.create_external_object w.engine xobj proto in
      if not (err == 0)
      then some (nullptr, record w { engine = e' })
      else if xobj == 0
      then none
      else some (out, hold xobj (record w { engine = e' }))

  -- `As<JxxClass_>::New`, where `x` is the new object. The pointer that holds it lets go at each
  -- return, but for the last, before which it is detached.
  unfoldable pub as_new : ℕ → JsValueRef → World E → JsValueRef × World E
  unfolding add_ref release
  as_new x proto w =
      if x == 0
      then (nullptr, w)
      else let held = hold x w in
        let (err, out, e') = js.create_external_object held.engine x proto in
        if not (err == 0)
        then (nullptr, drop_ref x (record held { engine = e' }))
        else (out, record held { engine = e' })

  -- A method, called on the part of an object that has its class.
  abbrev pub NativeMethod : Type 0
  NativeMethod = ℕ → List ℕ → CallInfo → List Argument → World E → Outcome JsValueRef × World E

  -- The class that an object was made of.
  module _ (class_of : ℕ → JxxClass) where
    -- The member `TryGetAs`: the object, and the way to the part of it that has the class. The
    -- pointer that it answers with holds the object.
    unfoldable pub try_get_as : ℕ → JsValueRef → World E → Option (ℕ × List ℕ) × World E
    unfolding add_ref get_jxx_object query_class
    try_get_as clsid self w =
        let out = get_jxx_object w.engine self in
        if out == 0 then (none, w) else elim (query_class (class_of out) clsid) [
          | none ↦ (none, w)
          | some path ↦ (some (out, path), hold out w)
        ]

    -- The static `TryGetAs`. `none` is a call of a member of a null pointer.
    unfoldable pub static_try_get_as :
        ℕ → JsValueRef → World E → Option (Option (ℕ × List ℕ) × World E)
    unfolding add_ref query_class
    static_try_get_as clsid object w =
        let (err, out) = js.get_external_data w.engine object in
        if not (err == 0)
        then some (none, w)
        else if out == 0
        then none
        else elim (query_class (class_of out) clsid) [
          | none ↦ some (none, w)
          | some path ↦ some (some (out, path), hold out w)
        ]

    -- `____call_magic_method`.
    unfoldable pub call_magic_method :
        List ParamKind
        → NativeMethod
        → ℕ
        → List ℕ
        → CallInfo
        → World E
        → Option (Outcome JsValueRef × World E)
    unfolding convert_all
    call_magic_method kinds method this_ path info w = elim (convert_all js w.engine info 0 kinds) [
      | none ↦ none
      | some (thrown code) ↦ some (thrown code, w)
      | some (returned as') ↦ some (method this_ path info as' w)
    ]

    abbrev let_go :
        ℕ → Option (Outcome JsValueRef × World E) → Option (Outcome JsValueRef × World E)
    let_go p none = none
    let_go p (some (o, w)) = some (o, drop_ref p w)

    abbrev invalid_argument : World E → Option (Outcome JsValueRef × World E)
    invalid_argument w = some (thrown (pos js.error_invalid_argument), w)

    -- The stub from the C++ object on, which `JxxObject` holds until the stub returns or throws.
    unfoldable pub call_on_object :
        List ParamKind
        → NativeMethod
        → ℕ
        → CallInfo
        → World E
        → Option (Outcome JsValueRef × World E)
    unfolding call_magic_method query_class add_ref release
    call_on_object kinds method object info w =
        let_go object (elim (query_class (class_of object) info.cookie) [
          | none ↦ invalid_argument (hold object w)
          | some path ↦ call_magic_method kinds method object path info (hold object w)
        ])

    abbrev unless_thrown :
        Outcome JsValueRef
        → World E
        → (JsValueRef → Option (Outcome JsValueRef × World E))
        → Option (Outcome JsValueRef × World E)
    unless_thrown (thrown code) w f = some (thrown code, w)
    unless_thrown (returned v) w f = f v

    -- `_STUB_OF_MAGIC_METHOD_OF_<method, deny>`. `none` is a read outside the arguments.
    unfoldable pub stub_of_magic_method_of :
        List ParamKind
        → NativeMethod
        → ℕ
        → JsValueRef
        → Bool
        → List JsValueRef
        → ℕ
        → ℕ
        → World E
        → Option (JsValueRef × World E)
    unfolding call_on_object throw_js_exception get_jxx_object
    stub_of_magic_method_of kinds method deny callee is_new arguments arguments_count clsid w =
        throw_js_exception (
          if arguments_count == 0
          then invalid_argument w
          else if not (bit_and (if is_new then deny_new else deny_normal) deny == 0)
          then some (thrown error_call_mode_is_denied, w)
          else elim (get_elem? arguments 0) [
            | none ↦ none
            | some this ↦
                unless_thrown (base_value js w.engine (Mask.object js.types) true this) w λ self.
                  if self == nullptr
                  then invalid_argument w
                  else let object = get_jxx_object w.engine self in
                    if object == 0
                    then invalid_argument w
                    else call_on_object kinds method object
                        (record {
                          callee = callee;
                          is_new = is_new;
                          self = this;
                          args = drop 1 arguments;
                          argc = arguments_count - 1;
                          cookie = clsid;
                          return_value = nullptr;
                        })
                        w
          ])
