-- ===== src/Js/Object.antt =====
-- js.object.h: `PropertyId`, and the accessor of objects.
pub mod Properties
use chakra_jxx.Base.{ℕ, String, Bool, true, not, ◌==◌, if◌then◌else◌, Exec, jserr_to_exception}
use chakra_jxx.Js.Jsrt.{Jsrt, JsValueRef, nullptr}
use chakra_jxx.Js.Value.{is, base_value}

pub record Property : Type 0 where
  pub this_ : JsValueRef
  pub prop_id_ : JsValueRef

module _ {E : Type 0} (js : Jsrt E) where
  -- `PropertyId`: the error code is ignored.
  unfoldable pub property_id : E → String → JsValueRef × E
  property_id e name = let (err, out, e') = js.create_property_id e name in (out, e')

  -- `SetProperty(propid_t, …)`.
  unfoldable pub set_property : E → JsValueRef → JsValueRef → JsValueRef → Bool × E
  set_property e object pid v = let (err, e') = js.set_property e object pid v in (err == 0, e')

  -- The conversion of a `bool` to a number, as in `b == JsNoError`.
  abbrev pub to_number : Bool → ℕ
  to_number b = if b then 1 else 0

  -- `SetProperty` by name: it compares the answer of the first with `JsNoError`.
  unfoldable pub set_property_by_name : E → JsValueRef → String → JsValueRef → Bool × E
  unfolding property_id set_property
  set_property_by_name e object name v =
      let (pid, e') = property_id e name in
      let (done, e'') = set_property e' object pid v in (to_number done == 0, e'')

  -- `GetProperty(propid_t)`.
  unfoldable pub get_property : E → JsValueRef → JsValueRef → JsValueRef × E
  unfolding is
  get_property e object pid =
      let (err, out, e') = js.get_property e object pid in
      (if is js e' out js.types.js_undefined then nullptr else out, e')

  -- `GetProperty` by name.
  unfoldable pub get_property_by_name : E → JsValueRef → String → JsValueRef × E
  unfolding property_id get_property
  get_property_by_name e object name =
      let (pid, e') = property_id e name in get_property e' object pid

  -- `GetPrototype` and `SetPrototype`.
  unfoldable pub get_prototype : E → JsValueRef → JsValueRef
  get_prototype e object = (js.get_prototype e object).1

  unfoldable pub set_prototype : E → JsValueRef → JsValueRef → Bool × E
  set_prototype e object proto = let (err, e') = js.set_prototype e object proto in (err == 0, e')

  -- `Create`.
  unfoldable pub create : E → JsValueRef → JsValueRef × E
  create e proto =
      let (err, out, e') = js.create_object e in
      if not (err == 0)
      then (nullptr, e')
      else if proto == nullptr
      then (out, e')
      else let (err', e'') = js.set_prototype e' out proto in
        (if not (err' == 0) then nullptr else out, e'')

  -- `PropertyId` of a symbol.
  unfoldable pub property_id_of_symbol : E → JsValueRef → JsValueRef × E
  property_id_of_symbol e sym =
      let (err, out, e') = js.get_property_id_from_symbol e sym in (out, e')

  -- `GetContext`.
  unfoldable pub get_context : E → JsValueRef → JsValueRef
  get_context e object = (js.get_context_of_object e object).1

  -- The proxy of a property, and its conversion to a value.
  abbrev pub property : E → JsValueRef → String → Property × E
  unfolding property_id
  property e object name =
      let (pid, e') = property_id e name in (record { this_ = object; prop_id_ = pid }, e')

  unfoldable pub read_property : E → Property → JsValueRef × E
  unfolding is
  read_property e p =
      let (err, out, e') = js.get_property e p.this_ p.prop_id_ in
      (if is js e' out js.types.js_undefined then nullptr else out, e')

  -- Its conversion to a `base_value_` of the mask, and what is assigned to it.
  unfoldable pub read_property_as : ℕ → Property → Exec E JsValueRef
  unfolding read_property base_value
  read_property_as required p e =
      let (out, e') = read_property e p in (base_value js e' required true out, e')

  unfoldable pub write_property : Property → JsValueRef → Exec E (Unit {0})
  write_property p val e =
      let (err, e') = js.set_property_strictly e p.this_ p.prop_id_ val in jserr_to_exception err e'

  -- The proxies that are made of an identifier, and of the prototype.
  abbrev pub property_of : JsValueRef → JsValueRef → Property
  property_of object prop_id = record { this_ = object; prop_id_ = prop_id }

  abbrev pub prototype_property : E → JsValueRef → Property × E
  unfolding property
  prototype_property e object = property e object "__proto__"

  -- `WhenCollect`.
  unfoldable pub when_collect : E → JsValueRef → ℕ → ℕ → Bool × E
  when_collect e object data' pcb =
      let (err, e') = js.set_object_before_collect_callback e object data' pcb in (err == 0, e')
