-- ===== src/Js/Value.antt =====
-- js.value.h: `value_ref_t`, the checked parameter `_as_the<>` and the checked value
-- `base_value_<>`.
pub mod Types
pub mod Checks
use chakra_jxx.Base.{
  ℕ, Bool, true, false, not, bit_and, bit_or, ◌==◌, if◌then◌else◌, ℤ, pos, negsuc, Outcome,
  returned, thrown, cxx_exception_if, Exec, ◌>>=◌, ◌>>◌, pure, jserr_to_exception, Option, some,
  none,
}
use chakra_jxx.Js.Jsrt.{Jsrt, JsValueRef, nullptr}
use chakra_jxx.Js.Mask

-- js.base.h: the codes of `exception_t`.
abbrev pub error_jsrt_error : ℤ
error_jsrt_error = pos 0

abbrev pub error_type_mismatch : ℤ
error_type_mismatch = negsuc 0

abbrev pub error_call_mode_is_denied : ℤ
error_call_mode_is_denied = negsuc 1

abbrev pub error_invalid_array_index : ℤ
error_invalid_array_index = negsuc 2

module _ {E : Type 0} (js : Jsrt E) (e : E) where
  unfoldable pub type_id : JsValueRef → ℕ
  type_id v =
      if v == nullptr
      then Mask.js_optional
      else let (err, temp) = js.get_value_type e v in
        if err == 0 then temp else Mask.js_invalid_value

  unfoldable pub type_mask : JsValueRef → ℕ
  type_mask v =
      if v == nullptr
      then Mask.bit Mask.js_optional
      else let (err, temp) = js.get_value_type e v in
        if err == 0 then Mask.bit temp else Mask.bit Mask.js_invalid_value

  -- `is`: the argument is an identifier of a type, not a mask.
  unfoldable pub is : JsValueRef → ℕ → Bool
  unfolding type_id
  is v id = type_id v == id

  unfoldable pub is_one_of : JsValueRef → ℕ → Bool
  unfolding type_mask
  is_one_of v mask = not (bit_and (type_mask v) mask == 0)

  -- `_as_the<mask>(JsValueRef)`, and the same from a `value_ref_t`.
  unfoldable pub as_the : ℕ → JsValueRef → Outcome JsValueRef
  unfolding is_one_of
  as_the mask v = cxx_exception_if error_type_mismatch (not (is_one_of v mask)) (returned v)

  -- `base_value_::set`, on the handle that the value holds. `required` is the accessor's
  -- `__required_type_mask__`, and `is_optional` the template's `Optional_`.
  unfoldable pub set : ℕ → Bool → JsValueRef → JsValueRef → Bool × JsValueRef
  unfolding is_one_of
  set required is_optional held value =
      if not (is_one_of value (bit_or required (if is_optional then Mask.optional else 0)))
      then (false, held)
      else (true, value)

  -- `base_value_(value_ref_t)`, which starts from a null handle.
  unfoldable pub base_value : ℕ → Bool → JsValueRef → Outcome JsValueRef
  unfolding set
  base_value required is_optional value =
      let (done, held) = set required is_optional nullptr value in
      cxx_exception_if error_type_mismatch (not done) (returned held)

module _ {E : Type 0} (js : Jsrt E) where
  -- `value_ref_t::as_jsbool`: an error of the second call leaves false.
  unfoldable pub as_jsbool : JsValueRef → Exec E Bool
  as_jsbool v e =
      if v == nullptr
      then (returned false, e)
      else (let (err, js_bool, e') = js.convert_value_to_boolean e v in
          let (err', out) = js.boolean_to_bool e' js_bool in
          (do jserr_to_exception err; pure (if err' == 0 then out else false)) e')

  -- `value_ref_t::is_property_id`, and what it leaves in `type`.
  unfoldable pub is_property_id : E → JsValueRef → Bool × Option ℕ
  is_property_id e v =
      let (err, type_) = js.get_property_id_type e v in
      if err == 0 then (true, some type_) else (false, none)

  -- `value_ref_t::AddRef` and `Release`: the count after the call. They are also called on a null
  -- handle, unlike those of `base_value_`.
  unfoldable pub add_ref_of : E → JsValueRef → ℕ × E
  add_ref_of e v = let (rc, e') = js.add_ref e v in (rc, e')

  unfoldable pub release_of : E → JsValueRef → ℕ × E
  release_of e v = let (rc, e') = js.release e v in (rc, e')
