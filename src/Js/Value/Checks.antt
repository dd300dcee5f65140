-- ===== src/Js/Value/Checks.antt =====
-- Which values the checked types accept.
use chakra_jxx.Base.{
  ℕ, ◌≡◌, Bool, true, false, ◌&&◌, ◌||◌, arith, ◌==◌, if◌then◌else◌, returned, thrown, bit_or,
}
use chakra_jxx.Base.Bits.{test_bit, test_bit-bit_or, zero-test_bit}
use chakra_jxx.Js.Jsrt.{Jsrt, JsValueRef, nullptr}
use chakra_jxx.Js.Mask
use chakra_jxx.Js.Value.{type_id, as_the, set, base_value, error_type_mismatch}
use chakra_jxx.Js.Value.Types.{ReportsTypes, is_one_of-test_bit, test_bit-bit}

module _ {E : Type 0} (js : Jsrt E) (e : E) (reports : ReportsTypes js e) where
  -- Where the engine's type numbers are small, `_as_the<mask>` keeps a value whose type is in the
  -- mask, and throws a type mismatch at any other.
  pub as_the-test_bit :
      (mask : ℕ) (v : JsValueRef)
      → as_the js e mask v
        ≡ (if test_bit mask (type_id js e v) then returned v else thrown error_type_mismatch)
  unfolding as_the
  as_the-test_bit mask v = ground (arith, is_one_of-test_bit js e reports v mask)

  type_id-optional : (v : JsValueRef) → (type_id js e v == Mask.js_optional) ≡ (v == nullptr)
  unfolding type_id
  type_id-optional v = ground (arith, reports v)

  -- Where the engine's type numbers are small, `base_value_::set` takes a value whose type the
  -- accessor requires, and a null handle if the template is optional. At any other it answers false
  -- and keeps the handle that it held.
  set-test_bit :
      (required : ℕ) (is_optional : Bool) (held value : JsValueRef)
      → set js e required is_optional held value ≡ (
          if test_bit required (type_id js e value) || (is_optional && value == nullptr)
          then (true, value)
          else (false, held))
  unfolding set
  set-test_bit required true held value = ground (
    arith,
    is_one_of-test_bit js e reports value (bit_or required Mask.optional),
    test_bit-bit_or required Mask.optional (type_id js e value),
    test_bit-bit Mask.js_optional (type_id js e value),
    type_id-optional value,
  )
  set-test_bit required false held value = ground (
    arith,
    is_one_of-test_bit js e reports value (bit_or required 0),
    test_bit-bit_or required 0 (type_id js e value),
    zero-test_bit (type_id js e value),
  )

  -- Where the engine's type numbers are small, a `base_value_` is constructed exactly from a value
  -- whose type the accessor requires, or a null handle if the template is optional, and holds it.
  -- At any other the construction throws a type mismatch.
  pub base_value-test_bit :
      (required : ℕ) (is_optional : Bool) (value : JsValueRef)
      → base_value js e required is_optional value ≡ (
          if test_bit required (type_id js e value) || (is_optional && value == nullptr)
          then returned value
          else thrown error_type_mismatch)
  unfolding base_value
  base_value-test_bit required is_optional value =
      ground (arith, set-test_bit required is_optional nullptr value)
