-- ===== src/Js/ArrayBuffer/Contents.antt =====
-- What `GetContent` answers for each type of value.
use chakra_jxx.Base.{◌≡◌, true, arith, ◌==◌, if◌then◌else◌, returned}
use chakra_jxx.Js.Jsrt.{Jsrt, JsValueRef, IsSmall}
use chakra_jxx.Js.Mask
use chakra_jxx.Js.Value.{type_id}
use chakra_jxx.Js.Value.Types.{ReportsTypes, test_bit-bit}
use chakra_jxx.Js.Value.Checks.{base_value-test_bit}
use chakra_jxx.Js.TypedArray
use chakra_jxx.Js.ArrayBuffer.{content_of_buffer, content_of_data_view, get_content, no_content}

module _ {E : Type 0} (js : Jsrt E) where
  -- Where the engine's type numbers are small, `GetContent` never throws. For each of the three
  -- types that are like a buffer it answers with what that type's accessor reads, and for any other
  -- value with the empty content.
  get_content_lem :
      (e : E) (v : JsValueRef)
      → ReportsTypes js e
      → IsSmall js.types
      → get_content js e v
        ≡ returned (
            if type_id js e v == js.types.js_array_buffer
            then content_of_buffer js e v
            else if type_id js e v == js.types.js_data_view
            then content_of_data_view js e v
            else if type_id js e v == js.types.js_typed_array
            then TypedArray.get_content js e v
            else no_content)
  unfolding get_content
  get_content_lem e v reports small = ground (
    arith,
    base_value-test_bit js e reports (Mask.buffer js.types) true v,
    base_value-test_bit js e reports (Mask.data_view js.types) true v,
    base_value-test_bit js e reports (Mask.typed_array js.types) true v,
    test_bit-bit js.types.js_array_buffer (type_id js e v),
    test_bit-bit js.types.js_data_view (type_id js e v),
    test_bit-bit js.types.js_typed_array (type_id js e v),
  )
