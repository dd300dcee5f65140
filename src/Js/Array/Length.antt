-- ===== src/Js/Array/Length.antt =====
-- What `Length` answers for an array.
use chakra_jxx.Base.{◌≡◌, arith, returned}
use chakra_jxx.Base.Bits.{lt-pow}
use chakra_jxx.Js.Jsrt.{Jsrt, JsValueRef, IsSmall}
use chakra_jxx.Js.Value.{type_id}
use chakra_jxx.Js.Value.Types.{bit_lem}
use chakra_jxx.Js.Object.{get_property_by_name}
use chakra_jxx.Js.Array.{length}

module _ {E : Type 0} (js : Jsrt E) where
  -- Where the engine reports the property `length` of an array as a number, as it does for every
  -- array, and its type numbers are small, `Length` answers 0, whatever that number is.
  length-number :
      (e : E) (array : JsValueRef)
      → IsSmall js.types
      → type_id js
          (get_property_by_name js e array "length").1
          (get_property_by_name js e array "length").0
        ≡ js.types.js_number
      → (length js array e).0 ≡ returned 0
  unfolding length get_property_by_name
  length-number e array small number =
      ground (arith, bit_lem js.types.js_number, lt-pow js.types.js_number)
