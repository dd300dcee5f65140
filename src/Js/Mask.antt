-- ===== src/Js/Mask.antt =====
-- The type masks of js.value.h: one bit of a `uint64_t` for each `JsValueType`.
use chakra_jxx.Base.{ℕ, ◌-◌, ◌%◌, ◌^◌, bit_or}
use chakra_jxx.Js.Jsrt.{JsValueType}

abbrev pub js_optional : ℕ
js_optional = 62

abbrev pub js_invalid_value : ℕ
js_invalid_value = 63

-- `__BIT << n` on `uint64_t`.
unfoldable pub bit : ℕ → ℕ
bit n = 2 ^ n % 2 ^ 64

abbrev pub optional : ℕ
optional = bit js_optional

-- `~m` on `uint64_t`.
unfoldable pub complement : ℕ → ℕ
complement m = 2 ^ 64 - 1 - m

abbrev pub any_or_nothing : ℕ
any_or_nothing = complement (bit js_invalid_value)

abbrev pub not_care : ℕ
not_care = any_or_nothing

module _ (t : JsValueType) where
  abbrev pub null : ℕ
  null = bit t.js_null

  abbrev pub undefined : ℕ
  undefined = bit t.js_undefined

  abbrev pub boolean : ℕ
  boolean = bit t.js_boolean

  abbrev pub number : ℕ
  number = bit t.js_number

  abbrev pub string : ℕ
  string = bit t.js_string

  abbrev pub object : ℕ
  object = bit t.js_object

  abbrev pub function : ℕ
  function = bit t.js_function

  abbrev pub array : ℕ
  array = bit t.js_array

  abbrev pub buffer : ℕ
  buffer = bit t.js_array_buffer

  abbrev pub data_view : ℕ
  data_view = bit t.js_data_view

  abbrev pub symbol : ℕ
  symbol = bit t.js_symbol

  abbrev pub typed_array : ℕ
  typed_array = bit t.js_typed_array

  unfoldable pub any_object : ℕ
  any_object =
      bit_or (bit_or (bit_or (bit_or (bit_or object function) array) buffer) data_view) typed_array

  unfoldable pub nothing : ℕ
  nothing = bit_or (bit_or null undefined) optional

  unfoldable pub primitive : ℕ
  primitive = bit_or (bit_or (bit_or null undefined) string) number

  unfoldable pub buffer_like : ℕ
  buffer_like = bit_or (bit_or buffer data_view) typed_array
