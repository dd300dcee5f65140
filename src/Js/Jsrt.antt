-- ===== src/Js/Jsrt.antt =====
-- The part of ChakraCore's C API (JSRT) that the wrappers call. The engine is a library: its
-- state `E` and its functions are parameters of the model.
use chakra_jxx.Base.{ℕ, ◌<◌, String, Bool, ℤ, List}

-- `JsValueRef`, `JsPropertyIdRef` and `JsContextRef` are opaque pointers.
abbrev pub JsValueRef : Type 0
JsValueRef = ℕ

-- `nullptr`, and `JS_INVALID_REFERENCE`.
abbrev pub nullptr : JsValueRef
nullptr = 0

-- The enumerators of `JsValueType` that the wrappers name.
pub record JsValueType : Type 0 where
  pub js_undefined : ℕ
  pub js_null : ℕ
  pub js_number : ℕ
  pub js_string : ℕ
  pub js_boolean : ℕ
  pub js_object : ℕ
  pub js_function : ℕ
  pub js_array : ℕ
  pub js_symbol : ℕ
  pub js_array_buffer : ℕ
  pub js_typed_array : ℕ
  pub js_data_view : ℕ

-- The enumeration is small: its values stay below the two codes that the wrappers add.
pub record IsSmall (t : JsValueType) : Type 0 where
  pub undefined_lt : t.js_undefined < 62
  pub null_lt : t.js_null < 62
  pub number_lt : t.js_number < 62
  pub string_lt : t.js_string < 62
  pub boolean_lt : t.js_boolean < 62
  pub object_lt : t.js_object < 62
  pub function_lt : t.js_function < 62
  pub array_lt : t.js_array < 62
  pub symbol_lt : t.js_symbol < 62
  pub array_buffer_lt : t.js_array_buffer < 62
  pub typed_array_lt : t.js_typed_array < 62
  pub data_view_lt : t.js_data_view < 62

-- A function returns its `JsErrorCode`, what it leaves in its out parameter, which the wrappers
-- set to `nullptr` before the call, and the new state.
pub record Jsrt (E : Type 0) : Type 0 where
  pub types : JsValueType
  pub error_invalid_argument : ℕ
  pub error_out_of_memory : ℕ
  pub error_invalid_context : ℕ
  pub get_value_type : E → JsValueRef → ℕ × ℕ
  pub create_property_id : E → String → ℕ × JsValueRef × E
  pub set_property : E → JsValueRef → JsValueRef → JsValueRef → ℕ × E
  -- `JsSetProperty` by the strict rules.
  pub set_property_strictly : E → JsValueRef → JsValueRef → JsValueRef → ℕ × E
  pub get_property : E → JsValueRef → JsValueRef → ℕ × JsValueRef × E
  pub set_prototype : E → JsValueRef → JsValueRef → ℕ × E
  pub create_object : E → ℕ × JsValueRef × E
  pub create_string : E → String → ℕ × JsValueRef × E
  pub create_named_function : E → JsValueRef → ℕ → ℕ → ℕ × JsValueRef × E
  pub get_external_data : E → JsValueRef → ℕ × ℕ
  pub add_ref : E → JsValueRef → ℕ × E
  pub release : E → JsValueRef → ℕ × E
  pub get_current_context : E → ℕ × JsValueRef
  pub set_current_context : E → JsValueRef → ℕ × E
  pub get_context_of_object : E → JsValueRef → ℕ × JsValueRef
  pub create_context : E → JsValueRef → ℕ × JsValueRef × E
  pub set_context_data : E → JsValueRef → ℕ → ℕ × E
  pub get_context_data : E → JsValueRef → ℕ × ℕ
  pub get_global_object : E → ℕ × JsValueRef
  pub get_prototype : E → JsValueRef → ℕ × JsValueRef
  pub copy_string : E → JsValueRef → ℕ × String
  pub number_to_int : E → JsValueRef → ℕ × ℤ
  pub int_to_number : E → ℤ → ℕ × JsValueRef × E
  pub set_indexed_property : E → JsValueRef → JsValueRef → JsValueRef → ℕ × E
  pub get_indexed_property : E → JsValueRef → JsValueRef → ℕ × JsValueRef × E
  pub create_array : E → ℕ → ℕ × JsValueRef × E
  pub create_symbol : E → JsValueRef → ℕ × JsValueRef × E
  pub run : E → JsValueRef → JsValueRef → ℕ × JsValueRef × E
  pub call_function : E → JsValueRef → List JsValueRef → ℕ × JsValueRef × E
  pub error_script_exception : ℕ
  pub get_and_clear_exception : E → ℕ × JsValueRef × E
  -- The error, and then the data, its size, the type of the elements and their size.
  pub get_typed_array_storage : E → JsValueRef → ℕ × ℕ × ℕ × ℕ × ℕ
  pub get_array_buffer_storage : E → JsValueRef → ℕ × ℕ × ℕ
  pub get_data_view_storage : E → JsValueRef → ℕ × ℕ × ℕ
  pub create_array_buffer : E → ℕ → ℕ × JsValueRef × E
  -- Of the bytes, which the engine reads in place.
  pub create_external_array_buffer : E → List ℕ → ℕ × JsValueRef × E
  pub create_data_view : E → JsValueRef → ℕ → ℕ → ℕ × JsValueRef × E
  pub set_external_data : E → JsValueRef → ℕ → ℕ × E
  -- Of the data and the prototype.
  pub create_external_object : E → ℕ → JsValueRef → ℕ × JsValueRef × E
  -- A `double` is given by its bits.
  pub number_to_double : E → JsValueRef → ℕ × ℕ
  pub double_to_number : E → ℕ → ℕ × JsValueRef × E
  pub boolean_to_bool : E → JsValueRef → ℕ × Bool
  pub bool_to_boolean : E → Bool → ℕ × JsValueRef × E
  pub convert_value_to_boolean : E → JsValueRef → ℕ × JsValueRef × E
  pub get_null_value : E → ℕ × JsValueRef
  pub get_undefined_value : E → ℕ × JsValueRef
  pub get_property_id_type : E → JsValueRef → ℕ × ℕ
  pub get_property_id_from_symbol : E → JsValueRef → ℕ × JsValueRef × E
  pub construct_object : E → JsValueRef → List JsValueRef → ℕ × JsValueRef × E
  pub create_runtime : E → ℕ → ℕ × JsValueRef × E
  pub dispose_runtime : E → JsValueRef → ℕ × E
  pub set_promise_continuation_callback : E → ℕ → ℕ × E
  -- Of the data and the callback.
  pub set_object_before_collect_callback : E → JsValueRef → ℕ → ℕ → ℕ × E
  pub set_runtime_before_collect_callback : E → JsValueRef → ℕ → ℕ × E
