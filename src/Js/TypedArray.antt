-- ===== src/Js/TypedArray.antt =====
-- js.typedarray.h: the view of a typed array's memory.
pub mod Bounds
pub mod Fit
use chakra_jxx.Base.{
  ℕ, ◌+◌, ◌*◌, ◌/◌, ◌%◌, ◌^◌, Bool, not, Option, none, some, ◌==◌, ltb, if◌then◌else◌, bit_and,
  bit_or, Outcome, returned, cxx_exception_if,
}
use chakra_jxx.Js.Jsrt.{Jsrt, JsValueRef, nullptr}
use chakra_jxx.Js.Value.{error_invalid_array_index}

-- `JsTypedArrayType`.
pub data ElementType : Type 0 where
  int8 uint8 uint8_clamped int16 uint16 int32 uint32 float32 float64 : ElementType

-- The C++ types that elements are read as.
pub data NativeType : Type 0 where
  int8_t uint8_t int16_t uint16_t int32_t uint32_t float double : NativeType

-- `ArrayNativeType<>`.
unfoldable pub array_native_type : ElementType → NativeType
array_native_type float64 = double
array_native_type float32 = float
array_native_type int8 = int8_t
array_native_type uint8 = uint8_t
array_native_type uint8_clamped = uint8_t
array_native_type int16 = int16_t
array_native_type uint16 = uint16_t
array_native_type int32 = int32_t
array_native_type uint32 = uint32_t

-- `array_type_of_native_<>::mask`, over the numbers of the element types.
unfoldable pub array_type_of_native : (ElementType → ℕ) → NativeType → ℕ
array_type_of_native code int8_t = 2 ^ code int8
array_type_of_native code uint8_t = bit_or (2 ^ code uint8) (2 ^ code uint8_clamped)
array_type_of_native code int16_t = 2 ^ code int16
array_type_of_native code uint16_t = 2 ^ code uint16
array_type_of_native code int32_t = 2 ^ code int32
array_type_of_native code uint32_t = 2 ^ code uint32
array_type_of_native code float = 2 ^ code float32
array_type_of_native code double = 2 ^ code float64

-- `content_t`.
pub record Content : Type 0 where
  pub data_ : ℕ
  pub size : ℕ

-- `MemoryView`. `el_type` is the number of an element type.
pub record MemoryView : Type 0 where
  pub array : JsValueRef
  pub el_size : ℕ
  pub content : Content
  pub el_type : ℕ

abbrev no_view : MemoryView
no_view = record {
  array = nullptr;
  el_size = 0;
  content = record { data_ = 0; size = 0 };
  el_type = 0;
}

-- `Length`; `none` is a division by zero.
unfoldable pub length : MemoryView → Option ℕ
length v = if v.el_size == 0 then none else some (v.content.size / v.el_size)

-- `IsFit<T>`.
unfoldable pub is_fit : (ElementType → ℕ) → NativeType → MemoryView → Bool
unfolding array_type_of_native
is_fit code native v = not (bit_and (array_type_of_native code native) (2 ^ v.el_type) == 0)

-- `operator[]`: the address, relative to the data, that it reads. The numbers are `size_t`.
unfoldable pub at : MemoryView → ℕ → Outcome ℕ
at v index =
    let offset = index * v.el_size % 2 ^ 64 in
    cxx_exception_if error_invalid_array_index (ltb v.content.size ((offset + v.el_size) % 2 ^ 64))
      (returned offset)

module _ {E : Type 0} (js : Jsrt E) where
  -- `GetView`.
  unfoldable pub get_view : E → JsValueRef → MemoryView
  get_view e array =
      let (err, data', size, el_type, el_size) = js.get_typed_array_storage e array in
      if not (err == 0) then no_view else record {
        array = array;
        el_size = el_size;
        content = record { data_ = data'; size = size };
        el_type = el_type;
      }

  -- `GetContent`.
  unfoldable pub get_content : E → JsValueRef → Content
  unfolding get_view
  get_content e array = (get_view e array).content
