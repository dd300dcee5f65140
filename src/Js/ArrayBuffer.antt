-- ===== src/Js/ArrayBuffer.antt =====
-- js.arraybuffer.h: array buffers, data views, and the bytes of any value that is like a buffer, as
-- the engine sees them.
pub mod Contents
pub mod Heap
pub mod Owned
pub mod Released
use chakra_jxx.Base.{
  ℕ, suc, ◌+◌, ◌%◌, ◌^◌, Bool, true, List, Option, none, some, ltb, if◌then◌else◌, length, take,
  Outcome, returned, thrown,
}
use chakra_jxx.Js.Jsrt.{Jsrt, JsValueRef, nullptr}
use chakra_jxx.Js.Mask
use chakra_jxx.Js.Value.{is, base_value}
use chakra_jxx.Js.TypedArray.{Content}
use chakra_jxx.Js.TypedArray

-- A `base_value_` of the mask is made from `v`, and then asked for its content.
abbrev content_as : Outcome JsValueRef → (JsValueRef → Content) → Outcome Content
content_as (returned v) f = returned (f v)
content_as (thrown code) f = thrown code

abbrev pub no_content : Content
no_content = record { data_ = 0; size = 0 }

module _ {E : Type 0} (js : Jsrt E) where
  -- `arraybuffer_accessor_::GetContent`.
  unfoldable pub content_of_buffer : E → JsValueRef → Content
  content_of_buffer e v =
      let (err, data', size) = js.get_array_buffer_storage e v in
      record { data_ = data'; size = size }

  -- `dataview_accessor_::GetContent`.
  unfoldable pub content_of_data_view : E → JsValueRef → Content
  content_of_data_view e v =
      let (err, data', size) = js.get_data_view_storage e v in record { data_ = data'; size = size }

  -- `Alloc`. The callers convert the result to an `ArrayBuffer`.
  unfoldable pub alloc : E → ℕ → JsValueRef × E
  alloc e size = let (err, out, e') = js.create_array_buffer e size in (out, e')

  -- `Attach`, of the bytes at the pointer.
  unfoldable pub attach : E → List ℕ → JsValueRef × E
  attach e bytes = let (err, out, e') = js.create_external_array_buffer e bytes in (out, e')

  -- `CreateFrom(String)`: the engine gets the bytes of a copy of the string, as many as its length
  -- in 32 bits says. The callers convert the result to an `ArrayBuffer`.
  unfoldable pub create_from_text : E → List ℕ → JsValueRef × E
  unfolding attach
  create_from_text e bytes = attach e (take (length bytes % 2 ^ 32) bytes)

  -- `dataview_accessor_::Create`.
  unfoldable pub create_data_view : E → JsValueRef → ℕ → ℕ → JsValueRef × E
  create_data_view e buffer offset size =
      let (err, out, e') = js.create_data_view e buffer offset size in (out, e')

  -- `GetContent(JsValueRef)`.
  unfoldable pub get_content : E → JsValueRef → Outcome Content
  unfolding is content_of_buffer content_of_data_view TypedArray.get_content
  get_content e v =
      if is js e v js.types.js_array_buffer
      then content_as (base_value js e (Mask.buffer js.types) true v) (content_of_buffer e)
      else if is js e v js.types.js_data_view
      then content_as (base_value js e (Mask.data_view js.types) true v) (content_of_data_view e)
      else if is js e v js.types.js_typed_array
      then content_as (base_value js e (Mask.typed_array js.types) true v)
          (TypedArray.get_content js e)
      else returned no_content
