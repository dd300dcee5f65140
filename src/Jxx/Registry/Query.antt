-- ===== src/Jxx/Registry/Query.antt =====
-- jxx.asio.tcp.h: `_RegQueryValue` with its calls of Windows, which answer with an error code.
use chakra_jxx.Base.{
  ℕ, suc, ◌+◌, ◌-◌, ◌%◌, ◌^◌, String, true, not, List, [], ◌∷◌, ◌++◌, Option, none, some, ◌==◌,
  ◌||◌, ltb, if◌then◌else◌, length, bit_or, Exec, ◌>>=◌, ◌>>◌, pure, throw_if, returned,
}
use chakra_jxx.Js.Jsrt.{Jsrt, JsValueRef, nullptr}
use chakra_jxx.Js.Mask
use chakra_jxx.Js.Value.{as_the, base_value}
use chakra_jxx.Js.Array
use chakra_jxx.Js.ArrayBuffer
use chakra_jxx.Js.TypedArray.{Content}
use chakra_jxx.Js.Primitive.{
  Doubles, get_void_ptr, get_as_string, just_int, just_real, just_string, to_int,
}
use chakra_jxx.Jxx.Evaluate.{call}
use chakra_jxx.Jxx.Registry.{
  RegTypes, Scan, done, outside, out_of_fuel, little_endian, replicate, resize, multi_sz,
}
use chakra_jxx.Jxx.Registry.Keys.{error_syscall, on_engine}

-- `RegQueryValueExA`: without a buffer, where it answers with the type and the size; with a buffer
-- of the program's, where it answers with the bytes that it writes from the start of the buffer and
-- their size; and with the memory of an `ArrayBuffer`.
pub record QueryCalls (E R : Type 0) : Type 0 where
  pub size_of_value : R → ℕ → String → ℕ × ℕ × ℕ × R
  pub read_value : R → ℕ → String → ℕ → ℕ × List ℕ × ℕ × R
  pub read_into : E × R → ℕ → String → Content → ℕ → ℕ × ℕ × (E × R)

-- A buffer of `n` zeros after a write at its start. `none` is a write behind it.
abbrev pub written : ℕ → List ℕ → Option (List ℕ)
written n bytes =
    if ltb n (length bytes) then none else some (bytes ++ replicate (n - length bytes) 0)

-- The `cbData - 1` of a `DWORD`.
abbrev pub before : ℕ → ℕ
before size = (size + 2 ^ 32 - 1) % 2 ^ 32

module _ {E : Type 0} (js : Jsrt E) where
  -- The type that `_RegQueryValue` is declared to answer with.
  abbrev pub query_answer : ℕ
  query_answer =
      bit_or (bit_or (bit_or (Mask.number js.types) (Mask.buffer js.types)) (Mask.string js.types))
        (Mask.nothing js.types)

  unfoldable pub checked : Option JsValueRef → Exec E (Option JsValueRef)
  unfolding as_the
  checked none = pure none
  checked (some v) = do v' ← (λ e. (as_the js e query_answer v, e)); pure (some v')

module _ {E : Type 0} (js : Jsrt E) (string_of : List ℕ → String) where
  -- `for (…) arr.SetItem(i, Just(strings[i]))`.
  unfoldable pub set_items : JsValueRef → ℕ → List (List ℕ) → Exec E (Unit {0})
  unfolding just_string Array.set_item to_int
  set_items arr i [] = pure tt
  set_items arr i (line ∷ lines) = do
    item ← just_string js (string_of line)
    _ ← Array.set_item js arr (to_int i) item
    set_items arr (suc i) lines

  unfoldable pub array_of : List (List ℕ) → Exec E JsValueRef
  unfolding Array.create set_items base_value
  array_of strings = do
    made ← call js (λ e. Array.create js (length strings % 2 ^ 32) e)
    arr ← (λ e. (base_value js e (Mask.array js.types) true made, e))
    set_items arr 0 strings
    pure arr

  -- What is made of the lines. The fuel of `multi_sz` is enough.
  abbrev pub from_lines : Scan → Exec E (Option JsValueRef)
  unfolding array_of
  from_lines (done lines) = do v ← array_of lines; pure (some v)
  from_lines outside = pure none
  from_lines out_of_fuel = pure none

module _ {E R : Type 0} (js : Jsrt E) (d : Doubles) (t : RegTypes) (calls : QueryCalls E R)
    (string_of : List ℕ → String) (of_uint64 : ℕ → ℕ) where
  abbrev pub size_call : ℕ → String → Exec (E × R) (ℕ × ℕ × ℕ)
  size_call h name (e, r) =
      let (err, type, size, r') = calls.size_of_value r h name in
      (returned (err, type, size), (e, r'))

  -- The second call, which throws where it fails: the buffer after it, and `cbData`.
  abbrev pub read_call : ℕ → String → ℕ → ℕ → Exec (E × R) (Option (List ℕ) × ℕ)
  read_call h name size room (e, r) =
      let (err, bytes, size', r') = calls.read_value r h name size in
      (do throw_if error_syscall (not (err == 0)); pure (written room bytes, size')) (e, r')

  abbrev pub into_call : ℕ → String → Content → ℕ → Exec (E × R) ℕ
  into_call h name content size s =
      let (err, size', s') = calls.read_into s h name content size in (returned err, s')

  -- What is made of the buffer, unless it was overrun.
  abbrev pub from_buffer :
      Option (List ℕ) → (List ℕ → Exec E (Option JsValueRef)) → Exec (E × R) (Option JsValueRef)
  from_buffer none f = pure none
  from_buffer (some buffer) f = on_engine (f buffer)

  unfoldable pub query_text : ℕ → String → ℕ → Exec (E × R) (Option JsValueRef)
  unfolding just_string
  query_text h name size = do
    answer ← read_call h name size size
    from_buffer answer.0
        (λ data'. do v ← just_string js (string_of (resize (before answer.1) data')); pure (some v))

  unfoldable pub query_texts : ℕ → String → ℕ → Exec (E × R) (Option JsValueRef)
  unfolding multi_sz
  query_texts h name size = do
    answer ← read_call h name size size
    from_buffer answer.0 (λ data'. from_lines js string_of (multi_sz data'))

  unfoldable pub query_dword : ℕ → String → ℕ → Exec (E × R) (Option JsValueRef)
  unfolding little_endian just_int to_int
  query_dword h name size = do
    answer ← read_call h name size 4
    from_buffer answer.0 (λ data'. do v ← just_int js (to_int (little_endian data')); pure (some v))

  unfoldable pub query_qword : ℕ → String → ℕ → Exec (E × R) (Option JsValueRef)
  unfolding little_endian just_real
  query_qword h name size = do
    answer ← read_call h name size 8
    from_buffer answer.0
        (λ data'. do v ← just_real js (of_uint64 (little_endian data')); pure (some v))

  unfoldable pub query_binary : ℕ → String → ℕ → Exec (E × R) (Option JsValueRef)
  unfolding ArrayBuffer.alloc ArrayBuffer.content_of_buffer base_value
  query_binary h name size = do
    made ← on_engine (call js (λ e. ArrayBuffer.alloc js e size))
    buffer ← on_engine (λ e. (base_value js e (Mask.buffer js.types) true made, e))
    content ← on_engine (λ e. (returned (ArrayBuffer.content_of_buffer js e buffer), e))
    err ← into_call h name content size
    throw_if error_syscall (not (err == 0))
    pure (some buffer)

  -- The branches of `_RegQueryValue`.
  unfoldable pub query_typed : ℕ → String → ℕ → ℕ → Exec (E × R) (Option JsValueRef)
  unfolding query_dword query_qword query_binary query_text query_texts
  query_typed h name type size =
      if type == t.reg_dword || type == t.reg_dword_big_endian
      then query_dword h name size
      else if type == t.reg_qword || type == t.reg_qword_little_endian
      then query_qword h name size
      else if type == t.reg_binary
      then query_binary h name size
      else if type == t.reg_expand_sz || type == t.reg_sz
      then query_text h name size
      else if type == t.reg_multi_sz
      then query_texts h name size
      else pure (some nullptr)

  -- `_RegQueryValue`. The flags are not used. `none` is a read or a write outside a buffer, after
  -- which nothing is defined.
  unfoldable pub reg_query_value_call : JsValueRef → JsValueRef → Exec (E × R) (Option JsValueRef)
  unfolding get_void_ptr get_as_string query_typed checked
  reg_query_value_call hkey value = do
    h ← on_engine (get_void_ptr js d hkey)
    name ← on_engine (get_as_string js value)
    asked ← size_call h name
    throw_if error_syscall (not (asked.0 == 0))
    v ← query_typed h name asked.1 asked.2
    on_engine (checked js v)
