-- ===== src/Jxx/Registry/Refused.antt =====
-- `_RegQueryValue` is declared to answer with a number, a buffer, a string or nothing: it refuses
-- the array that it makes of a REG_MULTI_SZ.
use chakra_jxx.Base.{
  ℕ, ◌≡◌, ◌≢◌, inl, inr, String, true, false, not, List, Option, none, some, ◌==◌, Exec, ◌>>=◌,
  ◌>>◌, throw_if, returned, thrown, arith, sym, ap, ◌∙◌,
}
use chakra_jxx.Base.Bits.{test_bit, test_bit-bit_or}
use chakra_jxx.Base.Yields.{Yields, pure-Yields, bind-Yields}
use chakra_jxx.Js.Jsrt.{Jsrt, JsValueRef, nullptr, IsSmall}
use chakra_jxx.Js.Value.{error_type_mismatch, as_the, type_id}
use chakra_jxx.Js.Value.Types.{ReportsTypes, test_bit-bit, nothing-test_bit}
use chakra_jxx.Js.Value.Checks.{as_the-test_bit}
use chakra_jxx.Js.Primitive.{Doubles, get_void_ptr, get_as_string}
use chakra_jxx.Jxx.Registry.{RegTypes}
use chakra_jxx.Jxx.Registry.Keys.{error_syscall, on_engine}
use chakra_jxx.Jxx.Registry.Query.{
  QueryCalls, query_texts, query_typed, checked, query_answer, reg_query_value_call,
}
use chakra_jxx.Jxx.Registry.Arrays.{
  IsArray, MakesArrays, IsApart, SomeNullOrArray, query_texts-SomeNullOrArray,
}

==-apart : (a b : ℕ) → a ≢ b → (a == b) ≡ false
==-apart a b n = ground arith

==-same : (a : ℕ) → (a == a) ≡ true
==-same a = ground arith

-- REG_MULTI_SZ is another type than those that `_RegQueryValue` asks for before.
pub record IsLast (t : RegTypes) : Type 0 where
  pub dword_apart : t.reg_dword ≢ t.reg_multi_sz
  pub dword_big_endian_apart : t.reg_dword_big_endian ≢ t.reg_multi_sz
  pub qword_apart : t.reg_qword ≢ t.reg_multi_sz
  pub qword_little_endian_apart : t.reg_qword_little_endian ≢ t.reg_multi_sz
  pub binary_apart : t.reg_binary ≢ t.reg_multi_sz
  pub expand_sz_apart : t.reg_expand_sz ≢ t.reg_multi_sz
  pub sz_apart : t.reg_sz ≢ t.reg_multi_sz

module _ {E : Type 0} (js : Jsrt E) where
  as_the_same : (e : E) (mask : ℕ) (v w : JsValueRef) → as_the js e mask v ≡ returned w → w ≡ v
  unfolding as_the
  as_the_same e mask v w h = ground arith

module _ {E R : Type 0} (js : Jsrt E) (makes : MakesArrays js) (string_of : List ℕ → String)
    (d : Doubles) (t : RegTypes) (calls : QueryCalls E R) (of_uint64 : ℕ → ℕ)
    (small : IsSmall js.types) (reports : (e : E) → ReportsTypes js e) (apart : IsApart js) where
  query_answer-array : test_bit (query_answer js) js.types.js_array ≡ false
  query_answer-array = simp (
    test_bit-bit_or,
    test_bit-bit js.types.js_number js.types.js_array (omega arith),
    test_bit-bit js.types.js_array_buffer js.types.js_array (omega arith),
    test_bit-bit js.types.js_string js.types.js_array (omega arith),
    nothing-test_bit js.types small js.types.js_array,
    ==-apart js.types.js_number js.types.js_array apart.0,
    ==-apart js.types.js_array_buffer js.types.js_array apart.1,
    ==-apart js.types.js_string js.types.js_array apart.2,
    ==-apart js.types.js_null js.types.js_array apart.3,
    ==-apart js.types.js_undefined js.types.js_array apart.4,
    ==-apart 62 js.types.js_array (λ same. omega (arith, small.array_lt)),
  )

  as_the-array :
      (e : E) (v : JsValueRef)
      → IsArray js v
      → v ≢ nullptr
      → as_the js e (query_answer js) v ≡ thrown error_type_mismatch
  unfolding type_id
  as_the-array e v array n =
      ground
        (arith, as_the-test_bit js e (reports e) (query_answer js) v, array e, query_answer-array)

  abbrev SomeNull : Option JsValueRef → Type 0
  SomeNull none = Unit
  SomeNull (some v) = v ≡ nullptr

  checked-SomeNull :
      (o : Option JsValueRef)
      → SomeNullOrArray js makes string_of o
      → Yields SomeNull (checked js o)
  unfolding checked
  checked-SomeNull none good s o h = pure-Yields SomeNull none tt s o h
  checked-SomeNull (some v) (inl null) s none h = tt
  checked-SomeNull (some v) (inl null) s (some w) h =
      ground (arith, null, as_the_same js s (query_answer js) v w)
  checked-SomeNull (some v) (inr array) s none h = tt
  checked-SomeNull (some v) (inr array) s (some w) h =
      ground (arith, as_the-array s v array, as_the_same js s (query_answer js) v w)

  query_typed-texts :
      (h : ℕ) (name : String) (type size : ℕ)
      → IsLast t
      → type ≡ t.reg_multi_sz
      → query_typed js d t calls string_of of_uint64 h name type size
        ≡ query_texts js d t calls string_of of_uint64 h name size
  unfolding query_typed
  query_typed-texts h name type size l same = simp (
    same,
    ==-apart t.reg_multi_sz t.reg_dword (λ e. l.dword_apart (sym e)),
    ==-apart t.reg_multi_sz t.reg_dword_big_endian (λ e. l.dword_big_endian_apart (sym e)),
    ==-apart t.reg_multi_sz t.reg_qword (λ e. l.qword_apart (sym e)),
    ==-apart t.reg_multi_sz t.reg_qword_little_endian (λ e. l.qword_little_endian_apart (sym e)),
    ==-apart t.reg_multi_sz t.reg_binary (λ e. l.binary_apart (sym e)),
    ==-apart t.reg_multi_sz t.reg_expand_sz (λ e. l.expand_sz_apart (sym e)),
    ==-apart t.reg_multi_sz t.reg_sz (λ e. l.sz_apart (sym e)),
    ==-same t.reg_multi_sz,
  )

  abbrev query_on : ℕ → String → ℕ → ℕ → ℕ → Exec (E × R) (Option JsValueRef)
  query_on h name err type size = do
    throw_if error_syscall (not (err == 0))
    v ← query_typed js d t calls string_of of_uint64 h name type size
    on_engine (checked js v)

  query_on-SomeNull :
      (h : ℕ) (name : String) (err type size : ℕ)
      → IsLast t
      → type ≡ t.reg_multi_sz
      → Yields SomeNull (query_on h name err type size)
  query_on-SomeNull h name err type size l multi =
      bind-Yields (λ _. Unit {0}) SomeNull (throw_if error_syscall (not (err == 0)))
        (λ _.
          query_typed js d t calls string_of of_uint64 h name type size
          >>= (λ v. on_engine (checked js v)))
        (λ s a p. tt)
        (λ _ _.
          bind-Yields (SomeNullOrArray js makes string_of) SomeNull
            (query_typed js d t calls string_of of_uint64 h name type size)
            (λ v. on_engine (checked js v))
            (rw (query_typed-texts h name type size l multi)
              (query_texts-SomeNullOrArray js makes string_of d t calls of_uint64 h name size))
            (λ o good s. checked-SomeNull o good s.0))

  reg_query_value_call-query_on :
      (hkey value h : JsValueRef) (name : String) (e : E) (r : R)
      → (get_void_ptr js d hkey e).0 ≡ returned h
      → (get_as_string js value e).0 ≡ returned name
      → reg_query_value_call js d t calls string_of of_uint64 hkey value (e, r) ≡ (
          let (err, type, size, r') = calls.size_of_value r h name in
          query_on h name err type size (e, r'))
  unfolding reg_query_value_call get_void_ptr get_as_string
  reg_query_value_call-query_on hkey value h name e r handle named = grind (arith, handle, named)

  -- Where the engine makes arrays that stay arrays, and its types and those of the registry are
  -- different numbers: for a name whose value is a REG_MULTI_SZ, whichever calls of Windows and of
  -- the engine fail and whatever the bytes are, `_RegQueryValue` returns no value but null.
  pub reg_query_value_call-texts :
      (hkey value v h : JsValueRef) (name : String) (e : E) (r : R)
      → IsLast t
      → (get_void_ptr js d hkey e).0 ≡ returned h
      → (get_as_string js value e).0 ≡ returned name
      → (calls.size_of_value r h name).1 ≡ t.reg_multi_sz
      → v ≢ nullptr
      → (reg_query_value_call js d t calls string_of of_uint64 hkey value (e, r)).0
        ≢ returned (some v)
  reg_query_value_call-texts hkey value v h name e r l handle named multi real answered =
      let (err, type, size, r') = calls.size_of_value r h name in
      let same = reg_query_value_call-query_on hkey value h name e r handle named in
      real (
        query_on-SomeNull h name err type size l multi (e, r') (some v)
          (sym (ap (λ x. x.0) same) ∙ answered))
