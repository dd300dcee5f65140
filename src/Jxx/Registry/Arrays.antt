-- ===== src/Jxx/Registry/Arrays.antt =====
-- A REG_MULTI_SZ and the type that `_RegQueryValue` is declared to answer with, which has no
-- arrays.
use chakra_jxx.Base.{
  ℕ, ◌%◌, ◌^◌, ◌≡◌, ◌≢◌, ◌⊎◌, String, true, List, Option, none, some, length, Exec, ◌>>=◌, ◌>>◌,
  pure, returned, arith, subst, sym,
}
use chakra_jxx.Base.Yields.{Yields, returned_injective, pure-Yields, bind-Yields}
use chakra_jxx.Js.Jsrt.{Jsrt, JsValueRef, nullptr}
use chakra_jxx.Js.Mask
use chakra_jxx.Js.Value.{base_value, set}
use chakra_jxx.Js.Array
use chakra_jxx.Js.Primitive.{Doubles}
use chakra_jxx.Jxx.Evaluate.{call}
use chakra_jxx.Jxx.Registry.{RegTypes, Scan, done, outside, out_of_fuel, multi_sz}
use chakra_jxx.Jxx.Registry.Query.{
  QueryCalls, array_of, set_items, from_lines, from_buffer, read_call, query_texts,
}

module _ {E : Type 0} (js : Jsrt E) where
  -- An array, which it stays.
  abbrev pub IsArray : JsValueRef → Type 0
  IsArray v = (e : E) → js.get_value_type e v ≡ (0, js.types.js_array)

  -- `JsCreateArray` makes an array, or nothing.
  abbrev pub MakesArrays : Type 0
  MakesArrays =
      (e : E) (n : ℕ) → ((js.create_array e n).1 ≡ nullptr) ⊎ IsArray (js.create_array e n).1

  -- The types that the answer is declared with are not that of an array.
  abbrev pub IsApart : Type 0
  IsApart =
      (js.types.js_number ≢ js.types.js_array)
      × (js.types.js_array_buffer ≢ js.types.js_array)
      × (js.types.js_string ≢ js.types.js_array)
      × (js.types.js_null ≢ js.types.js_array)
      × (js.types.js_undefined ≢ js.types.js_array)

  abbrev pub NullOrArray : JsValueRef → Type 0
  NullOrArray v = (v ≡ nullptr) ⊎ IsArray v

  base_value_same :
      (e : E) (required : ℕ) (v held : JsValueRef)
      → base_value js e required true v ≡ returned held
      → held ≡ v
  unfolding base_value set
  base_value_same e required v held h = ground arith

  module _ (makes : MakesArrays) (string_of : List ℕ → String) where
    create-NullOrArray : (n : ℕ) → Yields NullOrArray (call js (Array.create js n))
    unfolding Array.create
    create-NullOrArray n e made h =
        subst NullOrArray (returned_injective (js.create_array e n).1 made h) (makes e n)

    kept-NullOrArray :
        (made : JsValueRef)
        → NullOrArray made
        → Yields NullOrArray (λ e. (base_value js e (Mask.array js.types) true made, e))
    kept-NullOrArray made good e arr h =
        subst NullOrArray (sym (base_value_same e (Mask.array js.types) made arr h)) good

    abbrev filled : List (List ℕ) → JsValueRef → Exec E JsValueRef
    filled strings arr = do set_items js string_of arr 0 strings; pure arr

    filled-NullOrArray :
        (strings : List (List ℕ)) (arr : JsValueRef)
        → NullOrArray arr
        → Yields NullOrArray (filled strings arr)
    filled-NullOrArray strings arr good =
        bind-Yields (λ _. Unit {0}) NullOrArray (set_items js string_of arr 0 strings)
          (λ _. pure arr) (λ s a h. tt) (λ _ _. pure-Yields NullOrArray arr good)

    abbrev made_array : List (List ℕ) → JsValueRef → Exec E JsValueRef
    made_array strings made = do
      arr ← (λ e. (base_value js e (Mask.array js.types) true made, e))
      filled strings arr

    made_array-NullOrArray :
        (strings : List (List ℕ)) (made : JsValueRef)
        → NullOrArray made
        → Yields NullOrArray (made_array strings made)
    made_array-NullOrArray strings made good =
        bind-Yields NullOrArray NullOrArray
          (λ e. (base_value js e (Mask.array js.types) true made, e)) (filled strings)
          (kept-NullOrArray made good) (filled-NullOrArray strings)

    array_of-NullOrArray :
        (strings : List (List ℕ)) → Yields NullOrArray (array_of js string_of strings)
    unfolding array_of
    array_of-NullOrArray strings =
        bind-Yields NullOrArray NullOrArray (call js (Array.create js (length strings % 2 ^ 32)))
          (made_array strings) (create-NullOrArray (length strings % 2 ^ 32))
          (made_array-NullOrArray strings)

    abbrev pub SomeNullOrArray : Option JsValueRef → Type 0
    SomeNullOrArray none = Unit
    SomeNullOrArray (some v) = NullOrArray v

    from_lines-SomeNullOrArray :
        (lines : Scan) → Yields SomeNullOrArray (from_lines js string_of lines)
    unfolding array_of
    from_lines-SomeNullOrArray (done lines) =
        bind-Yields NullOrArray SomeNullOrArray (array_of js string_of lines) (λ v. pure (some v))
          (array_of-NullOrArray lines) (λ v good. pure-Yields SomeNullOrArray (some v) good)
    from_lines-SomeNullOrArray outside = pure-Yields SomeNullOrArray none tt
    from_lines-SomeNullOrArray out_of_fuel = pure-Yields SomeNullOrArray none tt

    module _ {R : Type 0} (d : Doubles) (t : RegTypes) (calls : QueryCalls E R)
        (of_uint64 : ℕ → ℕ) where
      from_buffer-SomeNullOrArray :
          (buffer : Option (List ℕ))
          → Yields SomeNullOrArray (
              from_buffer js d t calls string_of of_uint64 buffer
                (λ data'. from_lines js string_of (multi_sz data')))
      from_buffer-SomeNullOrArray none s o h = pure-Yields SomeNullOrArray none tt s o h
      from_buffer-SomeNullOrArray (some data') s o h =
          from_lines-SomeNullOrArray (multi_sz data') s.0 o h

      pub query_texts-SomeNullOrArray :
          (h : ℕ) (name : String) (size : ℕ)
          → Yields SomeNullOrArray (query_texts js d t calls string_of of_uint64 h name size)
      unfolding query_texts
      query_texts-SomeNullOrArray h name size =
          bind-Yields (λ _. Unit {0}) SomeNullOrArray
            (read_call js d t calls string_of of_uint64 h name size size)
            (λ answer.
              from_buffer js d t calls string_of of_uint64 answer.0
                (λ data'. from_lines js string_of (multi_sz data')))
            (λ s a p. tt) (λ answer _. from_buffer-SomeNullOrArray answer.0)
