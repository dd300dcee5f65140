-- ===== src/Js/Value/Types.antt =====
-- Masks and type identifiers: a mask is a set of identifiers.
use native.Mathlib.Nat.{mod-eq_of_lt}
use chakra_jxx.Base.{
  ℕ, ◌<◌, ◌^◌, ◌≡◌, refl, true, false, not, inl, inr, Bool-cases, ==_iff, ◌||◌, arith, ◌==◌,
  bit_and,
}
use chakra_jxx.Base.Bits.{
  test_bit, test_bit-bit_or, test_bit-pow, bit_and-pow, pow-pos, pow-lt, test_bit-ones,
}
use chakra_jxx.Js.Jsrt.{Jsrt, JsValueRef, JsValueType, IsSmall}
use chakra_jxx.Js.Mask
use chakra_jxx.Js.Value.{type_id, type_mask, is_one_of}

pub bit_lem : (n : ℕ) → n < 64 → Mask.bit n ≡ 2 ^ n
unfolding Mask.bit
bit_lem n h = mod-eq_of_lt (pow-lt n 64 h)

pub test_bit-bit : (n i : ℕ) → n < 64 → test_bit (Mask.bit n) i ≡ (n == i)
test_bit-bit n i h = ground (arith, bit_lem n h, test_bit-pow n i)

bit_and-bit : (n m : ℕ) → n < 64 → not (bit_and (Mask.bit n) m == 0) ≡ test_bit m n
bit_and-bit n m h = ground (arith, bit_lem n h, bit_and-pow n m, pow-pos n)

-- Every type that the engine reports is one of its enumeration.
abbrev pub ReportsTypes : {E : Type 0} → Jsrt E → E → Type 0
ReportsTypes js e = (v : JsValueRef) → (js.get_value_type e v).1 < 62

module _ {E : Type 0} (js : Jsrt E) (e : E) (reports : ReportsTypes js e) where
  pub type_id-lt : (v : JsValueRef) → type_id js e v < 64
  unfolding type_id
  type_id-lt v = ground (arith, reports v)

  type_mask-bit : (v : JsValueRef) → type_mask js e v ≡ Mask.bit (type_id js e v)
  unfolding type_id type_mask
  type_mask-bit v = ground arith

  -- `is_one_of` asks whether the value's type identifier is a member of the mask, for every
  -- value, null and invalid ones included, where the engine's type numbers are small.
  pub is_one_of-test_bit :
      (v : JsValueRef) (mask : ℕ) → is_one_of js e v mask ≡ test_bit mask (type_id js e v)
  unfolding is_one_of
  is_one_of-test_bit v mask =
      ground (arith, type_mask-bit v, bit_and-bit (type_id js e v) mask, type_id-lt v)

any_or_nothing-lt : (i : ℕ) → i < 63 → test_bit Mask.any_or_nothing i ≡ true
unfolding Mask.complement Mask.bit
any_or_nothing-lt i h = test_bit-ones 63 i h

any_or_nothing-last : test_bit Mask.any_or_nothing 63 ≡ false
unfolding test_bit Mask.complement Mask.bit
any_or_nothing-last = refl

-- `_NotCare` takes every value but the invalid ones.
pub any_or_nothing-test_bit :
    (i : ℕ) → i < 64 → test_bit Mask.any_or_nothing i ≡ not (i == Mask.js_invalid_value)
any_or_nothing-test_bit i h = elim (Bool-cases (i == 63)) [
  | inl last ↦ rw (last, (==_iff i 63).0 last) any_or_nothing-last
  | inr other ↦ rw other (any_or_nothing-lt i (ground arith))
]

module _ (t : JsValueType) (small : IsSmall t) where
  -- Where the engine's type numbers are small, the members of `_AnyObject` are objects, functions,
  -- arrays, and the three types of buffers.
  pub any_object-test_bit :
      (i : ℕ)
      → test_bit (Mask.any_object t) i ≡ (
          ((((t.js_object == i || t.js_function == i) || t.js_array == i) || t.js_array_buffer == i)
            || t.js_data_view == i)
          || t.js_typed_array == i)
  unfolding Mask.any_object
  any_object-test_bit i = simp (
    test_bit-bit_or,
    test_bit-bit t.js_object i (omega arith),
    test_bit-bit t.js_function i (omega arith),
    test_bit-bit t.js_array i (omega arith),
    test_bit-bit t.js_array_buffer i (omega arith),
    test_bit-bit t.js_data_view i (omega arith),
    test_bit-bit t.js_typed_array i (omega arith),
  )

  pub nothing-test_bit :
      (i : ℕ)
      → test_bit (Mask.nothing t) i
        ≡ ((t.js_null == i || t.js_undefined == i) || Mask.js_optional == i)
  unfolding Mask.nothing
  nothing-test_bit i = simp (
    test_bit-bit_or,
    test_bit-bit t.js_null i (omega arith),
    test_bit-bit t.js_undefined i (omega arith),
    test_bit-bit 62 i (omega arith),
  )

  pub primitive-test_bit :
      (i : ℕ)
      → test_bit (Mask.primitive t) i
        ≡ (((t.js_null == i || t.js_undefined == i) || t.js_string == i) || t.js_number == i)
  unfolding Mask.primitive
  primitive-test_bit i = simp (
    test_bit-bit_or,
    test_bit-bit t.js_null i (omega arith),
    test_bit-bit t.js_undefined i (omega arith),
    test_bit-bit t.js_string i (omega arith),
    test_bit-bit t.js_number i (omega arith),
  )

  pub buffer_like-test_bit :
      (i : ℕ)
      → test_bit (Mask.buffer_like t) i
        ≡ ((t.js_array_buffer == i || t.js_data_view == i) || t.js_typed_array == i)
  unfolding Mask.buffer_like
  buffer_like-test_bit i = simp (
    test_bit-bit_or,
    test_bit-bit t.js_array_buffer i (omega arith),
    test_bit-bit t.js_data_view i (omega arith),
    test_bit-bit t.js_typed_array i (omega arith),
  )
