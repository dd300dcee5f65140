-- ===== src/Js/TypedArray/Fit.antt =====
-- `IsFit` against the table of native types.
use native.Mathlib.Omega.{arith}
use chakra_jxx.Base.{ℕ, ◌^◌, ◌≡◌, ◌↔◌, ap, true}
use chakra_jxx.Base.Bits.{test_bit, test_bit-bit_or, test_bit-pow, bit_and-pow_right, pow-pos}
use chakra_jxx.Js.TypedArray.{
  ElementType, int8, uint8, uint8_clamped, int16, uint16, int32, uint32, float32, float64,
  NativeType, int8_t, uint8_t, int16_t, uint16_t, int32_t, uint32_t, float, double, MemoryView,
  array_native_type, array_type_of_native, is_fit,
}

-- The numbers of the element types differ.
abbrev AreDistinct : (ElementType → ℕ) → Type 0
AreDistinct code = (a b : ElementType) → code a ≡ code b → a ≡ b

module _ (code : ElementType → ℕ) where
  is_fit-test_bit :
      (native : NativeType) (e : ElementType) (v : MemoryView)
      → v.el_type ≡ code e
      → is_fit code native v ≡ test_bit (array_type_of_native code native) (code e)
  unfolding is_fit
  is_fit-test_bit native e v h =
      ground
        (arith, bit_and-pow_right (array_type_of_native code native) (code e), pow-pos (code e))

  test_bit-pow_code :
      (a e : ElementType) → AreDistinct code → (test_bit (2 ^ code a) (code e) ≡ true) ↔ (a ≡ e)
  test_bit-pow_code a e d = (
    λ h. d a e (ground (arith, test_bit-pow (code a) (code e))),
    λ h. ground (arith, test_bit-pow (code a) (code e), ap code h),
  )

  -- Where the element types have different numbers, `IsFit<T>` holds of a view exactly where
  -- `ArrayNativeType` of its elements is `T`.
  is_fit-array_native_type :
      (native : NativeType) (e : ElementType) (v : MemoryView)
      → AreDistinct code
      → v.el_type ≡ code e
      → (is_fit code native v ≡ true) ↔ (array_native_type e ≡ native)
  unfolding array_type_of_native array_native_type
  is_fit-array_native_type int8_t e v d h =
      ground (arith, is_fit-test_bit int8_t e v h, test_bit-pow_code int8 e d)
  is_fit-array_native_type uint8_t e v d h = ground (
    arith,
    is_fit-test_bit uint8_t e v h,
    test_bit-bit_or (2 ^ code uint8) (2 ^ code uint8_clamped) (code e),
    test_bit-pow_code uint8 e d,
    test_bit-pow_code uint8_clamped e d,
  )
  is_fit-array_native_type int16_t e v d h =
      ground (arith, is_fit-test_bit int16_t e v h, test_bit-pow_code int16 e d)
  is_fit-array_native_type uint16_t e v d h =
      ground (arith, is_fit-test_bit uint16_t e v h, test_bit-pow_code uint16 e d)
  is_fit-array_native_type int32_t e v d h =
      ground (arith, is_fit-test_bit int32_t e v h, test_bit-pow_code int32 e d)
  is_fit-array_native_type uint32_t e v d h =
      ground (arith, is_fit-test_bit uint32_t e v h, test_bit-pow_code uint32 e d)
  is_fit-array_native_type float e v d h =
      ground (arith, is_fit-test_bit float e v h, test_bit-pow_code float32 e d)
  is_fit-array_native_type double e v d h =
      ground (arith, is_fit-test_bit double e v h, test_bit-pow_code float64 e d)
