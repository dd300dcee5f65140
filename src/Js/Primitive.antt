-- ===== src/Js/Primitive.antt =====
-- js.primitive.h: `GetAs<>` and `Just<>`, between C++ values and JavaScript values.
pub mod Pointers
use chakra_jxx.Base.{
  ℕ, ◌-◌, ◌%◌, ◌^◌, String, Bool, not, ◌==◌, ltb, if◌then◌else◌, ℤ, pos, negsuc, returned, Exec,
  cxx_exception_if, jserr_to_exception, ◌>>◌, pure,
}
use chakra_jxx.Js.Jsrt.{Jsrt, JsValueRef}
use chakra_jxx.Js.Value.{error_type_mismatch}

-- `(int)i` of a `size_t`: the low 32 bits, read as a signed number.
unfoldable pub to_int : ℕ → ℤ
to_int i = let low = i % 2 ^ 32 in if ltb low (2 ^ 31) then pos low else negsuc (2 ^ 32 - 1 - low)

module _ {E : Type 0} (js : Jsrt E) where
  -- `GetAs<Int>`.
  unfoldable pub get_as_int : JsValueRef → Exec E ℤ
  get_as_int ref e =
      let (err, out) = js.number_to_int e ref in
      (cxx_exception_if error_type_mismatch (not (err == 0)) (returned out), e)

  -- `GetAs<String>`: one call for the length and one for the text.
  unfoldable pub get_as_string : JsValueRef → Exec E String
  get_as_string ref e =
      (do
        jserr_to_exception ((js.copy_string e ref).0)
        jserr_to_exception ((js.copy_string e ref).0)
        pure (js.copy_string e ref).1)
        e

  -- `Just<Int>`.
  unfoldable pub just_int : ℤ → Exec E JsValueRef
  just_int i e =
      let (err, out, e') = js.int_to_number e i in
      (cxx_exception_if error_type_mismatch (not (err == 0)) (returned out), e')

  -- `Just<size_t>`.
  unfoldable pub just_size_t : ℕ → Exec E JsValueRef
  unfolding just_int to_int
  just_size_t i = just_int (to_int i)

  -- `Just<String>`, `Just<StringView>` and `Just<CharPtr>`.
  unfoldable pub just_string : String → Exec E JsValueRef
  just_string s e =
      let (err, out, e') = js.create_string e s in (do jserr_to_exception err; pure out) e'

  -- `GetAs<Real>`.
  unfoldable pub get_as_real : JsValueRef → Exec E ℕ
  get_as_real ref e =
      let (err, out) = js.number_to_double e ref in
      (cxx_exception_if error_type_mismatch (not (err == 0)) (returned out), e)

  -- `GetAs<Boolean>`.
  unfoldable pub get_as_boolean : JsValueRef → Exec E Bool
  get_as_boolean ref e =
      let (err, out) = js.boolean_to_bool e ref in
      (cxx_exception_if error_type_mismatch (not (err == 0)) (returned out), e)

  -- `Just<Real>`.
  unfoldable pub just_real : ℕ → Exec E JsValueRef
  just_real i e =
      let (err, out, e') = js.double_to_number e i in
      (cxx_exception_if error_type_mismatch (not (err == 0)) (returned out), e')

  -- `Just<unsigned long>`: the number is converted to an `int` at the call.
  unfoldable pub just_unsigned_long : ℕ → Exec E JsValueRef
  unfolding just_int to_int
  just_unsigned_long i = just_int (to_int i)

  -- `Just(Boolean)` and `Just<Val_>()`.
  unfoldable pub just_boolean : Bool → Exec E JsValueRef
  just_boolean bv e =
      let (err, out, e') = js.bool_to_boolean e bv in
      (cxx_exception_if error_type_mismatch (not (err == 0)) (returned out), e')

  -- `Null`.
  unfoldable pub null : Exec E JsValueRef
  null e =
      let (err, out) = js.get_null_value e in
      (cxx_exception_if error_type_mismatch (not (err == 0)) (returned out), e)

  -- `Undefined`.
  unfoldable pub undefined : Exec E JsValueRef
  undefined e =
      let (err, out) = js.get_undefined_value e in
      (cxx_exception_if error_type_mismatch (not (err == 0)) (returned out), e)

-- The conversions between `intptr_t` and `double`, of numbers that are not negative.
pub record Doubles : Type 0 where
  pub of_intptr : ℕ → ℕ
  pub to_intptr : ℕ → ℕ

module _ {E : Type 0} (js : Jsrt E) (d : Doubles) where
  -- `VoidPtr(void*)`.
  unfoldable pub void_ptr : ℕ → Exec E JsValueRef
  void_ptr ptr e =
      let (err, out, e') = js.double_to_number e (d.of_intptr ptr) in
      (cxx_exception_if error_type_mismatch (not (err == 0)) (returned out), e')

  -- `VoidPtr<P>`.
  unfoldable pub get_void_ptr : JsValueRef → Exec E ℕ
  get_void_ptr ref e =
      let (err, out) = js.number_to_double e ref in
      (cxx_exception_if error_type_mismatch (not (err == 0)) (returned (d.to_intptr out)), e)
