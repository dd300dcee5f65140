-- ===== src/Js/Array.antt =====
-- js.array.h: the accessor of arrays.
pub mod Length
use chakra_jxx.Base.{
  ℕ, ◌-◌, ◌^◌, String, Bool, true, false, not, ◌==◌, if◌then◌else◌, ℤ, pos, negsuc, Outcome,
  returned, thrown, Exec, ◌>>=◌, ◌>>◌, pure, jserr_to_exception, bind_outcome,
}
use chakra_jxx.Js.Jsrt.{Jsrt, JsValueRef, nullptr}
use chakra_jxx.Js.Mask
use chakra_jxx.Js.Value.{is}
use chakra_jxx.Js.Primitive.{get_as_int, just_int}
use chakra_jxx.Js.Object.{property_id, get_property}

-- The conversion of an `int` to `uint32_t`.
unfoldable pub to_uint32 : ℤ → ℕ
to_uint32 (pos n) = n
to_uint32 (negsuc n) = 2 ^ 32 - 1 - n

pub record IndexedProperty : Type 0 where
  pub this_ : JsValueRef
  pub index_ : JsValueRef

module _ {E : Type 0} (js : Jsrt E) where
  -- `Length`. The test is `is<_Number>`: a mask stands where a type identifier is expected.
  unfoldable pub length : JsValueRef → Exec E ℕ
  unfolding property_id get_property is get_as_int to_uint32
  length array e =
      let (id, e') = property_id js e "length" in
      if id == nullptr
      then (returned 0, e')
      else let (len, e'') = get_property js e' array id in
        if not (is js e'' len (Mask.number js.types))
        then (returned 0, e'')
        else bind_outcome (get_as_int js len e'') (λ i. pure (to_uint32 i))

  -- `GetItem`.
  unfoldable pub get_item : JsValueRef → ℤ → Exec E JsValueRef
  unfolding just_int
  get_item array index = do
    i ← just_int js index
    λ e. let (err, out, e') = js.get_indexed_property e array i in (returned out, e')

  -- `SetItem`.
  unfoldable pub set_item : JsValueRef → ℤ → JsValueRef → Exec E Bool
  unfolding just_int
  set_item array index value = do
    i ← just_int js index
    λ e. let (err, e') = js.set_indexed_property e array i value in (returned (err == 0), e')

  -- `Create`.
  unfoldable pub create : ℕ → E → JsValueRef × E
  create len e = let (err, out, e') = js.create_array e len in (out, e')

  -- `operator[]`: the proxy of an item, which converts to its value and is assigned to.
  unfoldable pub item : ℤ → JsValueRef → Exec E IndexedProperty
  unfolding just_int
  item index array = do i ← just_int js index; pure (record { this_ = array; index_ = i })

  unfoldable pub read_item : E → IndexedProperty → JsValueRef × E
  read_item e p = let (err, out, e') = js.get_indexed_property e p.this_ p.index_ in (out, e')

  unfoldable pub write_item : IndexedProperty → JsValueRef → Exec E IndexedProperty
  write_item p v e =
      let (err, e') = js.set_indexed_property e p.this_ p.index_ v in
      (do jserr_to_exception err; pure p) e'
