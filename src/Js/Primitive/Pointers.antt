-- ===== src/Js/Primitive/Pointers.antt =====
-- Pointers as JavaScript numbers.
use chakra_jxx.Base.{ℕ, ◌^◌, ◌≤◌, ◌≡◌, returned, ◌>>=◌, arith}
use chakra_jxx.Js.Jsrt.{Jsrt}
use chakra_jxx.Js.Primitive.{Doubles, void_ptr, get_void_ptr}

-- A `double` holds a whole number up to 2 ^ 53 exactly, and a number that the engine makes of a
-- `double` is read back as it is.
pub record Exact {E : Type 0} (js : Jsrt E) (d : Doubles) : Type 0 where
  pub exact : (n : ℕ) → n ≤ 2 ^ 53 → d.to_intptr (d.of_intptr n) ≡ n
  pub made : (e : E) (bits : ℕ) → (js.double_to_number e bits).0 ≡ 0
  pub read :
      (e : E) (bits : ℕ)
      → (let (err, out, e') = js.double_to_number e bits in js.number_to_double e' out ≡ (0, bits))

module _ {E : Type 0} (js : Jsrt E) (d : Doubles) where
  -- Where a `double` holds whole numbers up to 2 ^ 53, and the engine reads back the numbers that
  -- it makes, a pointer up to that bound that is made a number is got back from it.
  get_void_ptr-void_ptr :
      (e : E) (ptr : ℕ)
      → Exact js d
      → ptr ≤ 2 ^ 53
      → ((void_ptr js d ptr >>= get_void_ptr js d) e).0 ≡ returned ptr
  unfolding void_ptr get_void_ptr
  get_void_ptr-void_ptr e ptr exact small =
      ground (
        arith,
        exact.exact ptr small,
        exact.made e (d.of_intptr ptr),
        exact.read e (d.of_intptr ptr),
      )
