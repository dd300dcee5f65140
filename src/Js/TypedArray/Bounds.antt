-- ===== src/Js/TypedArray/Bounds.antt =====
-- Which indices of a view are accepted, and what they read.
use native.Mathlib.Nat.{mod-eq_of_lt}
use chakra_jxx.Base.{
  ℕ, ◌+◌, ◌-◌, ◌*◌, ◌/◌, ◌^◌, ◌≤◌, ◌<◌, ◌≡◌, some, arith, ltb, if◌then◌else◌, returned, thrown,
}
use chakra_jxx.Js.Value.{error_invalid_array_index}
use chakra_jxx.Js.TypedArray.{MemoryView, length, at}

le-div : (i k n : ℕ) → 0 < k → i < n / k → i * k + k ≤ n
le-div i k n pos h = grind arith

div-le : (i k n : ℕ) → 0 < k → i * k + k ≤ n → i < n / k
div-le i k n pos h = grind arith

-- Where the arithmetic on `size_t` does not wrap, the accepted indices are those below `Length`,
-- and each reads the element at its place, which lies whole in the content. Any other index throws.
pub at-length :
    (v : MemoryView) (index n : ℕ)
    → length v ≡ some n
    → index * v.el_size + v.el_size < 2 ^ 64
    → at v index
      ≡ (if ltb index n then returned (index * v.el_size) else thrown error_invalid_array_index)
unfolding at length
at-length v index n h small = ground (
  arith,
  mod-eq_of_lt {n = index * v.el_size} {m = 2 ^ 64},
  le-div index v.el_size v.content.size,
  div-le index v.el_size v.content.size,
)

-- Where the elements have a size, an index whose element would end exactly at 2 ^ 64 is accepted
-- whatever the size of the content, and reads far outside it: the sum wraps to 0.
at_wraps :
    (v : MemoryView) (index : ℕ)
    → 0 < v.el_size
    → index * v.el_size + v.el_size ≡ 2 ^ 64
    → at v index ≡ returned (2 ^ 64 - v.el_size)
unfolding at
at_wraps v index pos wraps = ground arith
