-- ===== src/Jxx/Registry/Texts.antt =====
-- The texts of the registry: what was written is what is read.
use chakra_jxx.Base.{
  ℕ, zero, suc, ◌+◌, ◌-◌, ◌%◌, ◌^◌, ◌<◌, ◌≤◌, ◌≡◌, ◌≢◌, refl, List, [], ◌∷◌, ◌++◌, some, arith,
  length, length-append, take, All, inl, inr, Option-cases, Bool-cases, ap, subst, ◌==◌, ◌||◌,
}
use mathlib.Core.List.{append_assoc, append-nil}
use chakra_jxx.Jxx.Registry.{
  c_string, Scan, done, outside, out_of_fuel, add_line, scan_lines, multi_sz_in, multi_sz, sz,
}

-- No terminator inside.
abbrev pub IsText : List ℕ → Type 0
IsText = All (λ c. c ≢ 0)

-- Texts as REG_MULTI_SZ lists them: none is empty.
abbrev pub AreTexts : List (List ℕ) → Type 0
AreTexts = All (λ s. (s ≢ []) × IsText s)

-- Each text with its terminator.
abbrev pub terminated : List (List ℕ) → List ℕ
terminated [] = []
terminated (s ∷ ss) = s ++ 0 ∷ terminated ss

c_string-text : (s rest : List ℕ) → IsText s → c_string (s ++ 0 ∷ rest) ≡ some (s, rest)
unfolding c_string
c_string-text [] rest h = ground arith
c_string-text (c ∷ s) rest h = ground (arith, c_string-text s rest h.1)

scan_lines-text :
    (fuel : ℕ) (s rest : List ℕ) (left : ℕ)
    → s ≢ []
    → IsText s
    → left ≢ 0
    → scan_lines (suc fuel) (s ++ 0 ∷ rest) left
      ≡ add_line s (scan_lines fuel rest (left - suc (length s)))
unfolding scan_lines
scan_lines-text fuel [] rest left n h m = absurd (n refl)
scan_lines-text fuel (c ∷ s) rest left n h m = ground (arith, c_string-text (c ∷ s) rest h)

-- What is left of a buffer behind its first text.
text-left :
    (s : List ℕ) (ss : List (List ℕ)) (left : ℕ)
    → length (terminated (s ∷ ss)) ≤ left
    → (left ≢ 0) × (length (terminated ss) ≤ left - suc (length s))
text-left s ss left le =
    let whole = length-append s (0 ∷ terminated ss) in
    (λ e. omega (arith, whole), omega (arith, whole))

scan_lines-terminated :
    (fuel : ℕ) (ss : List (List ℕ)) (rest : List ℕ) (left : ℕ)
    → AreTexts ss
    → length ss ≤ fuel
    → length (terminated ss) ≤ left
    → scan_lines fuel (terminated ss ++ 0 ∷ rest) left ≡ done ss
unfolding scan_lines
scan_lines-terminated zero [] rest left h le room = refl
scan_lines-terminated (suc fuel) [] rest left h le room = refl
scan_lines-terminated zero (s ∷ ss) rest left h le room = absurd (omega arith)
scan_lines-terminated (suc fuel) (s ∷ ss) rest left h le room =
    let (some_left, more) = text-left s ss left room in
    cc (
      append_assoc s (0 ∷ terminated ss) (0 ∷ rest),
      scan_lines-text fuel s (terminated ss ++ 0 ∷ rest) left h.0.0 h.0.1 some_left,
      scan_lines-terminated fuel ss rest (left - suc (length s)) h.1 (omega arith) more,
    )

-- Without the empty text at the end.
scan_lines-open :
    (fuel : ℕ) (ss : List (List ℕ)) (left : ℕ)
    → AreTexts ss
    → length ss ≤ fuel
    → length (terminated ss) ≤ left
    → scan_lines fuel (terminated ss) left ≡ outside
unfolding scan_lines
scan_lines-open zero [] left h le room = refl
scan_lines-open (suc fuel) [] left h le room = refl
scan_lines-open zero (s ∷ ss) left h le room = absurd (omega arith)
scan_lines-open (suc fuel) (s ∷ ss) left h le room =
    let (some_left, more) = text-left s ss left room in
    cc (
      scan_lines-text fuel s (terminated ss) left h.0.0 h.0.1 some_left,
      scan_lines-open fuel ss (left - suc (length s)) h.1 (omega arith) more,
    )

terminated-length : (ss : List (List ℕ)) → length ss ≤ length (terminated ss)
terminated-length [] = omega arith
terminated-length (s ∷ ss) =
    grind (arith, length-append s (0 ∷ terminated ss), terminated-length ss)

-- Texts in a row, none of them empty, and an empty one that ends the row, are read back as they
-- are, whatever lies behind; and where the last terminator is missing, the loop reads outside the
-- buffer.
pub multi_sz-terminated :
    (ss : List (List ℕ)) (rest : List ℕ)
    → AreTexts ss
    → (multi_sz (terminated ss ++ 0 ∷ rest) ≡ done ss) × (multi_sz (terminated ss) ≡ outside)
unfolding multi_sz
multi_sz-terminated ss rest h = (
  scan_lines-terminated (length (terminated ss ++ 0 ∷ rest)) ss rest
      (length (terminated ss ++ 0 ∷ rest)) h
      (grind (arith, length-append (terminated ss) (0 ∷ rest), terminated-length ss))
      (grind (arith, length-append (terminated ss) (0 ∷ rest))),
  scan_lines-open (length (terminated ss)) ss (length (terminated ss)) h (terminated-length ss)
      (omega arith),
)

-- The scan is over: with at most `n` lines, or with a read behind all that may be read.
abbrev pub EndsWithin : ℕ → Scan → Type 0
EndsWithin n (done lines) = length lines ≤ n
EndsWithin n outside = Unit
EndsWithin n out_of_fuel = ⊥

add_line-EndsWithin :
    (line : List ℕ) (n m : ℕ) (s : Scan)
    → suc n ≤ m
    → EndsWithin n s
    → EndsWithin m (add_line line s)
add_line-EndsWithin line n m (done lines) le h = omega (arith, h)
add_line-EndsWithin line n m outside le h = tt
add_line-EndsWithin line n m out_of_fuel le h = absurd h

scan_lines-EndsWithin :
    (fuel : ℕ) (memory : List ℕ) (left : ℕ)
    → left ≤ fuel
    → EndsWithin left (scan_lines fuel memory left)
unfolding scan_lines
scan_lines-EndsWithin fuel [] left le = tt
scan_lines-EndsWithin zero (c ∷ rest) left le = ground arith
scan_lines-EndsWithin (suc fuel) (c ∷ rest) left le =
    let scanned = scan_lines (suc fuel) (c ∷ rest) left in
    elim (Bool-cases (c == 0 || left == 0)) [
      | inl stop ↦
          let e : done [] ≡ scanned = ground (arith, stop) in
          subst (EndsWithin left) e (omega arith)
      | inr go ↦ elim (Option-cases (c_string (c ∷ rest))) [
        | inl n ↦ let e : outside ≡ scanned = ground (arith, go, n) in subst (EndsWithin left) e tt
        | inr ((line, behind), h) ↦
            let rest_left = left - suc (length line) in
            let e : add_line line (scan_lines fuel behind rest_left) ≡ scanned =
              ground (arith, go, h) in
            let some_left : left ≢ 0 = λ z. ground (arith, go, z) in
            subst (EndsWithin left) e (
              add_line-EndsWithin line rest_left left (scan_lines fuel behind rest_left)
                (omega (arith, some_left))
                (scan_lines-EndsWithin fuel behind rest_left (omega (arith, le))))
      ]
    ]

-- Whatever a REG_MULTI_SZ holds, terminated or not, and whatever may be read behind its buffer: the
-- loop over its lines ends, by its own tests and with at most as many lines as the buffer has bytes,
-- or with a read behind all that may be read. The fuel, one for each byte, is enough.
pub multi_sz_in-EndsWithin :
    (bytes behind : List ℕ) → EndsWithin (length bytes) (multi_sz_in bytes behind)
unfolding multi_sz_in
multi_sz_in-EndsWithin bytes behind =
    scan_lines-EndsWithin (length bytes) (bytes ++ behind) (length bytes) (omega arith)

take-append : (s rest : List ℕ) → take (length s) (s ++ rest) ≡ s
take-append [] rest = refl
take-append (c ∷ s) rest = ap (λ t. c ∷ t) (take-append s rest)

-- REG_SZ: a text that is shorter than 2 ^ 32 is read back without its terminator.
pub sz-terminated : (s : List ℕ) → length s < 2 ^ 32 → sz (s ++ 0 ∷ []) ≡ s
unfolding sz
sz-terminated s h =
    let len : length (s ++ 0 ∷ []) ≡ suc (length s) = omega (arith, length-append s (0 ∷ [])) in
    let kept : (length (s ++ 0 ∷ []) + 2 ^ 32 - 1) % 2 ^ 32 ≡ length s = omega (arith, len) in
    let added : length s - length (s ++ 0 ∷ []) ≡ 0 = omega (arith, len) in
    cc (kept, added, take-append s (0 ∷ []), append-nil s)
