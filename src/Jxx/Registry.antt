-- ===== src/Jxx/Registry.antt =====
-- jxx.asio.tcp.h: the Windows registry. What `RegQueryValueExA` and `RegEnumKeyA` answer is given;
-- the model has what the code makes of it.
pub mod Querying
pub mod Refused
pub mod Texts
pub mod Enumerate
pub mod Enumerating
pub mod Keys
pub mod Arrays
pub mod Closing
pub mod Query
use chakra_jxx.Base.{
  ℕ, zero, suc, ◌+◌, ◌-◌, ◌*◌, ◌%◌, ◌^◌, String, Bool, true, false, not, List, [], ◌∷◌, ◌++◌,
  Option, none, some, ◌==◌, ◌||◌, if◌then◌else◌, length, take, bit_and, ℤ, Exec, ◌>>=◌, ◌>>◌, pure,
}
use chakra_jxx.Js.Primitive.{to_int}

-- The codes of the registry's types.
pub record RegTypes : Type 0 where
  pub reg_dword : ℕ
  pub reg_dword_big_endian : ℕ
  pub reg_qword : ℕ
  pub reg_qword_little_endian : ℕ
  pub reg_binary : ℕ
  pub reg_expand_sz : ℕ
  pub reg_sz : ℕ
  pub reg_multi_sz : ℕ

-- `std::string line = scan`: the characters up to the terminator, and what lies behind it. `none`
-- is a read behind the buffer.
unfoldable pub c_string : List ℕ → Option (List ℕ × List ℕ)
c_string [] = none
c_string (c ∷ rest) = elim (c_string rest) [
  | none ↦ if c == 0 then some ([], rest) else none
  | some (line, behind) ↦ if c == 0 then some ([], rest) else some (c ∷ line, behind)
]

pub data Scan : Type 0 where
  done : List (List ℕ) → Scan
  -- A read behind the buffer.
  outside : Scan
  out_of_fuel : Scan

abbrev pub add_line : List ℕ → Scan → Scan
add_line line (done lines) = done (line ∷ lines)
add_line line outside = outside
add_line line out_of_fuel = out_of_fuel

-- `while (*scan && scan < tail)` of REG_MULTI_SZ: `memory` is what lies from `scan` on, as far as it
-- may be read, and `left` is `tail - scan`, 0 where `scan` is not below `tail`. The loop reads
-- `*scan` before it compares, and a line may run on behind `tail`.
unfoldable pub scan_lines : ℕ → List ℕ → ℕ → Scan
unfolding c_string
scan_lines fuel [] left = outside
scan_lines zero (c ∷ rest) left = if c == 0 || left == 0 then done [] else out_of_fuel
scan_lines (suc fuel) (c ∷ rest) left = elim (c == 0 || left == 0) [
  | true ↦ done []
  | false ↦ elim (c_string (c ∷ rest)) [
    | none ↦ outside
    | some (line, behind) ↦ add_line line (scan_lines fuel behind (left - suc (length line)))
  ]
]

-- The loop over a buffer, which has the memory `behind` it.
unfoldable pub multi_sz_in : List ℕ → List ℕ → Scan
unfolding scan_lines
multi_sz_in bytes behind = scan_lines (length bytes) (bytes ++ behind) (length bytes)

-- Nothing behind the buffer may be read.
unfoldable pub multi_sz : List ℕ → Scan
unfolding scan_lines
multi_sz bytes = scan_lines (length bytes) bytes (length bytes)

abbrev pub replicate : ℕ → ℕ → List ℕ
replicate zero c = []
replicate (suc n) c = c ∷ replicate n c

-- `std::string::resize`.
abbrev pub resize : ℕ → List ℕ → List ℕ
resize n text = take n text ++ replicate (n - length text) 0

-- REG_SZ: `data.resize(cbData - 1)`, where `cbData` is a `DWORD`.
unfoldable pub sz : List ℕ → List ℕ
sz bytes = resize ((length bytes + 2 ^ 32 - 1) % 2 ^ 32) bytes

-- A number from its bytes in memory, the lowest first.
unfoldable pub little_endian : List ℕ → ℕ
little_endian [] = 0
little_endian (b ∷ bs) = b + 256 * little_endian bs

-- What `_RegQueryValue` hands to JavaScript.
pub data RegValue : Type 0 where
  number : ℤ → RegValue
  real : ℕ → RegValue
  array_buffer : List ℕ → RegValue
  text : List ℕ → RegValue
  texts : Scan → RegValue
  null_value : RegValue

-- `_RegQueryValue`, of a value's type and bytes.
unfoldable pub reg_query_value : RegTypes → ℕ → List ℕ → RegValue
unfolding to_int little_endian sz multi_sz
reg_query_value t type bytes =
    if type == t.reg_dword || type == t.reg_dword_big_endian
    then number (to_int (little_endian bytes))
    else if type == t.reg_qword || type == t.reg_qword_little_endian
    then real (little_endian bytes)
    else if type == t.reg_binary
    then array_buffer bytes
    else if type == t.reg_expand_sz || type == t.reg_sz
    then text (sz bytes)
    else if type == t.reg_multi_sz
    then texts (multi_sz bytes)
    else null_value

module _ {E : Type 0} (callback : ℕ → String → Exec E Bool) where
  -- One loop of `_RegEnumKey`, from index `i` on: the callback's answer, as a boolean, ends it.
  unfoldable pub enum_from : ℕ → List String → Exec E (Unit {0})
  enum_from i [] = pure tt
  enum_from i (name ∷ names) = do
    break_ ← callback i name
    elim break_ [ true ↦ pure tt | false ↦ enum_from (suc i) names ]

  -- `_RegEnumKey`: the subkeys for bit 0 of the mode, and the values for bit 1.
  unfoldable pub reg_enum_key : ℕ → List String → List String → Exec E (Unit {0})
  unfolding enum_from
  reg_enum_key mode subkeys values = do
    (if bit_and mode 1 == 0 then pure tt else enum_from 0 subkeys)
    (if bit_and mode 2 == 0 then pure tt else enum_from 0 values)
