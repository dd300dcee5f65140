-- ===== src/Jxx/Registry/Querying.antt =====
-- What a script is given for a value of the registry, whichever calls of Windows fail.
use chakra_jxx.Base.{
  ℕ, ◌-◌, ◌≡◌, refl, String, true, List, Option, some, ◌==◌, ◌||◌, length, Exec, ◌>>=◌, pure,
  returned, arith, ap, bind_outcome, sym,
}
use mathlib.Core.List.{append-nil}
use chakra_jxx.Js.Jsrt.{Jsrt, JsValueRef, nullptr}
use chakra_jxx.Js.Primitive.{
  Doubles, get_void_ptr, get_as_string, just_int, just_real, just_string, to_int,
}
use chakra_jxx.Jxx.Registry.{
  RegTypes, RegValue, number, real, array_buffer, text, texts, null_value, reg_query_value, sz,
  multi_sz, little_endian,
}
use chakra_jxx.Jxx.Registry.Keys.{on_engine}
use chakra_jxx.Jxx.Registry.Query.{
  read_call, QueryCalls, from_lines, query_binary, query_typed, checked, reg_query_value_call,
  query_dword, query_qword, query_text, query_texts, written,
}

written_all : (bytes : List ℕ) → written (length bytes) bytes ≡ some bytes
written_all bytes =
    let none_left : length bytes - length bytes ≡ 0 = omega arith in
    grind (arith, append-nil bytes, none_left)

bind_returned :
    {S A B : Type 0} (m : Exec S A) (f : A → Exec S B) (s s' : S) (a : A)
    → m s ≡ (returned a, s')
    → (m >>= f) s ≡ f a s'
bind_returned m f s s' a h = ap (λ x. bind_outcome x f) h

module _ {E R : Type 0} (js : Jsrt E) (d : Doubles) (t : RegTypes) (calls : QueryCalls E R)
    (string_of : List ℕ → String) (of_uint64 : ℕ → ℕ) where
  -- The JavaScript value for what `reg_query_value` makes of the bytes. Those of a REG_BINARY are
  -- written by Windows.
  abbrev pub present : ℕ → String → ℕ → RegValue → Exec (E × R) (Option JsValueRef)
  unfolding just_int just_real just_string query_binary
  present h name size (number i) = on_engine (do v ← just_int js i; pure (some v))
  present h name size (real n) = on_engine (do v ← just_real js (of_uint64 n); pure (some v))
  present h name size (array_buffer bytes) =
      query_binary js d t calls string_of of_uint64 h name size
  present h name size (text s) = on_engine (do v ← just_string js (string_of s); pure (some v))
  present h name size (texts lines) = on_engine (from_lines js string_of lines)
  present h name size null_value = pure (some nullptr)

  -- The registry holds `bytes` under the name, and is not changed by being read.
  pub record Holds (r : R) (h : ℕ) (name : String) (type : ℕ) (bytes : List ℕ) : Type 0 where
    pub sized : calls.size_of_value r h name ≡ (0, type, length bytes, r)
    pub reads : calls.read_value r h name (length bytes) ≡ (0, bytes, length bytes, r)

  -- The data of a number has the size of the number.
  abbrev pub IsSized : ℕ → List ℕ → Type 0
  IsSized type bytes =
      ((type == t.reg_dword || type == t.reg_dword_big_endian) ≡ true → length bytes ≡ 4)
      × ((type == t.reg_qword || type == t.reg_qword_little_endian) ≡ true → length bytes ≡ 8)

  read_call-Holds :
      (h : ℕ) (name : String) (type : ℕ) (bytes : List ℕ) (room : ℕ) (e : E) (r : R)
      → Holds r h name type bytes
      → length bytes ≡ room
      → read_call js d t calls string_of of_uint64 h name (length bytes) room (e, r)
        ≡ (returned (some bytes, length bytes), (e, r))
  read_call-Holds h name type bytes room e r holds all =
      rw holds.reads (rw (sym all) (rw (written_all bytes) refl))

  query_dword-present :
      (h : ℕ) (name : String) (type : ℕ) (bytes : List ℕ) (e : E) (r : R)
      → Holds r h name type bytes
      → length bytes ≡ 4
      → query_dword js d t calls string_of of_uint64 h name (length bytes) (e, r)
        ≡ present h name (length bytes) (number (to_int (little_endian bytes))) (e, r)
  unfolding query_dword just_int present
  query_dword-present h name type bytes e r holds sized =
      bind_returned (read_call js d t calls string_of of_uint64 h name (length bytes) 4) _ (e, r)
        (e, r) (some bytes, length bytes) (read_call-Holds h name type bytes 4 e r holds sized)

  query_qword-present :
      (h : ℕ) (name : String) (type : ℕ) (bytes : List ℕ) (e : E) (r : R)
      → Holds r h name type bytes
      → length bytes ≡ 8
      → query_qword js d t calls string_of of_uint64 h name (length bytes) (e, r)
        ≡ present h name (length bytes) (real (little_endian bytes)) (e, r)
  unfolding query_qword just_real present
  query_qword-present h name type bytes e r holds sized =
      bind_returned (read_call js d t calls string_of of_uint64 h name (length bytes) 8) _ (e, r)
        (e, r) (some bytes, length bytes) (read_call-Holds h name type bytes 8 e r holds sized)

  query_text-present :
      (h : ℕ) (name : String) (type : ℕ) (bytes : List ℕ) (e : E) (r : R)
      → Holds r h name type bytes
      → query_text js d t calls string_of of_uint64 h name (length bytes) (e, r)
        ≡ present h name (length bytes) (text (sz bytes)) (e, r)
  unfolding query_text sz just_string present
  query_text-present h name type bytes e r holds =
      bind_returned
        (read_call js d t calls string_of of_uint64 h name (length bytes) (length bytes)) _ (e, r)
        (e, r) (some bytes, length bytes)
        (read_call-Holds h name type bytes (length bytes) e r holds refl)

  query_texts-present :
      (h : ℕ) (name : String) (type : ℕ) (bytes : List ℕ) (e : E) (r : R)
      → Holds r h name type bytes
      → query_texts js d t calls string_of of_uint64 h name (length bytes) (e, r)
        ≡ present h name (length bytes) (texts (multi_sz bytes)) (e, r)
  unfolding query_texts present
  query_texts-present h name type bytes e r holds =
      bind_returned
        (read_call js d t calls string_of of_uint64 h name (length bytes) (length bytes)) _ (e, r)
        (e, r) (some bytes, length bytes)
        (read_call-Holds h name type bytes (length bytes) e r holds refl)

  query_typed-present :
      (h : ℕ) (name : String) (type : ℕ) (bytes : List ℕ) (e : E) (r : R)
      → Holds r h name type bytes
      → IsSized type bytes
      → query_typed js d t calls string_of of_uint64 h name type (length bytes) (e, r)
        ≡ present h name (length bytes) (reg_query_value t type bytes) (e, r)
  unfolding query_typed reg_query_value present query_binary
  query_typed-present h name type bytes e r holds sized = grind (
    arith,
    query_dword-present h name type bytes e r holds,
    query_qword-present h name type bytes e r holds,
    query_text-present h name type bytes e r holds,
    query_texts-present h name type bytes e r holds,
    sized.0,
    sized.1,
  )

  -- Where the registry holds bytes under a name, reading them does not change it, and those of a
  -- number have its size: `_RegQueryValue` answers with the JavaScript value for what
  -- `reg_query_value` makes of them, checked against its declared type.
  pub reg_query_value_call_lem :
      (hkey value h : JsValueRef) (name : String) (type : ℕ) (bytes : List ℕ) (e : E) (r : R)
      → (get_void_ptr js d hkey e).0 ≡ returned h
      → (get_as_string js value e).0 ≡ returned name
      → Holds r h name type bytes
      → IsSized type bytes
      → reg_query_value_call js d t calls string_of of_uint64 hkey value (e, r)
        ≡ (present h name (length bytes) (reg_query_value t type bytes)
              >>= (λ v. on_engine (checked js v)))
            (e, r)
  unfolding reg_query_value_call get_void_ptr get_as_string
  reg_query_value_call_lem hkey value h name type bytes e r handle named holds sized =
      grind
        (arith, handle, named, holds.sized, query_typed-present h name type bytes e r holds sized)
