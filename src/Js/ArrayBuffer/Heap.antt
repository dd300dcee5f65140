-- ===== src/Js/ArrayBuffer/Heap.antt =====
-- js.arraybuffer.h: the C++ memory that array buffers use, from the `new` in `CreateFrom` to the
-- finalizer that gives it back.
use chakra_jxx.Base.{
  ℕ, zero, suc, ◌+◌, ◌%◌, ◌^◌, List, [], ◌∷◌, ◌++◌, Option, none, some, ltb, ◌==◌, if◌then◌else◌,
  length, take, get_elem?, Outcome, true,
}
use chakra_jxx.Base.Holders.{holders}
use chakra_jxx.Js.Jsrt.{Jsrt, JsValueRef, nullptr}
use chakra_jxx.Js.Mask
use chakra_jxx.Js.Value.{base_value}

-- The engine, the addresses of what is allocated, by how it was: by `malloc`, as an array by `new
-- char[]`, and as a text by `new String`. Then the cookies with which the engine is to call the
-- finalizers `free` and `delete`, one for each external buffer that it has made and not collected.
pub record Memory (E : Type 0) : Type 0 where
  pub engine : E
  pub mallocs : List ℕ
  pub arrays : List ℕ
  pub texts : List ℕ
  pub frees : List ℕ
  pub deletes : List ℕ

abbrev pub drop_one : ℕ → List ℕ → List ℕ
drop_one p [] = []
drop_one p (q ∷ qs) = let rest = drop_one p qs in if p == q then qs else q ∷ rest

abbrev pub drop_at : ℕ → List ℕ → List ℕ
drop_at i [] = []
drop_at zero (q ∷ qs) = qs
drop_at (suc i) (q ∷ qs) = q ∷ drop_at i qs

-- `free`. `none` is a fault: `malloc` has not answered with the address, or it has been given back.
unfoldable pub free : {E : Type 0} → ℕ → Memory E → Option (Memory E)
unfolding holders
free p m =
    if ltb 0 (holders p m.mallocs) then some (record m { mallocs = drop_one p m.mallocs }) else none

-- `delete` of a text, which `new` has to have made.
unfoldable pub delete_text : {E : Type 0} → ℕ → Memory E → Option (Memory E)
unfolding holders
delete_text p m =
    if ltb 0 (holders p m.texts) then some (record m { texts = drop_one p m.texts }) else none

-- All that is allocated.
abbrev pub blocks : {E : Type 0} → Memory E → List ℕ
blocks m = m.mallocs ++ (m.arrays ++ m.texts)

-- `new_` is the address that `new` answers with, by the blocks that are allocated.
module _ {E : Type 0} (js : Jsrt E) (new_ : List ℕ → ℕ) where
  -- The conversion of what the engine has made to an `ArrayBuffer`.
  abbrev pub as_buffer : JsValueRef → Memory E → Outcome JsValueRef × Memory E
  as_buffer out m = (base_value js m.engine (Mask.buffer js.types) true out, m)

  -- `JsCreateExternalArrayBuffer` with the finalizer `free`, whose cookie the engine keeps if it
  -- makes the buffer.
  abbrev pub external_free : List ℕ → ℕ → Memory E → JsValueRef × Memory E
  external_free bytes cookie m =
      let (err, out, e') = js.create_external_array_buffer m.engine bytes in
      (out, record m { engine = e'; frees = if err == 0 then cookie ∷ m.frees else m.frees })

  -- The same with the finalizer that calls `delete`.
  abbrev pub external_delete : List ℕ → ℕ → Memory E → JsValueRef × Memory E
  external_delete bytes cookie m =
      let (err, out, e') = js.create_external_array_buffer m.engine bytes in
      (out, record m { engine = e'; deletes = if err == 0 then cookie ∷ m.deletes else m.deletes })

  -- `if (!out) free(ptr)`.
  abbrev pub unless_made_free : ℕ → JsValueRef × Memory E → Option (JsValueRef × Memory E)
  unless_made_free p (out, m) =
      if out == nullptr
      then elim (free p m) [ none ↦ none | some m' ↦ some (out, m') ]
      else some (out, m)

  -- `if (!out) delete pstr`.
  abbrev pub unless_made_delete : ℕ → JsValueRef × Memory E → Option (JsValueRef × Memory E)
  unless_made_delete p (out, m) =
      if out == nullptr
      then elim (delete_text p m) [ none ↦ none | some m' ↦ some (out, m') ]
      else some (out, m)

  -- `return out;`
  abbrev pub return_buffer : Option (JsValueRef × Memory E) → Option (Outcome JsValueRef × Memory E)
  return_buffer none = none
  return_buffer (some (out, m)) = some (as_buffer out m)

  -- What both copies of a view start with: `new char[len + 1]`, in 32 bits, and the `memcpy` of as
  -- many bytes of `memory`, which is what lies from the first character of the view on, as far as
  -- it may be read. Then the engine gets the first `len` bytes of the copy. `none` is a read
  -- outside of `memory`, or a buffer that is longer than the copy.
  abbrev pub copied : List ℕ → ℕ → Memory E → Option (JsValueRef × Memory E)
  copied memory len m =
      let room = (len + 1) % 2 ^ 32 in
      let ptr = new_ (blocks m) in
      if ltb (length memory) room
      then none
      else if ltb room len
      then none
      else some (external_free (take len memory) ptr (record m { arrays = ptr ∷ m.arrays }))

  -- `CreateFrom(StringView)`.
  unfoldable pub create_from_block : List ℕ → ℕ → Memory E → Option (Outcome JsValueRef × Memory E)
  unfolding free
  create_from_block memory size m =
      let ptr = new_ (blocks m) in
      if ptr == 0 then some (as_buffer nullptr m) else elim (copied memory (size % 2 ^ 32) m) [
        | none ↦ none
        | some made ↦ return_buffer (unless_made_free ptr made)
      ]

  -- `CreateFrom(String)`, where `bytes` is the text. The engine gets a length of 32 bits.
  unfoldable pub create_from_string : List ℕ → Memory E → Option (Outcome JsValueRef × Memory E)
  unfolding delete_text
  create_from_string bytes m =
      let pstr = new_ (blocks m) in
      if pstr == 0
      then some (as_buffer nullptr m)
      else return_buffer (
          unless_made_delete pstr (
            external_delete (take (length bytes % 2 ^ 32) bytes) pstr
              (record m { texts = pstr ∷ m.texts })))

  -- `CreateFrom(const StringView&)`, which gives nothing back.
  unfoldable pub create_from_const_view :
      List ℕ → ℕ → Memory E → Option (Outcome JsValueRef × Memory E)
  create_from_const_view memory size m =
      if new_ (blocks m) == 0
      then some (as_buffer nullptr m)
      else return_buffer (copied memory (size % 2 ^ 32) m)

-- The engine collects the buffer at a place of the list of those with the finalizer `free`, and
-- calls it.
unfoldable pub collect_free : {E : Type 0} → ℕ → Memory E → Option (Memory E)
unfolding free
collect_free i m = elim (get_elem? m.frees i) [
  | none ↦ some m
  | some cookie ↦ free cookie (record m { frees = drop_at i m.frees })
]

-- The same for the finalizer that calls `delete`.
unfoldable pub collect_delete : {E : Type 0} → ℕ → Memory E → Option (Memory E)
unfolding delete_text
collect_delete i m = elim (get_elem? m.deletes i) [
  | none ↦ some m
  | some cookie ↦ delete_text cookie (record m { deletes = drop_at i m.deletes })
]

unfoldable pub free_all : {E : Type 0} → List ℕ → Memory E → Option (Memory E)
unfolding free
free_all [] m = some m
free_all (cookie ∷ cookies) m = elim (free cookie m) [ none ↦ none | some m' ↦ free_all cookies m' ]

unfoldable pub delete_all : {E : Type 0} → List ℕ → Memory E → Option (Memory E)
unfolding delete_text
delete_all [] m = some m
delete_all (cookie ∷ cookies) m = elim (delete_text cookie m) [
  | none ↦ none
  | some m' ↦ delete_all cookies m'
]

-- The engine is disposed of, and collects what is left.
unfoldable pub dispose : {E : Type 0} → Memory E → Option (Memory E)
unfolding free_all delete_all
dispose m = elim (free_all m.frees (record m { frees = [] })) [
  | none ↦ none
  | some m' ↦ delete_all m'.deletes (record m' { deletes = [] })
]
