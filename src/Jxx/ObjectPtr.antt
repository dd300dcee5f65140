-- ===== src/Jxx/ObjectPtr.antt =====
-- jxx.api.h: `JxxObjectPtr`, and the counts of jxx.class.h that it keeps. The pointers of the
-- program are numbered slots; one that is not alive, or default, is null. An object is its address.
pub mod Lifetime
pub mod Conversions
pub mod Members
use chakra_jxx.Base.{
  ℕ, ◌+◌, ◌-◌, ◌%◌, ◌^◌, Bool, true, false, List, ◌==◌, if◌then◌else◌, get_or, set, Option, none,
  some, not,
}
use chakra_jxx.Jxx.Class.{JxxClass, query_class}

pub record Pointers : Type 0 where
  -- `ref_count_`, and whether `delete this` has run.
  pub ref_count : ℕ → ℕ
  pub deleted : ℕ → Bool
  -- `nake_` of each pointer.
  pub slots : List ℕ

abbrev put_count : Pointers → ℕ → ℕ → Pointers
put_count h o n = record h { ref_count = λ p. if p == o then n else h.ref_count p }

-- `JxxClassTemplateNE::AddRef`.
unfoldable pub add_ref : Pointers → ℕ → Pointers
add_ref h o = put_count h o ((h.ref_count o + 1) % 2 ^ 32)

-- `JxxClassTemplateNE::Release`.
unfoldable pub release : Pointers → ℕ → Pointers
release h o =
    let rc = (h.ref_count o + 2 ^ 32 - 1) % 2 ^ 32 in
    let h' = put_count h o rc in
    if rc == 0 then record h' { deleted = λ p. if p == o then true else h.deleted p } else h'

abbrev pub get : Pointers → ℕ → ℕ
get h i = get_or h.slots i 0

abbrev put : Pointers → ℕ → ℕ → Pointers
put h i o = record h { slots = set h.slots i o }

-- `if (old) old->Release();`
abbrev drop_old : Pointers → ℕ → Pointers
drop_old h old = if old == 0 then h else release h old

-- `reset()`.
unfoldable pub reset : Pointers → ℕ → Pointers
unfolding release
reset h i = drop_old (put h i 0) (get h i)

-- `reset(ptr, ref)`.
unfoldable pub reset_to : Pointers → ℕ → ℕ → Bool → Pointers
unfolding add_ref release
reset_to h i ptr ref =
    let h' = put h i ptr in
    drop_old (if ptr == 0 then h' else if ref then add_ref h' ptr else h') (get h i)

-- `JxxObjectPtr(JxxObject_*)`, into a slot that is not alive.
unfoldable pub construct : Pointers → ℕ → ℕ → Pointers
unfolding reset_to
construct h i ptr = reset_to h i ptr true

-- `JxxObjectPtr(const JxxObjectPtr&)`.
unfoldable pub copy : Pointers → ℕ → ℕ → Pointers
unfolding reset_to
copy h i r = reset_to h i (get h r) true

-- `detach()`, which answers with the pointer.
unfoldable pub detach : Pointers → ℕ → ℕ × Pointers
detach h i = (get h i, put h i 0)

-- `JxxObjectPtr(JxxObjectPtr&&)`.
unfoldable pub move : Pointers → ℕ → ℕ → Pointers
unfolding detach
move h i r = let (ptr, h') = detach h r in put h' i ptr

-- `attach(ptr)`.
unfoldable pub attach : Pointers → ℕ → ℕ → Pointers
unfolding reset_to
attach h i ptr = reset_to h i ptr false

-- `~JxxObjectPtr()`.
unfoldable pub destroy : Pointers → ℕ → Pointers
unfolding reset
destroy h i = reset h i

-- The conversions between pointers of different classes, for the class of each object and the class
-- that the pointer has. Part of an object counts with it, so both have one address.
module _ (class_of : ℕ → JxxClass) (clsid : ℕ) where
  -- `query_cast`. `none` is a call of a member of a null pointer.
  unfoldable pub query_cast : ℕ → Option ℕ
  unfolding query_class
  query_cast ptr =
      if ptr == 0
      then none
      else some (elim (query_class (class_of ptr) clsid) [ none ↦ 0 | some path ↦ ptr ])

  -- `reset(K*, ref)`.
  unfoldable pub reset_cast : Pointers → ℕ → ℕ → Bool → Option Pointers
  unfolding query_cast reset_to
  reset_cast h i ptr ref = elim (query_cast ptr) [
    | none ↦ none
    | some np ↦ some (reset_to h i np ref)
  ]

  -- `reset(const JxxObjectPtr<K>&)`.
  unfoldable pub reset_copy : Pointers → ℕ → ℕ → Option Pointers
  unfolding query_cast reset_to
  reset_copy h i r = elim (query_cast (get h r)) [
    | none ↦ none
    | some np ↦ some (reset_to h i np true)
  ]

  -- `reset(JxxObjectPtr<K>&&)`.
  unfoldable pub reset_move : Pointers → ℕ → ℕ → Option Pointers
  unfolding query_cast detach reset_to
  reset_move h i r = elim (query_cast (get h r)) [
    | none ↦ none
    | some np ↦ some (reset_to (if np == 0 then h else (detach h r).1) i np false)
  ]

  -- The two constructors from a pointer of another class, into a slot that is not alive. The second
  -- has a name for what it moves from, and so it copies too.
  unfoldable pub construct_copy : Pointers → ℕ → ℕ → Option Pointers
  unfolding reset_copy
  construct_copy h i r = reset_copy h i r

  unfoldable pub construct_move : Pointers → ℕ → ℕ → Option Pointers
  unfolding reset_copy
  construct_move h i r = reset_copy h i r
