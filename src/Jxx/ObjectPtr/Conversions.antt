-- ===== src/Jxx/ObjectPtr/Conversions.antt =====
-- What a conversion between pointers of different classes does to the counts.
use chakra_jxx.Base.{
  ℕ, ◌<◌, ◌≡◌, ◌≢◌, refl, Bool, true, false, inl, inr, none, some, Option-cases, set, length,
  length-set, get_or-set_ne, get_or-set_self, arith, ◌==◌, if◌then◌else◌,
}
use chakra_jxx.Base.Holders.{holders-set}
use chakra_jxx.Jxx.Class.{JxxClass, query_class}
use chakra_jxx.Jxx.ObjectPtr.{Pointers, get, reset_to, detach, query_cast, reset_copy, reset_move}
use chakra_jxx.Jxx.ObjectPtr.Lifetime.{IsSound, HasRoom, IsAlive, reset_to-IsSound, held-IsAlive}

module _ (class_of : ℕ → JxxClass) (clsid : ℕ) where
  -- The object, if it has the class, and else a null pointer.
  abbrev pub cast_of : ℕ → ℕ
  cast_of ptr = elim (query_class (class_of ptr) clsid) [ none ↦ 0 | some path ↦ ptr ]

  pub cast_of-IsAlive : (h : Pointers) (ptr : ℕ) → IsAlive h ptr → IsAlive h (cast_of ptr)
  cast_of-IsAlive h ptr alive =
      elim (query_class (class_of ptr) clsid)
        as (λ found. IsAlive h (elim found [ none ↦ 0 | some path ↦ ptr ])) [
          | none ↦ inl refl
          | some path ↦ alive
        ]

  put_to :
      (h : Pointers) (i ptr : ℕ) (ref : Bool)
      → i < length h.slots
      → get (reset_to h i ptr ref) i ≡ ptr
  unfolding reset_to
  put_to h i ptr ref live = ground (arith, get_or-set_self h.slots i ptr 0 live)

  -- Where the counts are the references and none is about to wrap: a pointer that is assigned a
  -- pointer of another class, which is not null, holds the same object if that has the class, and
  -- else nothing. The counts stay right, and no object that has a reference is deleted.
  pub reset_copy-IsSound :
      (others : ℕ → ℕ) (h : Pointers) (i r : ℕ)
      → i < length h.slots
      → get h r ≢ 0
      → HasRoom h
      → IsSound others h
      → (h' : Pointers) × (reset_copy class_of clsid h i r ≡ some h')
        × IsSound others h'
        × (get h' i ≡ cast_of (get h r))
  unfolding reset_copy query_cast
  reset_copy-IsSound others h i r live real room s = (
    reset_to h i (cast_of (get h r)) true,
    ground arith,
    reset_to-IsSound others h i (cast_of (get h r)) live room
        (cast_of-IsAlive h (get h r) (held-IsAlive others h r s)) s,
    put_to h i (cast_of (get h r)) true live,
  )

  -- A pointer that gives its reference away, and one that takes it.
  given-IsSound :
      (others : ℕ → ℕ) (h : Pointers) (i r : ℕ)
      → i < length h.slots
      → r < length h.slots
      → i ≢ r
      → get h r ≢ 0
      → HasRoom h
      → IsSound others h
      → IsSound others (reset_to (detach h r).1 i (get h r) false)
  unfolding reset_to detach
  given-IsSound others h i r live live' apart real room s o n = ground (
    arith,
    s o n,
    room o,
    holders-set o 0 h.slots r live',
    holders-set o (get h r) (set h.slots r 0) i (rw length-set live),
    get_or-set_ne h.slots r i 0 0,
  )

  pub emptied-IsSound :
      (others : ℕ → ℕ) (h : Pointers) (i : ℕ)
      → i < length h.slots
      → HasRoom h
      → IsSound others h
      → IsSound others (reset_to h i 0 false)
  unfolding reset_to
  emptied-IsSound others h i live room s o n =
      ground (arith, s o n, room o, holders-set o 0 h.slots i live)

  -- What is left in another pointer by the assignment to one.
  left_in :
      (h : Pointers) (i r ptr : ℕ) (ref : Bool) → i ≢ r → get (reset_to h i ptr ref) r ≡ get h r
  unfolding reset_to
  left_in h i r ptr ref apart = ground (arith, get_or-set_ne h.slots i r ptr 0 apart)

  -- Where the counts are the references and none is about to wrap: a pointer that is assigned from
  -- another one of another class, which is not null and may be moved from, holds the same object if
  -- that has the class, and the other is null then; else it holds nothing, and the other keeps its
  -- object. The counts stay right, and no object that has a reference is deleted.
  pub reset_move-IsSound :
      (others : ℕ → ℕ) (h : Pointers) (i r : ℕ)
      → i < length h.slots
      → r < length h.slots
      → i ≢ r
      → get h r ≢ 0
      → HasRoom h
      → IsSound others h
      → (h' : Pointers) × (reset_move class_of clsid h i r ≡ some h')
        × IsSound others h'
        × (get h' i ≡ cast_of (get h r))
        × (get h' r ≡ (if cast_of (get h r) == 0 then get h r else 0))
  unfolding reset_move query_cast detach
  reset_move-IsSound others h i r live live' apart real room s =
      elim (Option-cases (query_class (class_of (get h r)) clsid)) [
        | inl unknown ↦ (
          reset_to h i 0 false,
          ground (arith, unknown),
          emptied-IsSound others h i live room s,
          ground (arith, unknown, put_to h i 0 false live),
          ground (arith, unknown, left_in h i r 0 false apart),
        )
        | inr (path, known) ↦ (
          reset_to (detach h r).1 i (get h r) false,
          ground (arith, known),
          given-IsSound others h i r live live' apart real room s,
          ground (arith, known, put_to (detach h r).1 i (get h r) false (rw length-set live)),
          ground (
            arith,
            known,
            left_in (detach h r).1 i r (get h r) false apart,
            get_or-set_self h.slots r 0 0 live',
          ),
        )
      ]
