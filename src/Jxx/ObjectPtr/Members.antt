-- ===== src/Jxx/ObjectPtr/Members.antt =====
-- Every member of `JxxObjectPtr` that changes a pointer.
use chakra_jxx.Base.{
  ℕ, ◌+◌, ◌-◌, ◌<◌, ◌≡◌, ◌≢◌, refl, true, false, inl, inr, Option, some, Option-cases, length,
  arith,
}
use chakra_jxx.Base.Holders.{one_if}
use chakra_jxx.Jxx.Class.{JxxClass, query_class}
use chakra_jxx.Jxx.ObjectPtr.{
  Pointers, get, reset, reset_to, construct, copy, detach, move, attach, destroy, query_cast,
  reset_cast, reset_copy, reset_move, construct_copy, construct_move,
}
use chakra_jxx.Jxx.ObjectPtr.Lifetime.{
  IsSound, HasRoom, IsAlive, reset_to-IsSound, reset-IsSound, copy-IsSound, move-IsSound,
  attach-IsSound, detach-IsSound,
}
use chakra_jxx.Jxx.ObjectPtr.Conversions.{
  cast_of, cast_of-IsAlive, emptied-IsSound, reset_copy-IsSound, reset_move-IsSound,
}

-- A call of a member. A pointer is made of an object that is alive, and takes over one whose
-- reference somebody else owns. Those that convert have the class of the pointer that they change,
-- and are called with what is not null; one that moves does so from another pointer.
pub data Call (others : ℕ → ℕ) (h : Pointers) : Type 0 where
  constructs : (i ptr : ℕ) → i < length h.slots → IsAlive h ptr → Call others h
  copies : (i r : ℕ) → i < length h.slots → Call others h
  moves : (i r : ℕ) → i < length h.slots → r < length h.slots → get h i ≡ 0 → Call others h
  copies_as : (clsid i r : ℕ) → i < length h.slots → get h r ≢ 0 → Call others h
  moves_as : (clsid i r : ℕ) → i < length h.slots → get h r ≢ 0 → Call others h
  destroys : (i : ℕ) → i < length h.slots → Call others h
  attaches : (i ptr : ℕ) → i < length h.slots → 0 < others ptr → Call others h
  detaches : (i : ℕ) → i < length h.slots → Call others h
  resets : (i : ℕ) → i < length h.slots → Call others h
  resets_to : (i ptr : ℕ) → i < length h.slots → IsAlive h ptr → Call others h
  casts : (clsid i ptr : ℕ) → i < length h.slots → ptr ≢ 0 → IsAlive h ptr → Call others h
  casts_given : (clsid i ptr : ℕ) → i < length h.slots → ptr ≢ 0 → 0 < others ptr → Call others h
  resets_copy : (clsid i r : ℕ) → i < length h.slots → get h r ≢ 0 → Call others h
  resets_move :
      (clsid i r : ℕ)
      → i < length h.slots
      → r < length h.slots
      → i ≢ r
      → get h r ≢ 0
      → Call others h

module _ (class_of : ℕ → JxxClass) where
  -- The pointers after a call. `none` is a call of a member of a null pointer.
  abbrev pub after : (others : ℕ → ℕ) (h : Pointers) → Call others h → Option Pointers
  after others h (constructs i ptr live alive) = some (construct h i ptr)
  after others h (copies i r live) = some (copy h i r)
  after others h (moves i r live live' fresh) = some (move h i r)
  after others h (copies_as clsid i r live real) = construct_copy class_of clsid h i r
  after others h (moves_as clsid i r live real) = construct_move class_of clsid h i r
  after others h (destroys i live) = some (destroy h i)
  after others h (attaches i ptr live given) = some (attach h i ptr)
  after others h (detaches i live) = some (detach h i).1
  after others h (resets i live) = some (reset h i)
  after others h (resets_to i ptr live alive) = some (reset_to h i ptr true)
  after others h (casts clsid i ptr live real alive) = reset_cast class_of clsid h i ptr true
  after others h (casts_given clsid i ptr live real given) = reset_cast class_of clsid h i ptr false
  after others h (resets_copy clsid i r live real) = reset_copy class_of clsid h i r
  after others h (resets_move clsid i r live live' apart real) = reset_move class_of clsid h i r

  -- The references of others after a call: an object that does not have the class is not taken
  -- over.
  abbrev pub others_after : (others : ℕ → ℕ) (h : Pointers) → Call others h → ℕ → ℕ
  others_after others h (attaches i ptr live given) = λ o. others o - one_if o ptr
  others_after others h (casts_given clsid i ptr live real given) =
      λ o. others o - one_if o (cast_of class_of clsid ptr)
  others_after others h (detaches i live) = λ o. others o + one_if o (detach h i).0
  others_after others h c = others

  reset_cast-IsSound :
      (clsid : ℕ) (others : ℕ → ℕ) (h : Pointers) (i ptr : ℕ)
      → i < length h.slots
      → ptr ≢ 0
      → HasRoom h
      → IsAlive h ptr
      → IsSound others h
      → (h' : Pointers) × (reset_cast class_of clsid h i ptr true ≡ some h') × IsSound others h'
  unfolding reset_cast query_cast
  reset_cast-IsSound clsid others h i ptr live real room alive s = (
    reset_to h i (cast_of class_of clsid ptr) true,
    ground arith,
    reset_to-IsSound others h i (cast_of class_of clsid ptr) live room
        (cast_of-IsAlive class_of clsid h ptr alive) s,
  )

  given_cast-IsSound :
      (clsid : ℕ) (others : ℕ → ℕ) (h : Pointers) (i ptr : ℕ)
      → i < length h.slots
      → ptr ≢ 0
      → HasRoom h
      → 0 < others ptr
      → IsSound others h
      → (h' : Pointers) × (reset_cast class_of clsid h i ptr false ≡ some h')
        × IsSound (λ o. others o - one_if o (cast_of class_of clsid ptr)) h'
  unfolding reset_cast query_cast attach
  given_cast-IsSound clsid others h i ptr live real room given s =
      elim (Option-cases (query_class (class_of ptr) clsid)) [
        | inl unknown ↦ (
          reset_to h i 0 false,
          ground (arith, unknown),
          λ o n. ground (arith, unknown, emptied-IsSound class_of clsid others h i live room s o n),
        )
        | inr (path, known) ↦ (
          reset_to h i ptr false,
          ground (arith, known),
          λ o n. ground (arith, known, attach-IsSound others h i ptr live room given s o n),
        )
      ]

  -- Where no count is about to wrap, every call of a member of `JxxObjectPtr` that is made as its
  -- constructor asks, a conversion between pointers of different classes included, comes back, and
  -- keeps the count of each object equal to the number of references to it; it deletes no object
  -- that has one.
  pub after-IsSound :
      (others : ℕ → ℕ) (h : Pointers) (c : Call others h)
      → HasRoom h
      → IsSound others h
      → (h' : Pointers) × (after others h c ≡ some h') × IsSound (others_after others h c) h'
  unfolding construct destroy construct_copy construct_move
  after-IsSound others h (constructs i ptr live alive) room s =
      (construct h i ptr, refl, reset_to-IsSound others h i ptr live room alive s)
  after-IsSound others h (copies i r live) room s =
      (copy h i r, refl, copy-IsSound others h i r live room s)
  after-IsSound others h (moves i r live live' fresh) room s =
      (move h i r, refl, move-IsSound others h i r live live' fresh s)
  after-IsSound others h (copies_as clsid i r live real) room s =
      let (h', done, s', held) = reset_copy-IsSound class_of clsid others h i r live real room s in
      (h', done, s')
  after-IsSound others h (moves_as clsid i r live real) room s =
      let (h', done, s', held) = reset_copy-IsSound class_of clsid others h i r live real room s in
      (h', done, s')
  after-IsSound others h (destroys i live) room s =
      (destroy h i, refl, reset-IsSound others h i live room s)
  after-IsSound others h (attaches i ptr live given) room s =
      (attach h i ptr, refl, attach-IsSound others h i ptr live room given s)
  after-IsSound others h (detaches i live) room s =
      ((detach h i).1, refl, detach-IsSound others h i live s)
  after-IsSound others h (resets i live) room s =
      (reset h i, refl, reset-IsSound others h i live room s)
  after-IsSound others h (resets_to i ptr live alive) room s =
      (reset_to h i ptr true, refl, reset_to-IsSound others h i ptr live room alive s)
  after-IsSound others h (casts clsid i ptr live real alive) room s =
      reset_cast-IsSound clsid others h i ptr live real room alive s
  after-IsSound others h (casts_given clsid i ptr live real given) room s =
      given_cast-IsSound clsid others h i ptr live real room given s
  after-IsSound others h (resets_copy clsid i r live real) room s =
      let (h', done, s', held) = reset_copy-IsSound class_of clsid others h i r live real room s in
      (h', done, s')
  after-IsSound others h (resets_move clsid i r live live' apart real) room s =
      let (h', done, s', held, left) =
        reset_move-IsSound class_of clsid others h i r live live' apart real room s in
      (h', done, s')
