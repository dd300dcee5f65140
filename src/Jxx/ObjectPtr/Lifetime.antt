-- ===== src/Jxx/ObjectPtr/Lifetime.antt =====
-- An object lives as long as somebody holds it.
use chakra_jxx.Base.{
  ℕ, ◌+◌, ◌-◌, ◌^◌, ◌<◌, ◌≡◌, ◌≢◌, true, false, ◌⊎◌, inl, inr, ℕ_discrete, set, length, length-set,
  arith,
}
use chakra_jxx.Base.Holders.{one_if, holders, holders-set, holders-held, get_or-set_of_get_or}
use chakra_jxx.Jxx.ObjectPtr.{Pointers, get, reset, reset_to, copy, detach, move, attach}

-- The references to an object: those of the pointers, and `others`, which somebody else has to
-- release.
abbrev pub total : (ℕ → ℕ) → Pointers → ℕ → ℕ
total others h o = others o + holders o h.slots

-- The counts are the references, and an object with one is not deleted.
abbrev pub IsSound : (ℕ → ℕ) → Pointers → Type 0
IsSound others h =
    (o : ℕ)
    → o ≢ 0
    → (h.ref_count o ≡ total others h o) × (0 < total others h o → h.deleted o ≡ false)

-- No count is about to wrap.
abbrev pub HasRoom : Pointers → Type 0
HasRoom h = (o : ℕ) → h.ref_count o + 1 < 2 ^ 32

abbrev pub IsAlive : Pointers → ℕ → Type 0
IsAlive h ptr = (ptr ≡ 0) ⊎ (h.deleted ptr ≡ false)

pub reset_to-IsSound :
    (others : ℕ → ℕ) (h : Pointers) (i ptr : ℕ)
    → i < length h.slots
    → HasRoom h
    → IsAlive h ptr
    → IsSound others h
    → IsSound others (reset_to h i ptr true)
unfolding reset_to
reset_to-IsSound others h i ptr live room alive s o n =
    ground (arith, s o n, room o, alive, holders-set o ptr h.slots i live)

pub reset-IsSound :
    (others : ℕ → ℕ) (h : Pointers) (i : ℕ)
    → i < length h.slots
    → HasRoom h
    → IsSound others h
    → IsSound others (reset h i)
unfolding reset
reset-IsSound others h i live room s o n =
    ground (arith, s o n, room o, holders-set o 0 h.slots i live)

-- What a pointer holds is alive.
pub held-IsAlive : (others : ℕ → ℕ) (h : Pointers) (r : ℕ) → IsSound others h → IsAlive h (get h r)
held-IsAlive others h r s = elim (ℕ_discrete (get h r) 0) [
  | yes e ↦ inl e
  | no n ↦ inr (ground (arith, s (get h r) n, holders-held h.slots r n))
]

pub copy-IsSound :
    (others : ℕ → ℕ) (h : Pointers) (i r : ℕ)
    → i < length h.slots
    → HasRoom h
    → IsSound others h
    → IsSound others (copy h i r)
unfolding copy
copy-IsSound others h i r live room s =
    reset_to-IsSound others h i (get h r) live room (held-IsAlive others h r s) s

pub move-IsSound :
    (others : ℕ → ℕ) (h : Pointers) (i r : ℕ)
    → i < length h.slots
    → r < length h.slots
    → get h i ≡ 0
    → IsSound others h
    → IsSound others (move h i r)
unfolding move
move-IsSound others h i r live live' fresh s o n = ground (
  arith,
  s o n,
  holders-set o 0 h.slots r live',
  holders-set o (get h r) (set h.slots r 0) i (rw length-set live),
  get_or-set_of_get_or h.slots r i live,
)

-- The one who attaches an object gives its reference to the pointer.
pub attach-IsSound :
    (others : ℕ → ℕ) (h : Pointers) (i ptr : ℕ)
    → i < length h.slots
    → HasRoom h
    → 0 < others ptr
    → IsSound others h
    → IsSound (λ o. others o - one_if o ptr) (attach h i ptr)
unfolding attach
attach-IsSound others h i ptr live room given s o n =
    ground (arith, s o n, room o, holders-set o ptr h.slots i live)

-- The one who detaches it takes the reference.
pub detach-IsSound :
    (others : ℕ → ℕ) (h : Pointers) (i : ℕ)
    → i < length h.slots
    → IsSound others h
    → IsSound (λ o. others o + one_if o (detach h i).0) (detach h i).1
unfolding detach
detach-IsSound others h i live s o n = ground (arith, s o n, holders-set o 0 h.slots i live)

-- Where the counts are the references and none is about to wrap, the last reference deletes its
-- object: once a reset has taken it away, `delete this` has run.
pub reset_deletes :
    (others : ℕ → ℕ) (h : Pointers) (i : ℕ)
    → i < length h.slots
    → HasRoom h
    → IsSound others h
    → get h i ≢ 0
    → total others h (get h i) ≡ 1
    → (reset h i).deleted (get h i) ≡ true
unfolding reset
reset_deletes others h i live room s held last = ground (arith, s (get h i) held, room (get h i))
