-- ===== src/Js/Durable/Balance.antt =====
-- Every handle that is alive counts once with the engine, and nothing else does.
use chakra_jxx.Base.{
  ℕ, ◌+◌, ◌-◌, ◌<◌, ◌≡◌, ◌≢◌, arith, set, length, length-set, get_or-set_self, get_or-set_ne,
}
use chakra_jxx.Base.Holders.{one_if, holders, holders-set, get_or-set_of_get_or}
use chakra_jxx.Js.Jsrt.{Jsrt, JsValueRef, nullptr}
use chakra_jxx.Js.Durable.{
  Handles, ref_, hold, construct, copy, swap, move_construct, destroy, reset, copy_assign,
  move_assign,
}

-- A count of references that `JsAddRef` and `JsRelease` keep: one up, and one down.
pub record Counts {E : Type 0} (js : Jsrt E) (refs : E → JsValueRef → ℕ) : Type 0 where
  pub refs_add_ref : (e : E) (v w : JsValueRef) → refs (js.add_ref e v).1 w ≡ refs e w + one_if w v
  pub refs_release : (e : E) (v w : JsValueRef) → refs (js.release e v).1 w ≡ refs e w - one_if w v

module _ {E : Type 0} (refs : E → JsValueRef → ℕ) (others : JsValueRef → ℕ) where
  -- `others` counts the references that belong to somebody else.
  abbrev pub IsBalanced : Handles E → Type 0
  IsBalanced h = (v : JsValueRef) → v ≢ nullptr → refs h.engine v ≡ others v + holders v h.slots

module _ {E : Type 0} (js : Jsrt E) where
  -- The members of `Durable` that a program calls on handles: the constructors from a value and
  -- from another handle, the destructor, `reset` and the two assignments.
  pub data Call (h : Handles E) : Type 0 where
    constructs : (i : ℕ) (ref : JsValueRef) → i < length h.slots → ref_ js h i ≡ nullptr → Call h
    copies : (i r : ℕ) → i < length h.slots → ref_ js h i ≡ nullptr → Call h
    move_constructs :
        (i r : ℕ) → i < length h.slots → r < length h.slots → ref_ js h i ≡ nullptr → Call h
    destroys : (i : ℕ) → i < length h.slots → Call h
    resets : (i : ℕ) → i < length h.slots → Call h
    copy_assigns : (i r : ℕ) → i < length h.slots → Call h
    move_assigns : (i r : ℕ) → i < length h.slots → r < length h.slots → Call h

  abbrev pub after : (h : Handles E) → Call h → Handles E
  after h (constructs i ref live fresh) = construct js h i ref
  after h (copies i r live fresh) = copy js h i r
  after h (move_constructs i r live live' fresh) = move_construct js h i r
  after h (destroys i live) = destroy js h i
  after h (resets i live) = reset js h i
  after h (copy_assigns i r live) = copy_assign js h i r
  after h (move_assigns i r live live') = move_assign js h i r

module _ {E : Type 0} (js : Jsrt E) (refs : E → JsValueRef → ℕ) (counts : Counts js refs)
    (others : JsValueRef → ℕ) where
  construct-IsBalanced :
      (h : Handles E) (i : ℕ) (ref : JsValueRef)
      → i < length h.slots
      → ref_ js h i ≡ nullptr
      → IsBalanced refs others h
      → IsBalanced refs others (construct js h i ref)
  unfolding construct
  construct-IsBalanced h i ref live fresh b v n = ground (
    arith,
    b v n,
    holders-set v ref h.slots i live,
    get_or-set_self h.slots i ref nullptr live,
    counts.refs_add_ref h.engine ref v,
  )

  reset-IsBalanced :
      (h : Handles E) (i : ℕ)
      → i < length h.slots
      → IsBalanced refs others h
      → IsBalanced refs others (reset js h i)
  unfolding reset
  reset-IsBalanced h i live b v n = ground (
    arith,
    b v n,
    holders-set v nullptr h.slots i live,
    counts.refs_release h.engine (ref_ js h i) v,
  )

  destroy-IsBalanced :
      (h : Handles E) (i : ℕ)
      → i < length h.slots
      → IsBalanced refs others h
      → IsBalanced refs others (destroy js h i)
  unfolding destroy reset
  destroy-IsBalanced h i live b = reset-IsBalanced h i live b

  copy-IsBalanced :
      (h : Handles E) (i r : ℕ)
      → i < length h.slots
      → ref_ js h i ≡ nullptr
      → IsBalanced refs others h
      → IsBalanced refs others (copy js h i r)
  unfolding copy construct
  copy-IsBalanced h i r live fresh b = construct-IsBalanced h i (ref_ js h r) live fresh b

  swap-IsBalanced :
      (h : Handles E) (i r : ℕ)
      → i < length h.slots
      → r < length h.slots
      → IsBalanced refs others h
      → IsBalanced refs others (swap js h i r)
  unfolding swap
  swap-IsBalanced h i r live live' b v n = ground (
    arith,
    b v n,
    holders-set v (ref_ js h r) h.slots i live,
    holders-set v (ref_ js h i) (set h.slots i (ref_ js h r)) r (rw length-set live'),
    get_or-set_of_get_or h.slots i r live',
  )

  reset_null : (h : Handles E) (i : ℕ) → i < length h.slots → ref_ js (reset js h i) i ≡ nullptr
  unfolding reset
  reset_null h i live = ground (arith, get_or-set_self h.slots i nullptr nullptr live)

  length-reset : (h : Handles E) (i : ℕ) → length (reset js h i).slots ≡ length h.slots
  unfolding reset
  length-reset h i = ground (arith, length-set h.slots i nullptr)

  copy_assign-IsBalanced :
      (h : Handles E) (i r : ℕ)
      → i < length h.slots
      → IsBalanced refs others h
      → IsBalanced refs others (copy_assign js h i r)
  unfolding copy_assign construct
  copy_assign-IsBalanced h i r live b =
      construct-IsBalanced (reset js h i) i (ref_ js (reset js h i) r) (rw length-reset live)
        (reset_null h i live) (reset-IsBalanced h i live b)

  move_assign-IsBalanced :
      (h : Handles E) (i r : ℕ)
      → i < length h.slots
      → r < length h.slots
      → IsBalanced refs others h
      → IsBalanced refs others (move_assign js h i r)
  unfolding move_assign
  move_assign-IsBalanced h i r live live' b =
      swap-IsBalanced (reset js h i) i r (rw length-reset live) (rw length-reset live')
        (reset-IsBalanced h i live b)

  -- Where `JsAddRef` and `JsRelease` change the count of their value by one, every call of every
  -- member on slots that there are, aliased arguments included, keeps the engine's count of each
  -- value equal to the number of handles that hold it and the references of others.
  pub after-IsBalanced :
      (h : Handles E) (c : Call js h)
      → IsBalanced refs others h
      → IsBalanced refs others (after js h c)
  unfolding move_construct
  after-IsBalanced h (constructs i ref live fresh) b = construct-IsBalanced h i ref live fresh b
  after-IsBalanced h (copies i r live fresh) b = copy-IsBalanced h i r live fresh b
  after-IsBalanced h (move_constructs i r live live' fresh) b = swap-IsBalanced h i r live live' b
  after-IsBalanced h (destroys i live) b = destroy-IsBalanced h i live b
  after-IsBalanced h (resets i live) b = reset-IsBalanced h i live b
  after-IsBalanced h (copy_assigns i r live) b = copy_assign-IsBalanced h i r live b
  after-IsBalanced h (move_assigns i r live live') b = move_assign-IsBalanced h i r live live' b

module _ {E : Type 0} (js : Jsrt E) where
  -- Assigning one handle to another makes both hold what the source held.
  copy_assign_ne :
      (h : Handles E) (i r : ℕ)
      → i < length h.slots
      → i ≢ r
      → (ref_ js (copy_assign js h i r) i ≡ ref_ js h r)
        × (ref_ js (copy_assign js h i r) r ≡ ref_ js h r)
  unfolding copy_assign reset hold
  copy_assign_ne h i r live n = ground (
    arith,
    get_or-set_self h.slots i (ref_ js h r) nullptr live,
    get_or-set_ne h.slots i r (ref_ js h r) nullptr n,
    get_or-set_ne h.slots i r nullptr nullptr n,
    get_or-set_self (set h.slots i nullptr) i (ref_ js h r) nullptr (rw length-set live),
    get_or-set_ne (set h.slots i nullptr) i r (ref_ js h r) nullptr n,
  )

  -- Assigning a handle to itself drops what it held: it is null after the call, whatever it was.
  copy_assign_self :
      (h : Handles E) (i : ℕ) → i < length h.slots → ref_ js (copy_assign js h i i) i ≡ nullptr
  unfolding copy_assign reset hold
  copy_assign_self h i live = ground (
    arith,
    get_or-set_self h.slots i nullptr nullptr live,
    get_or-set_self h.slots i (ref_ js h i) nullptr live,
    get_or-set_self (set h.slots i nullptr) i nullptr nullptr (rw length-set live),
  )
