-- ===== src/Js/Durable.antt =====
-- js.base.h: `Durable<T>`, a handle that counts as a reference, for the `T` of js.value.h. The
-- handles of the program are numbered slots; one that is not alive, or default, is null.
pub mod Balance
use chakra_jxx.Base.{ℕ, ◌≡◌, List, Bool, not, ◌==◌, if◌then◌else◌, get_or, set}
use chakra_jxx.Js.Jsrt.{Jsrt, JsValueRef, nullptr}

pub record Handles (E : Type 0) : Type 0 where
  pub engine : E
  pub slots : List JsValueRef

module _ {E : Type 0} (js : Jsrt E) where
  -- `base_value_::AddRef`.
  unfoldable pub add_ref : E → JsValueRef → ℕ × E
  add_ref e v = if v == nullptr then (0, e) else js.add_ref e v

  -- `base_value_::Release`.
  unfoldable pub release : E → JsValueRef → ℕ × E
  release e v = if v == nullptr then (0, e) else js.release e v

  abbrev pub ref_ : Handles E → ℕ → JsValueRef
  ref_ h i = get_or h.slots i nullptr

  -- `ref_ = v`.
  abbrev pub put : Handles E → ℕ → JsValueRef → Handles E
  put h i v = record h { slots = set h.slots i v }

  -- `if (!ref_) return; ref_.AddRef();`
  unfoldable pub hold : Handles E → ℕ → Handles E
  unfolding add_ref
  hold h i =
      if ref_ h i == nullptr then h else record h { engine = (add_ref h.engine (ref_ h i)).1 }

  -- `Durable(T ref)`, into a slot that is not alive.
  unfoldable pub construct : Handles E → ℕ → JsValueRef → Handles E
  unfolding hold
  construct h i ref = hold (put h i ref) i

  -- `Durable(const Durable& r)`.
  unfoldable pub copy : Handles E → ℕ → ℕ → Handles E
  unfolding hold
  copy h i r = hold (put h i (ref_ h r)) i

  -- `std::swap(ref_, r.ref_)`.
  unfoldable pub swap : Handles E → ℕ → ℕ → Handles E
  swap h i r = put (put h i (ref_ h r)) r (ref_ h i)

  -- `Durable(Durable&& r)`, into a slot that is not alive.
  unfoldable pub move_construct : Handles E → ℕ → ℕ → Handles E
  unfolding swap
  move_construct h i r = swap h i r

  -- `~Durable()`.
  unfoldable pub destroy : Handles E → ℕ → Handles E
  unfolding release
  destroy h i =
      if ref_ h i == nullptr
      then h
      else put (record h { engine = (release h.engine (ref_ h i)).1 }) i nullptr

  -- `reset()`.
  unfoldable pub reset : Handles E → ℕ → Handles E
  unfolding release
  reset h i =
      if ref_ h i == nullptr
      then h
      else put (record h { engine = (release h.engine (ref_ h i)).1 }) i nullptr

  -- `operator=(const Durable& r)`. It reads `r` after the reset.
  unfoldable pub copy_assign : Handles E → ℕ → ℕ → Handles E
  unfolding reset hold
  copy_assign h i r = let h' = reset h i in hold (put h' i (ref_ h' r)) i

  -- `operator=(Durable&& r)`.
  unfoldable pub move_assign : Handles E → ℕ → ℕ → Handles E
  unfolding reset swap
  move_assign h i r = swap (reset h i) i r
