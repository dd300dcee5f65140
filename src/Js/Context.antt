-- ===== src/Js/Context.antt =====
-- js.context.h: contexts, and the scope that enters one and goes back.
pub mod Scopes
use chakra_jxx.Base.{ℕ, Bool, true, false, not, ◌==◌, if◌then◌else◌}
use chakra_jxx.Js.Jsrt.{Jsrt, JsValueRef, nullptr}

-- `Context::Scope`.
pub record Scope : Type 0 where
  pub prev : JsValueRef
  pub entered : Bool

module _ {E : Type 0} (js : Jsrt E) where
  -- `GetData`: 0 is the null pointer.
  unfoldable pub get_data : E → JsValueRef → ℕ
  get_data e context = (js.get_context_data e context).1

  -- `Current`.
  unfoldable pub current : E → JsValueRef
  current e = let (err, now) = js.get_current_context e in if not (err == 0) then nullptr else now

  -- `Create`.
  unfoldable pub create : E → JsValueRef → ℕ → JsValueRef × E
  create e handle cookie =
      let (err, out, e') = js.create_context e handle in
      if not (err == 0)
      then (out, e')
      else if cookie == 0
      then (out, e')
      else let (err', e'') = js.set_context_data e' out cookie in
        (if not (err' == 0) then nullptr else out, e'')

  -- `Global`.
  unfoldable pub global : E → JsValueRef
  global e = (js.get_global_object e).1

  -- `From`.
  unfoldable pub from : E → JsValueRef → JsValueRef
  from e object =
      let (err, out) = js.get_context_of_object e object in if not (err == 0) then nullptr else out

  -- `Scope(target)`.
  unfoldable pub enter : E → JsValueRef → Scope × E
  enter e target =
      let (err, prev) = js.get_current_context e in
      if not (err == 0)
      then (record { prev = nullptr; entered = false }, e)
      else let (err', e') = js.set_current_context e target in
        if not (err' == 0)
        then (record { prev = nullptr; entered = false }, e')
        else (record { prev = prev; entered = true }, e')

  -- `~Scope()`.
  unfoldable pub leave : E → Scope → E
  leave e s = if s.entered then (js.set_current_context e s.prev).1 else e

  -- `AddRef` and `Release`: the count after the call.
  unfoldable pub add_ref : E → JsValueRef → ℕ × E
  add_ref e context = let (rc, e') = js.add_ref e context in (rc, e')

  unfoldable pub release : E → JsValueRef → ℕ × E
  release e context = let (rc, e') = js.release e context in (rc, e')

-- `Runtime(Runtime&&)`: the new handle, and what it leaves in the other.
unfoldable pub move_runtime : JsValueRef → JsValueRef × JsValueRef
move_runtime r = (r, nullptr)

-- `Runtime`: the handle of an engine, null if none could be made.
module _ {E : Type 0} (js : Jsrt E) where
  unfoldable pub make_runtime : E → ℕ → JsValueRef × E
  make_runtime e attrs =
      let (err, handle, e') = js.create_runtime e attrs in
      (if not (err == 0) then nullptr else handle, e')

  -- `~Runtime`.
  unfoldable pub dispose_runtime : E → JsValueRef → E
  dispose_runtime e runtime = if runtime == nullptr then e else (js.dispose_runtime e runtime).1

  -- `Runtime::CreateContext`.
  unfoldable pub context_of_runtime : E → JsValueRef → ℕ → JsValueRef × E
  unfolding create
  context_of_runtime e runtime data' = create js e runtime data'
