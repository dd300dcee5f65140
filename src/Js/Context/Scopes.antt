-- ===== src/Js/Context/Scopes.antt =====
-- Scopes put the current context back.
use chakra_jxx.Base.{◌≡◌, List, [], ◌∷◌, true, not, arith, ◌==◌}
use chakra_jxx.Js.Jsrt.{Jsrt, JsValueRef}
use chakra_jxx.Js.Context.{current, enter, leave}

-- How `JsSetCurrentContext` and `JsGetCurrentContext` work together: a successful set is what the
-- next query answers, a failed one changes nothing, and a context that was current can be set
-- again.
pub record Switches {E : Type 0} (js : Jsrt E) : Type 0 where
  pub get_set :
      (e : E) (c : JsValueRef)
      → (js.set_current_context e c).0 ≡ 0
      → js.get_current_context (js.set_current_context e c).1 ≡ (0, c)
  pub get_failed :
      (e : E) (c : JsValueRef)
      → (not ((js.set_current_context e c).0 == 0)) ≡ true
      → js.get_current_context (js.set_current_context e c).1 ≡ js.get_current_context e
  pub set_prev :
      (e e' : E)
      → (js.get_current_context e).0 ≡ 0
      → (js.set_current_context e' (js.get_current_context e).1).0 ≡ 0

module _ {E : Type 0} (js : Jsrt E) where
  -- A stack of scopes, entered in turn around some work and left in the opposite order.
  unfoldable pub nested : List JsValueRef → (E → E) → E → E
  nested [] work e = work e
  nested (target ∷ targets) work e =
      let (s, e') = enter js e target in leave js (nested targets work e') s

module _ {E : Type 0} (js : Jsrt E) (switches : Switches js) where
  enter-leave :
      (e : E) (target : JsValueRef) (body : E → E)
      → ((x : E) → current js (body x) ≡ current js x)
      → current js (leave js (body (enter js e target).1) (enter js e target).0) ≡ current js e
  unfolding enter leave current
  enter-leave e target body keeps =
      let e' = (js.set_current_context e target).1 in
      let prev = (js.get_current_context e).1 in
      ground (
        arith,
        keeps e,
        keeps e',
        switches.get_failed e target,
        switches.get_set (body e') prev,
        switches.set_prev e (body e'),
      )

  -- Where a context that is set is current, a setting that fails changes nothing, and a context
  -- that was current can be set again: whatever contexts are entered in turn around some work, and
  -- whether or not each can be entered, the current context after the scopes are left is the one
  -- before, if the work itself keeps it.
  pub current-nested :
      (targets : List JsValueRef) (work : E → E) (e : E)
      → ((x : E) → current js (work x) ≡ current js x)
      → current js (nested js targets work e) ≡ current js e
  unfolding nested
  current-nested [] work e keeps = keeps e
  current-nested (target ∷ targets) work e keeps =
      enter-leave e target (nested js targets work) (λ x. current-nested targets work x keeps)
