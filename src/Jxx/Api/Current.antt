-- ===== src/Jxx/Api/Current.antt =====
-- The runtime that a context belongs to, and what the API hands out in it.
use chakra_jxx.Base.{ℕ, String, ◌≡◌, ◌≢◌, true, arith, returned}
use chakra_jxx.Js.Jsrt.{Jsrt, JsValueRef, nullptr}
use chakra_jxx.Js.Context
use chakra_jxx.Js.Context.Scopes.{Switches}
use chakra_jxx.Jxx.Api.{Host, cache_of, get_current_runtime, create_context, alloc_string}
use chakra_jxx.Jxx.ValueCache.Interning.{get_string_twice}

-- The data of a context stays when the context is made the current one, and a context that could
-- not be made is null.
pub record KeepsData {E : Type 0} (js : Jsrt E) : Type 0 where
  pub keeps_data :
      (e : E) (c : JsValueRef) (cookie : ℕ)
      → (let (err, e') = js.set_context_data e c cookie in
          err ≡ 0 → js.get_context_data (js.set_current_context e' c).1 c ≡ (0, cookie))
  pub failed_null :
      (e : E) (handle : JsValueRef)
      → (js.create_context e handle).0 ≢ 0
      → (js.create_context e handle).1 ≡ nullptr

module _ {E : Type 0} (js : Jsrt E) where
  entered-runtime :
      (e : E) (ctx : JsValueRef) (runtime : ℕ)
      → Switches js
      → ctx ≢ nullptr
      → (Context.enter js e ctx).0.entered ≡ true
      → js.get_context_data (js.set_current_context e ctx).1 ctx ≡ (0, runtime)
      → get_current_runtime js (Context.enter js e ctx).1 ≡ runtime
  unfolding get_current_runtime Context.enter
  entered-runtime e ctx runtime switches made entered known =
      ground (arith, switches.get_set e ctx, known)

  create-data :
      (e : E) (handle : JsValueRef) (runtime : ℕ)
      → KeepsData js
      → runtime ≢ 0
      → let (out, e') = Context.create js e handle runtime in
        out ≢ nullptr → js.get_context_data (js.set_current_context e' out).1 out ≡ (0, runtime)
  unfolding Context.create
  create-data e handle runtime keeps given made =
      let (err, out, e') = js.create_context e handle in
      ground (arith, keeps.keeps_data e' out runtime, keeps.failed_null e handle)

module _ {E P : Type 0} (js : Jsrt E) where
  -- The scope of the context that is made, and the engine in it.
  abbrev pub entered_in : ℕ → Host E P → Context.Scope × E
  entered_in runtime h =
      let (ctx, h') = create_context js runtime h in Context.enter js h'.engine ctx

  -- Where a context that is set is current, and the data of a context stays: in a context that
  -- `JxxCreateContext` has made for a runtime, once it is entered, `JxxGetCurrentRuntime` answers
  -- with that runtime.
  pub get_current_runtime-create_context :
      (runtime : ℕ) (h : Host E P)
      → Switches js
      → KeepsData js
      → runtime ≢ 0
      → (create_context js runtime h).0 ≢ nullptr
      → (entered_in runtime h).0.entered ≡ true
      → get_current_runtime js (entered_in runtime h).1 ≡ runtime
  unfolding create_context
  get_current_runtime-create_context runtime h switches keeps given made entered =
      let handle = (h.members runtime).handle in
      let (out, e') = Context.create js h.engine handle runtime in
      ground (
        arith,
        entered-runtime js e' out runtime switches,
        create-data js h.engine handle runtime keeps,
      )

  -- A text that `JxxAllocString` has answered for with a string is answered for with the same
  -- string from then on, as long as the runtime of the current context is the same.
  pub alloc_string_twice :
      (text : String) (v : JsValueRef) (h : Host E P)
      → (alloc_string js text h).0 ≡ returned v
      → v ≢ nullptr
      → get_current_runtime js (alloc_string js text h).1.engine ≡ get_current_runtime js h.engine
      → (alloc_string js text (alloc_string js text h).1).0 ≡ returned v
  unfolding alloc_string
  alloc_string_twice text v h done n same =
      let rt = get_current_runtime js h.engine in
      let twice = get_string_twice js (cache_of rt h) text v in ground (arith, twice)
