-- ===== src/Jxx/Modules/Templates.antt =====
-- jxx.module.h: `CreateContextFor`, which gives a new context its template. `global_proto`, which
-- nothing declares, is a member of the class.
use chakra_jxx.Base.{
  ℕ, ◌≡◌, ◌≢◌, arith, ◌∙◌, ◌==◌, ◌||◌, if◌then◌else◌, Exec, ◌>>=◌, pure, returned, ap, sym,
}
use chakra_jxx.Js.Jsrt.{Jsrt, JsValueRef, nullptr}
use chakra_jxx.Js.Context
use chakra_jxx.Js.Object
use chakra_jxx.Js.Value.{base_value, set}
use chakra_jxx.Jxx.Api.{Host, on_engine, get_current_runtime, create_context}
use chakra_jxx.Jxx.Evaluate.{object, call}

-- `Global` is static: it answers with the global object of the current context.
module _ {E : Type 0} (js : Jsrt E) where
  -- What follows the creation of the context.
  unfoldable pub give_prototype : JsValueRef → JsValueRef → Exec E JsValueRef
  unfolding object Context.global Object.set_prototype
  give_prototype ctx global_proto =
      if ctx == nullptr || global_proto == nullptr then pure ctx else do
        global ← (λ e. object js (Context.global js e) e)
        if global == nullptr then pure nullptr else do
          done ← call js (λ e. Object.set_prototype js e global global_proto)
          pure (if done then ctx else nullptr)

module _ {E P : Type 0} (js : Jsrt E) where
  -- `CreateContextFor`, which does not read the `uri` that it is given.
  unfoldable pub create_context_for : JsValueRef → Exec (Host E P) JsValueRef
  unfolding create_context give_prototype
  create_context_for global_proto h =
      let (ctx, h') = create_context js 0 h in on_engine (give_prototype js ctx global_proto) h'

-- The prototypes of objects: making a context changes none, nor the context that is current, and
-- setting one makes it that of its object, if there is no error, and changes that of no other.
pub record Prototypes {E : Type 0} (js : Jsrt E) (proto_of : E → JsValueRef → JsValueRef)
    : Type 0 where
  pub proto_set :
      (e : E) (o proto w : JsValueRef)
      → w ≢ o
      → proto_of (js.set_prototype e o proto).1 w ≡ proto_of e w
  pub proto_set_self :
      (e : E) (o proto : JsValueRef)
      → (js.set_prototype e o proto).0 ≡ 0
      → proto_of (js.set_prototype e o proto).1 o ≡ proto
  pub proto_context :
      (e : E) (handle w : JsValueRef) → proto_of (js.create_context e handle).2 w ≡ proto_of e w
  pub proto_data :
      (e : E) (c : JsValueRef) (cookie : ℕ) (w : JsValueRef)
      → proto_of (js.set_context_data e c cookie).1 w ≡ proto_of e w
  pub global_context :
      (e : E) (handle : JsValueRef)
      → js.get_global_object (js.create_context e handle).2 ≡ js.get_global_object e
  pub global_data :
      (e : E) (c : JsValueRef) (cookie : ℕ)
      → js.get_global_object (js.set_context_data e c cookie).1 ≡ js.get_global_object e

module _ {E : Type 0} (js : Jsrt E) (proto_of : E → JsValueRef → JsValueRef)
    (prototypes : Prototypes js proto_of) where
  create-global :
      (e : E) (handle : JsValueRef) (cookie : ℕ)
      → Context.global js (Context.create js e handle cookie).1 ≡ Context.global js e
  unfolding Context.create Context.global
  create-global e handle cookie =
      let (err, out, e') = js.create_context e handle in
      ground (arith, prototypes.global_context e handle, prototypes.global_data e' out cookie)

  create-proto :
      (e : E) (handle : JsValueRef) (cookie : ℕ) (w : JsValueRef)
      → proto_of (Context.create js e handle cookie).1 w ≡ proto_of e w
  unfolding Context.create
  create-proto e handle cookie w =
      let (err, out, e') = js.create_context e handle in
      ground (arith, prototypes.proto_context e handle w, prototypes.proto_data e' out cookie w)

  give_prototype-proto :
      (ctx global_proto : JsValueRef) (e : E) (w : JsValueRef)
      → w ≢ Context.global js e
      → proto_of (give_prototype js ctx global_proto e).1 w ≡ proto_of e w
  unfolding give_prototype object base_value set
  give_prototype-proto ctx global_proto e w other =
      ground (arith, prototypes.proto_set e (Context.global js e) global_proto w other)

  give_prototype-global :
      (ctx global_proto answer : JsValueRef) (e : E)
      → (give_prototype js ctx global_proto e).0 ≡ returned answer
      → answer ≢ nullptr
      → global_proto ≢ nullptr
      → proto_of (give_prototype js ctx global_proto e).1 (Context.global js e) ≡ global_proto
  unfolding give_prototype object base_value set
  give_prototype-global ctx global_proto answer e done made given =
      ground (arith, done, prototypes.proto_set_self e (Context.global js e) global_proto)

module _ {E P : Type 0} (js : Jsrt E) (proto_of : E → JsValueRef → JsValueRef)
    (prototypes : Prototypes js proto_of) where
  create_context-global :
      (rt : ℕ) (h : Host E P)
      → Context.global js (create_context js rt h).1.engine ≡ Context.global js h.engine
  unfolding create_context
  create_context-global rt h =
      let rt' = if rt == 0 then get_current_runtime js h.engine else rt in
      ground (arith, create-global js proto_of prototypes h.engine (h.members rt').handle rt')

  create_context-proto :
      (rt : ℕ) (h : Host E P) (w : JsValueRef)
      → proto_of (create_context js rt h).1.engine w ≡ proto_of h.engine w
  unfolding create_context
  create_context-proto rt h w =
      let rt' = if rt == 0 then get_current_runtime js h.engine else rt in
      ground (arith, create-proto js proto_of prototypes h.engine (h.members rt').handle rt' w)

  -- Whatever it comes to, no other object than the global one gets another prototype.
  others-proto :
      (global_proto : JsValueRef) (h : Host E P) (w : JsValueRef)
      → w ≢ Context.global js h.engine
      → proto_of (create_context_for js global_proto h).1.engine w ≡ proto_of h.engine w
  unfolding create_context_for
  others-proto global_proto h w other =
      let (ctx, h') = create_context js 0 h in
      give_prototype-proto js proto_of prototypes ctx global_proto h'.engine w
        (λ same. other (same ∙ create_context-global 0 h))
      ∙ create_context-proto 0 h w

  global-proto :
      (global_proto ctx : JsValueRef) (h : Host E P)
      → (create_context_for js global_proto h).0 ≡ returned ctx
      → ctx ≢ nullptr
      → global_proto ≢ nullptr
      → proto_of (create_context_for js global_proto h).1.engine (Context.global js h.engine)
        ≡ global_proto
  unfolding create_context_for
  global-proto global_proto ctx h done made given =
      let (ctx', h') = create_context js 0 h in
      ap (proto_of (create_context_for js global_proto h).1.engine)
        (sym (create_context-global 0 h))
      ∙ give_prototype-global js proto_of prototypes ctx' global_proto ctx h'.engine done made given

  -- Where making a context changes neither prototypes nor the global object that is current, and
  -- setting a prototype without an error makes it that of its object and of no other: once
  -- `CreateContextFor` has answered with a context, for a prototype that is not null, that is the
  -- prototype of the global object of the context that was current when it was called, and every
  -- other object has the prototype that it had.
  pub create_context_for-proto :
      (global_proto ctx : JsValueRef) (h : Host E P) (w : JsValueRef)
      → (create_context_for js global_proto h).0 ≡ returned ctx
      → ctx ≢ nullptr
      → global_proto ≢ nullptr
      → proto_of (create_context_for js global_proto h).1.engine w
        ≡ (if w == Context.global js h.engine then global_proto else proto_of h.engine w)
  create_context_for-proto global_proto ctx h w done made given =
      ground (arith, global-proto global_proto ctx h done made given, others-proto global_proto h w)
