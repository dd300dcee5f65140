-- ===== src/Mode/Runtime/Contexts.antt =====
-- The contexts that `mode::Runtime` makes, and the tasks that it is handed.
use chakra_jxx.Base.{ℕ, ◌+◌, Bool, ◌≡◌, ◌≢◌, arith, List, [], ◌∷◌, String, some}
use chakra_jxx.Base.Holders.{holders}
use chakra_jxx.Js.Jsrt.{Jsrt, JsValueRef, nullptr}
use chakra_jxx.Js.Durable.Balance.{Counts}
use chakra_jxx.Jxx.FileSystem.{FileSystem}
use chakra_jxx.Mode.Runtime.{
  Headers, Runtime, get_from_context, promise_continuation, create_context_of, create_context,
  give_template,
}

-- The data of a context is what was set last, and stays while contexts are entered and left and
-- prototypes are set.
pub record KeepsData {E S : Type 0} (headers : Headers E S) : Type 0 where
  pub data_set :
      (e : E) (c : JsValueRef) (cookie : ℕ)
      → (headers.set_data e c cookie).0 ≡ 0
      → headers.get_data (headers.set_data e c cookie).1 c ≡ cookie
  pub data_enter :
      (e : E) (c d : JsValueRef) → headers.get_data (headers.enter e d).1 c ≡ headers.get_data e c
  pub data_leave :
      (e : E) (s : S) (c : JsValueRef)
      → headers.get_data (headers.leave e s) c ≡ headers.get_data e c
  pub data_prototype :
      (e : E) (o proto c : JsValueRef)
      → headers.get_data (headers.set_prototype e o proto).1 c ≡ headers.get_data e c

module _ {E S P : Type 0} (js : Jsrt E) (headers : Headers E S) (fs : FileSystem P)
    (concat : P → String → P) where
  give_template-data :
      (context template c : JsValueRef) (e : E)
      → KeepsData headers
      → headers.get_data (give_template js headers fs concat context template e).1 c
        ≡ headers.get_data e c
  give_template-data context template c e keeps =
      let (scope, e1) = headers.enter e context in
      let global = headers.global e1 context in
      let e2 = (headers.set_prototype e1 global template).1 in
      ground (
        arith,
        keeps.data_enter e c context,
        keeps.data_leave e1 scope c,
        keeps.data_leave e2 scope c,
        keeps.data_prototype e1 global template c,
      )

  -- Where the data of a context is what was set last, and only setting it changes it: a context
  -- that `CreateContext` answers with, with or without the template, and whose data could be set,
  -- leads `GetFromContext` back to the runtime that made it.
  pub get_from_context-create_context :
      (this : ℕ) (use_template : Bool) (rt : Runtime E P) (handle : JsValueRef)
      → KeepsData headers
      → rt.runtime_ ≡ some handle
      → let (made, e) = headers.new_context rt.engine handle in
        (headers.set_data e made this).0 ≡ 0
        → (context : JsValueRef) × (rt' : Runtime E P) × (create_context js headers fs concat this
              use_template rt
            ≡ some (context, rt'))
          × (context ≢ nullptr → get_from_context js headers fs concat rt'.engine context ≡ this)
  unfolding create_context create_context_of get_from_context
  get_from_context-create_context this use_template rt handle keeps live sets =
      let (made, e1) = headers.new_context rt.engine handle in
      let e2 = (headers.set_data e1 made this).1 in
      let (context, rt') = create_context_of js headers fs concat this handle use_template rt in
      (
        context,
        rt',
        ground (arith, live),
        λ given. ground (
          arith,
          keeps.data_set e1 made this,
          give_template-data made rt.global_template_ made e2 keeps,
        ),
      )

  abbrev pub promise_continuations : List JsValueRef → Runtime E P → Runtime E P
  promise_continuations [] rt = rt
  promise_continuations (task ∷ tasks) rt =
      promise_continuations tasks (promise_continuation js headers fs concat task rt)

  -- Where `JsAddRef` and `JsRelease` change the count of their value by one: when the runtime has
  -- been handed any tasks, the count of each value has grown by the number of times that it was
  -- handed over.
  pub promise_continuations-refs :
      (refs : E → JsValueRef → ℕ) (tasks : List JsValueRef) (rt : Runtime E P) (v : JsValueRef)
      → Counts js refs
      → refs (promise_continuations tasks rt).engine v ≡ refs rt.engine v + holders v tasks
  unfolding promise_continuation holders
  promise_continuations-refs refs [] rt v counts = omega arith
  promise_continuations-refs refs (task ∷ tasks) rt v counts = omega (
    arith,
    counts.refs_add_ref rt.engine task v,
    promise_continuations-refs refs tasks (promise_continuation js headers fs concat task rt) v
        counts,
  )
