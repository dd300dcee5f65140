-- ===== src/Jxx/EventLoop/Tasks.antt =====
-- Each posted task counts as one reference until it has run.
use chakra_jxx.Base.{ℕ, ◌+◌, ◌≡◌, ◌∙◌, Bool, true, false, List, [], ◌∷◌, ◌++◌, if◌then◌else◌, arith}
use chakra_jxx.Base.Holders.{one_if, holders}
use chakra_jxx.Js.Jsrt.{Jsrt, JsValueRef}
use chakra_jxx.Js.Context
use chakra_jxx.Js.Durable.Balance.{Counts}
use chakra_jxx.Jxx.EventLoop.{Loop, promise_continuation, post_all, call_task, run_task, run_one}

holders-append : (v : ℕ) (xs ys : List ℕ) → holders v (xs ++ ys) ≡ holders v xs + holders v ys
unfolding holders
holders-append v [] ys = omega arith
holders-append v (x ∷ xs) ys = omega (arith, holders-append v xs ys)

-- The engine keeps its counts while it runs a function or changes the context.
pub record Keeps {E : Type 0} (js : Jsrt E) (refs : E → JsValueRef → ℕ) : Type 0 where
  pub keeps_call :
      (e : E) (f : JsValueRef) (args : List JsValueRef) (v : JsValueRef)
      → refs (js.call_function e f args).2 v ≡ refs e v
  pub keeps_context : (e : E) (c v : JsValueRef) → refs (js.set_current_context e c).1 v ≡ refs e v

-- `others` counts the references that belong to somebody else.
abbrev pub IsCounted : {E : Type 0} → (E → JsValueRef → ℕ) → (JsValueRef → ℕ) → Loop E → Type 0
IsCounted refs others s = (v : JsValueRef) → refs s.engine v ≡ others v + holders v s.tasks

module _ {E : Type 0} (js : Jsrt E) (refs : E → JsValueRef → ℕ) (counts : Counts js refs) where
  pub promise_continuation-IsCounted :
      (others : JsValueRef → ℕ) (task : JsValueRef) (s : Loop E)
      → IsCounted refs others s
      → IsCounted refs others (promise_continuation js task s)
  unfolding promise_continuation holders
  promise_continuation-IsCounted others task s c v =
      ground (arith, c v, counts.refs_add_ref s.engine task v, holders-append v s.tasks (task ∷ []))

  post_all-IsCounted :
      (others : JsValueRef → ℕ) (tasks : List JsValueRef) (s : Loop E)
      → IsCounted refs others s
      → IsCounted refs others (post_all js tasks s)
  unfolding post_all
  post_all-IsCounted others [] s c = c
  post_all-IsCounted others (task ∷ tasks) s c =
      post_all-IsCounted others tasks (promise_continuation js task s)
        (promise_continuation-IsCounted others task s c)

  module _ (keeps : Keeps js refs) (jobs : E → JsValueRef → List JsValueRef) where
    call_task-IsCounted :
        (others : JsValueRef → ℕ) (task : JsValueRef) (s : Loop E)
        → IsCounted refs others s
        → IsCounted refs others (call_task js jobs task s)
    unfolding call_task
    call_task-IsCounted others task s c =
        post_all-IsCounted others (jobs s.engine task) _
          (λ v. keeps.keeps_call s.engine task (Context.global js s.engine ∷ []) v ∙ c v)

    enter-refs : (e : E) (target v : JsValueRef) → refs (Context.enter js e target).1 v ≡ refs e v
    unfolding Context.enter
    enter-refs e target v = ground (arith, keeps.keeps_context e target v)

    leave-refs :
        (e : E) (scope : Context.Scope) (v : JsValueRef)
        → refs (Context.leave js e scope) v ≡ refs e v
    unfolding Context.leave
    leave-refs e scope v = ground (arith, keeps.keeps_context e scope.prev v)

    if_entered-IsCounted :
        (entered : Bool) (others : JsValueRef → ℕ) (task : JsValueRef) (s : Loop E)
        → IsCounted refs others s
        → IsCounted refs others (if entered then call_task js jobs task s else s)
    if_entered-IsCounted true others task s c = call_task-IsCounted others task s c
    if_entered-IsCounted false others task s c = c

    -- The reference of the task that runs is among those of others until it is released.
    run_task-IsCounted :
        (others : JsValueRef → ℕ) (task : JsValueRef) (s : Loop E)
        → IsCounted refs (λ v. others v + one_if v task) s
        → IsCounted refs others (run_task js jobs task s)
    unfolding run_task
    run_task-IsCounted others task s c v =
        let entering = Context.enter js s.engine (Context.from js s.engine task) in
        let entered : Loop E = record s { engine = entering.1 } in
        let called = if entering.0.entered then call_task js jobs task entered else entered in
        let here =
          if_entered-IsCounted entering.0.entered (λ v. others v + one_if v task) task entered
            (λ v. enter-refs s.engine (Context.from js s.engine task) v ∙ c v) v in
        omega (
          arith,
          leave-refs (js.release called.engine task).1 entering.0 v,
          counts.refs_release called.engine task v,
          here,
        )

    run_one_with :
        (others : JsValueRef → ℕ) (e : E) (tasks : List JsValueRef)
        → IsCounted refs others (record { engine = e; tasks = tasks })
        → IsCounted refs others (run_one js jobs (record { engine = e; tasks = tasks }))
    unfolding run_one holders
    run_one_with others e [] c = c
    run_one_with others e (task ∷ rest) c =
        run_task-IsCounted others task (record { engine = e; tasks = rest })
          (λ v. omega (arith, c v))

    pub run_one-IsCounted :
        (others : JsValueRef → ℕ) (s : Loop E)
        → IsCounted refs others s
        → IsCounted refs others (run_one js jobs s)
    run_one-IsCounted others s c = run_one_with others s.engine s.tasks c

-- The life of the loop: the engine hands over a continuation at any time, and the loop runs its
-- tasks one by one.
pub data Step {E : Type 0} (js : Jsrt E) (jobs : E → JsValueRef → List JsValueRef)
    : Loop E → Loop E → Type 0 where
  posts : (task : JsValueRef) (s : Loop E) → Step js jobs s (promise_continuation js task s)
  runs : (s : Loop E) → Step js jobs s (run_one js jobs s)

pub data Reach {E : Type 0} (js : Jsrt E) (jobs : E → JsValueRef → List JsValueRef) (s : Loop E)
    : Loop E → Type 0 where
  here : Reach js jobs s s
  next : {t u : Loop E} → Reach js jobs s t → Step js jobs t u → Reach js jobs s u

module _ {E : Type 0} (js : Jsrt E) (refs : E → JsValueRef → ℕ) (counts : Counts js refs)
    (keeps : Keeps js refs) (jobs : E → JsValueRef → List JsValueRef)
    (others : JsValueRef → ℕ) where
  Step-IsCounted :
      {s t : Loop E} → Step js jobs s t → IsCounted refs others s → IsCounted refs others t
  Step-IsCounted (posts task s) c = promise_continuation-IsCounted js refs counts others task s c
  Step-IsCounted (runs s) c = run_one-IsCounted js refs counts keeps jobs others s c

  -- Where `JsAddRef` and `JsRelease` change the count of their value by one, and the engine changes
  -- none when it calls a function or changes the context: however continuations are handed over and
  -- run, the engine's count of each value stays the number of the posted tasks that it is and the
  -- references of others.
  pub Reach-IsCounted :
      {s t : Loop E} → IsCounted refs others s → Reach js jobs s t → IsCounted refs others t
  Reach-IsCounted c here = c
  Reach-IsCounted c (next r step) = Step-IsCounted step (Reach-IsCounted c r)
