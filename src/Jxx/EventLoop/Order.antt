-- ===== src/Jxx/EventLoop/Order.antt =====
-- The order in which the tasks run.
use chakra_jxx.Base.{
  ℕ, zero, suc, ◌≤◌, ◌≡◌, refl, ap, ◌∙◌, List, [], ◌∷◌, ◌++◌, length, length-append, take,
  if◌then◌else◌, arith, Bool, true, false,
}
use mathlib.Core.List.{append_assoc, append-nil}
use chakra_jxx.Js.Jsrt.{Jsrt, JsValueRef}
use chakra_jxx.Js.Context
use chakra_jxx.Jxx.EventLoop.{
  Loop, promise_continuation, post_all, call_task, run_task, run_one, run,
}

module _ {E : Type 0} (js : Jsrt E) (jobs : E → JsValueRef → List JsValueRef) where
  post_all-tasks :
      (tasks : List JsValueRef) (s : Loop E) → (post_all js tasks s).tasks ≡ s.tasks ++ tasks
  unfolding post_all
  post_all-tasks [] s = cc (append-nil s.tasks)
  post_all-tasks (task ∷ tasks) s =
      post_all-tasks tasks (promise_continuation js task s) ∙ append_assoc s.tasks (task ∷ []) tasks

  -- What is posted while a task runs.
  posted : JsValueRef → E → List JsValueRef
  unfolding call_task
  posted task e =
      let (scope, e') = Context.enter js e (Context.from js e task) in
      if scope.entered then jobs e' task else []

  called-tasks :
      (entered : Bool) (task : JsValueRef) (s : Loop E)
      → (if entered then call_task js jobs task s else s).tasks
        ≡ s.tasks ++ (if entered then jobs s.engine task else [])
  unfolding call_task
  called-tasks true task s = post_all-tasks (jobs s.engine task) _
  called-tasks false task s = cc (append-nil s.tasks)

  run_task-tasks :
      (task : JsValueRef) (s : Loop E)
      → (run_task js jobs task s).tasks ≡ s.tasks ++ posted task s.engine
  unfolding run_task posted
  run_task-tasks task s =
      let entering = Context.enter js s.engine (Context.from js s.engine task) in
      called-tasks entering.0.entered task (record s { engine = entering.1 })

  take-append : (n : ℕ) (xs ys : List JsValueRef) → n ≤ length xs → take n (xs ++ ys) ≡ take n xs
  take-append zero xs ys h = refl
  take-append (suc n) [] ys h = absurd (omega arith)
  take-append (suc n) (x ∷ xs) ys h =
      ap (λ (r : List JsValueRef). x ∷ r) (take-append n xs ys (omega arith))

-- `log` lists the functions that `JsCallFunction` has been called with, first to last; nothing else
-- that the loop asks of the engine changes it.
pub record Logs {E : Type 0} (js : Jsrt E) (log : E → List JsValueRef) : Type 0 where
  pub logs_call :
      (e : E) (f : JsValueRef) (args : List JsValueRef)
      → log (js.call_function e f args).2 ≡ log e ++ f ∷ []
  pub logs_add_ref : (e : E) (v : JsValueRef) → log (js.add_ref e v).1 ≡ log e
  pub logs_release : (e : E) (v : JsValueRef) → log (js.release e v).1 ≡ log e
  pub logs_context : (e : E) (c : JsValueRef) → log (js.set_current_context e c).1 ≡ log e

-- The engine says which context is current, and makes any other the current one.
pub record Enters {E : Type 0} (js : Jsrt E) : Type 0 where
  pub gets : (e : E) → (js.get_current_context e).0 ≡ 0
  pub sets : (e : E) (c : JsValueRef) → (js.set_current_context e c).0 ≡ 0

module _ {E : Type 0} (js : Jsrt E) (jobs : E → JsValueRef → List JsValueRef)
    (log : E → List JsValueRef) (logs : Logs js log) (enters : Enters js) where
  post_all-log :
      (tasks : List JsValueRef) (s : Loop E) → log (post_all js tasks s).engine ≡ log s.engine
  unfolding post_all
  post_all-log [] s = refl
  post_all-log (task ∷ tasks) s =
      post_all-log tasks (promise_continuation js task s) ∙ logs.logs_add_ref s.engine task

  call_task-log :
      (task : JsValueRef) (s : Loop E)
      → log (call_task js jobs task s).engine ≡ log s.engine ++ task ∷ []
  unfolding call_task
  call_task-log task s =
      post_all-log (jobs s.engine task) _
      ∙ logs.logs_call s.engine task (Context.global js s.engine ∷ [])

  enter-log : (e : E) (target : JsValueRef) → log (Context.enter js e target).1 ≡ log e
  unfolding Context.enter
  enter-log e target = ground (arith, logs.logs_context e target)

  entered : (e : E) (target : JsValueRef) → (Context.enter js e target).0.entered ≡ true
  unfolding Context.enter
  entered e target = ground (arith, enters.gets e, enters.sets e target)

  run_task-log :
      (task : JsValueRef) (s : Loop E)
      → log (run_task js jobs task s).engine ≡ log s.engine ++ task ∷ []
  unfolding run_task
  run_task-log task s =
      let (scope, e') = Context.enter js s.engine (Context.from js s.engine task) in
      let called = call_task js jobs task (record s { engine = e' }) in
      rw (entered s.engine (Context.from js s.engine task)) (
        logs.logs_context (js.release called.engine task).1 scope.prev
        ∙ logs.logs_release called.engine task
        ∙ call_task-log task (record s { engine = e' })
        ∙ ap (λ (l : List JsValueRef). l ++ task ∷ [])
            (enter-log s.engine (Context.from js s.engine task)))

  run_with :
      (n : ℕ) (e : E) (tasks : List JsValueRef)
      → n ≤ length tasks
      → log (run js jobs n (record { engine = e; tasks = tasks })).engine ≡ log e ++ take n tasks
  unfolding run run_one
  run_with zero e tasks h = cc (append-nil (log e))
  run_with (suc n) e [] h = absurd (omega arith)
  run_with (suc n) e (task ∷ rest) h =
      let left : Loop E = record { engine = e; tasks = rest } in
      let after = run_task js jobs task left in
      let left_tasks = run_task-tasks js jobs task left in
      let enough : n ≤ length after.tasks =
        grind (arith, left_tasks, length-append rest (posted js jobs task e)) in
      let next : take n after.tasks ≡ take n rest =
        ap (take n) left_tasks
        ∙ take-append js jobs n rest (posted js jobs task e) (omega (arith, h)) in
      cc (
        run_with n after.engine after.tasks enough,
        run_task-log task left,
        next,
        append_assoc (log e) (task ∷ []) (take n rest),
      )

  -- Where the engine enters every context, and `log` lists the functions that `JsCallFunction` has
  -- been called with: as many rounds as tasks wait call exactly those tasks, each of them once, in
  -- the order in which they were posted, whatever they post in turn; fewer rounds call the first of
  -- them.
  pub run-log :
      (n : ℕ) (s : Loop E)
      → n ≤ length s.tasks
      → log (run js jobs n s).engine ≡ log s.engine ++ take n s.tasks
  run-log n s h = run_with n s.engine s.tasks h
