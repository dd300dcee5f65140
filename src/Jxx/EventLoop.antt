-- ===== src/Jxx/EventLoop.antt =====
-- jxx.runtime.h: the promise continuations that a `JxxRuntime` posts to its event loop, and how the
-- loop runs them.
pub mod Tasks
pub mod Order
use chakra_jxx.Base.{ℕ, zero, suc, List, [], ◌∷◌, ◌++◌, if◌then◌else◌}
use chakra_jxx.Js.Jsrt.{Jsrt, JsValueRef}
use chakra_jxx.Js.Context

-- The engine, and what `loop_` has still to run, in the order in which it was posted.
pub record Loop (E : Type 0) : Type 0 where
  pub engine : E
  pub tasks : List JsValueRef

module _ {E : Type 0} (js : Jsrt E) where
  -- `__PromiseContinuation` and `PromiseContinuation`.
  unfoldable pub promise_continuation : JsValueRef → Loop E → Loop E
  promise_continuation task s = record s {
    engine = (js.add_ref s.engine task).1;
    tasks = s.tasks ++ task ∷ [];
  }

  unfoldable pub post_all : List JsValueRef → Loop E → Loop E
  unfolding promise_continuation
  post_all [] s = s
  post_all (task ∷ tasks) s = post_all tasks (promise_continuation task s)

  -- The continuations that the engine hands to `__PromiseContinuation` while it runs a task.
  module _ (jobs : E → JsValueRef → List JsValueRef) where
    -- `JsCallFunction(task, &global, 1, nullptr)`, with those callbacks.
    unfoldable pub call_task : JsValueRef → Loop E → Loop E
    unfolding post_all Context.global
    call_task task s =
        post_all (jobs s.engine task) (record s {
          engine = (js.call_function s.engine task (Context.global js s.engine ∷ [])).2;
        })

    -- The posted function. The scope is left last.
    unfoldable pub run_task : JsValueRef → Loop E → Loop E
    unfolding call_task Context.enter Context.leave Context.from
    run_task task s =
        let (scope, e') = Context.enter js s.engine (Context.from js s.engine task) in
        let called =
          if scope.entered
          then call_task task (record s { engine = e' })
          else record s { engine = e' } in
        record called { engine = Context.leave js (js.release called.engine task).1 scope }

    -- One round of the event loop: the first task is taken, and run.
    unfoldable pub run_one : Loop E → Loop E
    unfolding run_task
    run_one s = elim s.tasks [ [] ↦ s | task ∷ rest ↦ run_task task (record s { tasks = rest }) ]

    unfoldable pub run : ℕ → Loop E → Loop E
    run zero s = s
    run (suc n) s = run n (run_one s)
