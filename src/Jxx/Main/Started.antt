-- ===== src/Jxx/Main/Started.antt =====
-- The runtime that the program has made is the one that its scripts and sockets find.
use chakra_jxx.Base.{
  ℕ, String, ◌≡◌, ◌≢◌, refl, ap, ◌∙◌, sym, subst, true, arith, Outcome, returned, thrown, Exec,
  bind_outcome, ◌>>=◌, pure,
}
use chakra_jxx.Base.Preserves.{Preserves, then_do}
use chakra_jxx.Base.Yields.{returned_injective}
use chakra_jxx.Js.Jsrt.{Jsrt, JsValueRef, nullptr}
use chakra_jxx.Js.Context
use chakra_jxx.Js.Context.Scopes.{Switches}
use chakra_jxx.Js.Primitive.{just_string}
use chakra_jxx.Jxx.Api
use chakra_jxx.Jxx.Api.{Host, get_current_runtime}
use chakra_jxx.Jxx.Api.Current.{KeepsData, entered_in, get_current_runtime-create_context}
use chakra_jxx.Jxx.Evaluate.{call, read_file_content, run_script}
use chakra_jxx.Jxx.FileSystem.{FileSystem}
use chakra_jxx.Jxx.Main.Start.{prepare, enter_context, run_test, start}

-- Code that answers with `a` if a block before it returns.
module _ {S A B : Type 0} where
  ended-state : (o : Outcome A) (s : S) (b : B) → (bind_outcome (o, s) (λ r. pure b)).1 ≡ s
  ended-state (returned a) s b = refl
  ended-state (thrown code) s b = refl

  ended-answer :
      (o : Outcome A) (s : S) (b c : B) → (bind_outcome (o, s) (λ r. pure b)).0 ≡ returned c → b ≡ c
  ended-answer (returned a) s b c h = returned_injective b c h
  ended-answer (thrown code) s b c h = absurd (ground arith)

-- The making of a string and the run of a script leave the current runtime, if they come back.
pub record Returns {E : Type 0} (js : Jsrt E) : Type 0 where
  pub runtime_string :
      (e : E) (text : String)
      → get_current_runtime js (js.create_string e text).2 ≡ get_current_runtime js e
  pub runtime_run :
      (e : E) (code uri : JsValueRef)
      → get_current_runtime js (js.run e code uri).2 ≡ get_current_runtime js e

-- The current runtime is that one.
abbrev pub FindsIt : {E : Type 0} → Jsrt E → ℕ → E → Type 0
FindsIt js rt e = get_current_runtime js e ≡ rt

module _ {E : Type 0} (js : Jsrt E) (returns : Returns js) where
  just_string-runtime :
      (text : String) (e : E)
      → get_current_runtime js (just_string js text e).1 ≡ get_current_runtime js e
  unfolding just_string
  just_string-runtime text e = ground (arith, returns.runtime_string e text)

  read_file_content-runtime :
      (text : String) (e : E)
      → get_current_runtime js (read_file_content js text e).1 ≡ get_current_runtime js e
  unfolding read_file_content just_string
  read_file_content-runtime text e = ground (arith, returns.runtime_string e text)

  run_script-runtime :
      (code uri : JsValueRef) (e : E)
      → get_current_runtime js (run_script js code uri e).1 ≡ get_current_runtime js e
  unfolding run_script
  run_script-runtime code uri e = returns.runtime_run e code uri

  module _ (rt : ℕ) where
    kept-FindsIt :
        (e e' : E)
        → get_current_runtime js e' ≡ get_current_runtime js e
        → FindsIt js rt e
        → FindsIt js rt e'
    kept-FindsIt e e' same finds = same ∙ finds

    run_test-FindsIt : {P : Type 0} (fs : FileSystem P) → Preserves (FindsIt js rt) (run_test js fs)
    unfolding run_test read_file_content run_script
    run_test-FindsIt fs =
        (then_do (FindsIt js rt)
          (record {
            code = call js (read_file_content js (fs.contents (fs.path "test.js")));
            safe = λ e.
                kept-FindsIt e _ (read_file_content-runtime (fs.contents (fs.path "test.js")) e);
          })
          λ code.
            then_do (FindsIt js rt)
              (record {
                code = just_string js "fly";
                safe = λ e. kept-FindsIt e _ (just_string-runtime "fly" e);
              })
              λ uri. record {
                code = call js (run_script js code uri);
                safe = λ e. kept-FindsIt e _ (run_script-runtime code uri e);
              }).safe

module _ {E P : Type 0} (js : Jsrt E) (fs : FileSystem P) (switches : Switches js)
    (keeps : KeepsData js) (returns : Returns js) (rt : ℕ) (real : rt ≢ 0) where
  -- What is left to run after the preparations.
  abbrev proceeding : Exec (Host E P) Context.Scope
  unfolding enter_context run_test
  proceeding = do
    scope ← enter_context js fs rt
    result ← Api.on_engine (run_test js fs)
    pure scope

  proceeding-FindsIt :
      (h : Host E P) (scope : Context.Scope)
      → (proceeding h).0 ≡ returned scope
      → (Api.create_context js rt h).0 ≢ nullptr
      → scope.entered ≡ true
      → FindsIt js rt (proceeding h).1.engine
  unfolding proceeding enter_context
  proceeding-FindsIt h scope done made entered =
      let (s, e1) = entered_in js rt h in
      let h1 = record (Api.create_context js rt h).1 { engine = e1 } in
      let ran = Api.on_engine {P = P} (run_test js fs) h1 in
      subst (λ (t : Host E P). FindsIt js rt t.engine) (sym (ended-state ran.0 ran.1 s))
        (run_test-FindsIt js returns rt fs e1 (
          get_current_runtime-create_context js rt h switches keeps real made (
            ap (λ (x : Context.Scope). x.entered) (ended-answer ran.0 ran.1 s scope done)
            ∙ entered)))

  prepared :
      (o : Outcome (Unit {0})) (h : Host E P) (scope : Context.Scope)
      → let r = bind_outcome (o, h) (λ x. proceeding) in
        r.0 ≡ returned scope
        → (Api.create_context js rt h).0 ≢ nullptr
        → scope.entered ≡ true
        → FindsIt js rt r.1.engine
  prepared (returned x) h scope done made entered = proceeding-FindsIt h scope done made entered
  prepared (thrown code) h scope done made entered = absurd (ground arith)

  -- Where a context that is set is current, the data of a context stays, and the making of a string
  -- and the run of a script leave the current runtime: once the start of `main` has come through,
  -- if the engine has made its context, and entered it, `JxxGetCurrentRuntime` finds the runtime
  -- that `main` has made.
  pub start-current :
      (h : Host E P) (scope : Context.Scope)
      → (start js fs rt h).0 ≡ returned scope
      → (Api.create_context js rt (prepare js fs rt h).1).0 ≢ nullptr
      → scope.entered ≡ true
      → get_current_runtime js (start js fs rt h).1.engine ≡ rt
  unfolding start proceeding
  start-current h scope = prepared (prepare js fs rt h).0 (prepare js fs rt h).1 scope
