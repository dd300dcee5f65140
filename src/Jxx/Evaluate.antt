-- ===== src/Jxx/Evaluate.antt =====
-- jxx.runtime.h: what the module loader does with the engine. None of it touches the runtime's own
-- tables.
use chakra_jxx.Base.{
  ℕ, String, true, List, [], ◌∷◌, ◌==◌, ◌||◌, if◌then◌else◌, Outcome, returned, thrown, Exec, ◌>>=◌,
  pure,
}
use chakra_jxx.Js.Jsrt.{Jsrt, JsValueRef, nullptr}
use chakra_jxx.Js.Mask
use chakra_jxx.Js.Value.{base_value}
use chakra_jxx.Js.Primitive.{just_string}
use chakra_jxx.Js.Object
use chakra_jxx.Js.Context
use chakra_jxx.Js.ArrayBuffer.{create_from_text}

module _ {E : Type 0} (js : Jsrt E) where
  -- The constructor of `js::Value`.
  unfoldable pub value : JsValueRef → Exec E JsValueRef
  value v e = (base_value js e Mask.any_or_nothing true v, e)

  -- The constructor of `js::Object`.
  unfoldable pub object : JsValueRef → Exec E JsValueRef
  object v e = (base_value js e (Mask.any_object js.types) true v, e)

  -- A call that cannot throw.
  abbrev pub call : {A : Type 0} → (E → A × E) → Exec E A
  call f e = let (a, e') = f e in (returned a, e')

  abbrev close : {A : Type 0} → Context.Scope → Outcome A × E → Outcome A × E
  close s (o, e) = (o, Context.leave js e s)

  -- The life of a `Context::Scope`: it is left when the block returns, and when it throws.
  unfoldable pub in_scope : {A : Type 0} → JsValueRef → Exec E A → Exec E A
  unfolding Context.enter Context.leave
  in_scope target body e = let (s, e') = Context.enter js e target in close s (body e')

  -- `JxxRuntime::CreateContext`, where `self` stands for the runtime itself. `Global` is static: it
  -- is the global object of the current context.
  unfoldable pub create_context : JsValueRef → ℕ → JsValueRef → Exec E JsValueRef
  unfolding object Context.create Context.global Object.set_prototype
  create_context handle self global_proto = do
    ctx ← call (λ e. Context.create js e handle self)
    if ctx == nullptr || global_proto == nullptr then pure ctx else do
      global ← (λ e. object (Context.global js e) e)
      if global == nullptr then pure nullptr else do
        done ← call (λ e. Object.set_prototype js e global global_proto)
        pure (if done then ctx else nullptr)

  -- `JxxRunScript(JsValueRef, JsValueRef)`.
  unfoldable pub run_script : JsValueRef → JsValueRef → E → JsValueRef × E
  run_script code uri e =
      let (err, result, e') = js.run e code uri in (if err == 0 then result else nullptr, e')

  -- `JxxRuntime::_EvalSourceModule`.
  unfoldable pub eval_source_module :
      JsValueRef → ℕ → JsValueRef → JsValueRef → JsValueRef → JsValueRef → Exec E JsValueRef
  unfolding create_context object in_scope run_script value Object.set_property_by_name
      Object.get_property_by_name
  eval_source_module handle self module_global exports uri code = do
    module_context ← create_context handle self module_global
    if module_context == nullptr
        then pure nullptr
        else in_scope module_context (do
          global ← (λ e. object (Context.global js e) e)
          _ ← call (λ e. Object.set_property_by_name js e global "exports" exports)
          _ ← call (λ e. run_script code uri e)
          out ← call (λ e. Object.get_property_by_name js e global "exports")
          value out)

  -- `catch (...) { return JS_INVALID_REFERENCE; }`
  abbrev or_invalid : Outcome JsValueRef × E → JsValueRef × E
  or_invalid (returned v, e) = (v, e)
  or_invalid (thrown code, e) = (nullptr, e)

  -- `JxxReadFileContent` in text mode, of the text that the file holds.
  unfoldable pub read_file_content : String → E → JsValueRef × E
  unfolding just_string
  read_file_content text e = or_invalid (just_string js text e)

  -- `JxxReadFileContent` in binary mode, of the bytes of the file.
  unfoldable pub read_file_bytes : List ℕ → E → JsValueRef × E
  unfolding create_from_text
  read_file_bytes bytes e =
      let (out, e') = create_from_text js e bytes in
      or_invalid (base_value js e' (Mask.buffer js.types) true out, e')

  -- `JxxRuntime::JsonParse(JsValueRef)`.
  unfoldable pub json_parse : JsValueRef → JsValueRef → E → JsValueRef × E
  json_parse parser text e =
      if parser == nullptr || text == nullptr
      then (nullptr, e)
      else let (err, out, e') = js.call_function e parser (Context.global js e ∷ text ∷ []) in
        if err == 0 then (out, e') else (
          nullptr,
          (if err == js.error_script_exception then (js.get_and_clear_exception e').2 else e'),
        )

-- `JxxRuntime::_EvalNativeModule`, which opens nothing yet.
unfoldable pub eval_native_module : String → JsValueRef
eval_native_module path = nullptr
