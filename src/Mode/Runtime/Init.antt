-- ===== src/Mode/Runtime/Init.antt =====
-- mode.runtime.h: `InitMyRuntime`.
use chakra_jxx.Base.{ℕ, String, true, List, [], ◌∷◌, Option, some}
use chakra_jxx.Js.Jsrt.{Jsrt, JsValueRef}
use chakra_jxx.Jxx.FileSystem.{FileSystem}
use chakra_jxx.Mode.Runtime.{
  Headers, BiModuleDesc, Runtime, register_global_template, register_module, create_context,
}

abbrev pub desc_of : String → String → JsValueRef → BiModuleDesc
desc_of path name exports = record { path = some path; name = some name; exports = exports }

-- The five modules, in the order in which they are made and registered.
abbrev pub descs_of :
    JsValueRef → JsValueRef → JsValueRef → JsValueRef → JsValueRef → List BiModuleDesc
descs_of console process fs' zlib http =
    desc_of "internals/console" "console" console
    ∷ desc_of "internals/process" "process" process
    ∷ desc_of "internals/fs" "fs" fs'
    ∷ desc_of "internals/zlib" "zlib" zlib
    ∷ desc_of "internals/fs" "http" http
    ∷ []

module _ {E S P : Type 0} (js : Jsrt E) (headers : Headers E S) (fs : FileSystem P)
    (concat : P → String → P) where
  -- `rt->RegisterModule`, whose answer nobody reads.
  unfoldable pub registered : List BiModuleDesc → Runtime E P → Runtime E P
  unfolding register_module
  registered [] rt = rt
  registered (desc ∷ descs) rt = registered descs (register_module js headers fs concat desc rt).1

  -- `NewAsModule` and `NewInstance` of a class of the missing headers, by the name of the class.
  module _ (new_module : String → E → JsValueRef × E) where
    abbrev made : String → Runtime E P → JsValueRef × Runtime E P
    made name rt = let (out, e') = new_module name rt.engine in (out, record rt { engine = e' })

    -- `global_template[name] = v`.
    abbrev assign : JsValueRef → String → JsValueRef → Runtime E P → Runtime E P
    assign target name v rt = record rt { engine = headers.set_item rt.engine target name v }

    -- The template of global objects; `require` is the console.
    abbrev install_template : JsValueRef → JsValueRef → Runtime E P → Runtime E P
    unfolding register_global_template
    install_template console process rt =
        let (template, e1) = headers.new_object rt.engine in
        let rt1 = assign template "console" console (record rt { engine = e1 }) in
        let rt2 = assign template "process" process rt1 in
        let rt3 = assign template "require" console rt2 in
        (register_global_template js headers fs concat template rt3).1

    -- The modules that `InitMyRuntime` makes: those of the template, and what it registers.
    unfoldable pub make_modules :
        Runtime E P → (JsValueRef × JsValueRef × List BiModuleDesc) × Runtime E P
    make_modules rt0 =
        let (console, rt1) = made "JxxConsole" rt0 in
        let (process, rt2) = made "JxxProcess" rt1 in
        let (fs', rt3) = made "JxxFileSys" rt2 in
        let (zlib, rt4) = made "JxxZlib" rt3 in
        let (http, rt5) = made "JxxHttp" rt4 in
        ((console, process, descs_of console process fs' zlib http), rt5)

    -- `InitMyRuntime`, inside of the scope.
    unfoldable pub install : Runtime E P → Runtime E P
    unfolding make_modules registered register_global_template
    install rt =
        let ((console, process, descs), rt') = make_modules rt in
        install_template console process (registered descs rt')

    -- `InitMyRuntime`, up to the loading of `./app.js`, with a runtime that is constructed, at
    -- `this`: the main context.
    unfoldable pub init_my_runtime : ℕ → Runtime E P → Option (JsValueRef × Runtime E P)
    unfolding install create_context
    init_my_runtime this rt0 =
        let (scope, e1) = headers.enter rt0.engine rt0.genesis_context_ in
        let rt1 = install (record rt0 { engine = e1 }) in
        create_context js headers fs concat this true
          (record rt1 { engine = headers.leave rt1.engine scope })
