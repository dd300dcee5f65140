-- ===== src/Jxx/Modules.antt =====
-- jxx.module.h: the registration of the modules that are built in, and `JxxRuntimeModuleMgmt`,
-- which loads them, or else a file.
pub mod Registered
pub mod Builtin
pub mod Templates
use chakra_jxx.Base.{
  ℕ, String, Bool, not, List, [], ◌∷◌, Option, none, some, ◌==◌, ◌||◌, if◌then◌else◌, pos, negsuc,
  returned, Exec, ◌>>=◌, ◌>>◌, pure, bit_or, string_eq,
}
use chakra_jxx.Base.Dict
use chakra_jxx.Base.Dict.{Dict}
use chakra_jxx.Js.Jsrt.{Jsrt, JsValueRef, nullptr}
use chakra_jxx.Js.Context
use chakra_jxx.Js.Object
use chakra_jxx.Jxx.ErrorCode.{eo_file, eo_path, ec_none, ec_not_exists, ec_unmatch}
use chakra_jxx.Jxx.Evaluate.{
  value, object, call, in_scope, run_script, read_file_content, read_file_bytes,
}
use chakra_jxx.Jxx.FileSystem.{FileSystem}
use chakra_jxx.Jxx.SearchPath.{resolve_ex}
use chakra_jxx.Jxx.Loader
use chakra_jxx.Jxx.Loader.{
  Runtime, Load, Located, found, failed, on_engine, unless_running, set_running, specialers_of,
  locate,
}

-- `IJxxModuleDetail`, by its classes. What makes the instance of a native module is a function.
pub data ModuleDetail : Type 0 where
  -- `JxxBuildinSourceModule`: the specialer, and the source.
  buildin_source : String → String → ModuleDetail
  -- `JxxBuildinNativeModule`: the specialer, and the factory's address.
  buildin_native : String → ℕ → ModuleDetail
  -- `JxxAddonNativeModule`: the specialer, and the path.
  addon_native : String → String → ModuleDetail

-- `Specialer()` of each class.
unfoldable pub specialer_of : ModuleDetail → String
specialer_of (buildin_source specialer source) = specialer
specialer_of (buildin_native specialer factory) = specialer
specialer_of (addon_native specialer path) = specialer

-- `ModuleRegistry`. Its lock makes each of the two calls one step.
abbrev pub ModuleRegistry : Type 0
ModuleRegistry = Dict String ModuleDetail

-- `JxxErrorHasExisted` of the codes with that prefix.
abbrev pub jxx_error_has_existed : ℕ
jxx_error_has_existed = 1

-- `RegisterModule`.
unfoldable pub register_module : ModuleDetail → ModuleRegistry → ℕ × ModuleRegistry
unfolding specialer_of Dict.find Dict.insert
register_module detail registry =
    let key = specialer_of detail in
    elim (Dict.find ⦃e = string_eq⦄ key registry) [
      | some other ↦ (jxx_error_has_existed, registry)
      | none ↦ (0, Dict.insert ⦃e = string_eq⦄ key detail registry)
    ]

-- `QueryModule`, of the specialer that it is given.
unfoldable pub query_module : String → ModuleRegistry → Option ModuleDetail
unfolding Dict.find
query_module specialer registry = Dict.find ⦃e = string_eq⦄ specialer registry

module _ {E P : Type 0} (js : Jsrt E) (fs : FileSystem P) where
  -- The four loaders, which have the statements of those of `JxxRuntime`.
  abbrev pub load_source_module : P → JsValueRef → JsValueRef → Load js fs
  unfolding Loader.load_source_module
  load_source_module resolved code exports = Loader.load_source_module js fs resolved code exports

  abbrev pub load_json_module : P → JsValueRef → JsValueRef → Load js fs
  unfolding Loader.load_json_module
  load_json_module resolved code exports = Loader.load_json_module js fs resolved code exports

  abbrev pub load_native_module : P → JsValueRef → Load js fs
  unfolding Loader.load_native_module
  load_native_module resolved exports = Loader.load_native_module js fs resolved exports

  abbrev pub load_file_as_module : P → JsValueRef → Load js fs
  unfolding Loader.load_file_as_module
  load_file_as_module resolved exports = Loader.load_file_as_module js fs resolved exports

  -- `native` is `CreateModuleInstance`: it calls a factory, or functions that use undeclared names
  -- and end without a `return`.
  module _ (native : ModuleDetail → Exec (Runtime E P) (ℕ × JsValueRef))
      (registry : ModuleRegistry) where
    -- `LoadBuildinModule`.
    unfoldable pub load_buildin_module : P → ModuleDetail → JsValueRef → Load js fs
    load_buildin_module key factory exports = unless_running js fs key (do
      made ← native factory
      let (err, exports') = made in
          if not (err == 0)
          then pure (err, exports')
          else do set_running js fs key exports'; pure (ec_none, exports'))

    -- `LoadModule`, by the extension of the file.
    unfoldable pub load_by_extension : P → JsValueRef → Load js fs
    load_by_extension resolved exports =
        if string_eq.beq (fs.extension resolved) "js" || string_eq.beq (fs.extension resolved) "cjs"
        then (do
          code ← on_engine (call js (read_file_bytes js (fs.bytes resolved)))
          load_source_module resolved code exports)
        else if string_eq.beq (fs.extension resolved) "json"
        then (do
          text ← on_engine (call js (read_file_content js (fs.contents resolved)))
          load_json_module resolved text exports)
        else if string_eq.beq (fs.extension resolved) "jsxm"
        then load_native_module resolved exports
        else load_file_as_module resolved exports

    -- `LoadModule`, of the file that it has settled on.
    unfoldable pub load_file : P → P → JsValueRef → Load js fs
    load_file key resolved exports =
        if fs.same_path.beq resolved key
        then load_by_extension resolved exports
        else unless_running js fs resolved (load_by_extension resolved exports)

    abbrev load_at : P → JsValueRef → Located js fs → Load js fs
    load_at key exports (found p) = load_file key p exports
    load_at key exports (failed code) = pure (code, exports)

    -- `JxxRuntimeModuleMgmt::LoadModule`: a running module, or one that is built in, or a file.
    unfoldable pub load_module : String → JsValueRef → Load js fs
    load_module specialer exports =
        unless_running js fs (fs.path specialer) (elim (query_module specialer registry) [
          | some factory ↦ load_buildin_module (fs.path specialer) factory exports
          | none ↦ do l ← locate js fs specialer; load_at (fs.path specialer) exports l
        ])
