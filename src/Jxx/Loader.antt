-- ===== src/Jxx/Loader.antt =====
-- jxx.runtime.h: how `JxxRuntime` finds a module, and the table of the modules that are running.
pub mod Running
pub mod Kinds
use Prim.Native.String.{◌++◌ as ◌<>◌}
use chakra_jxx.Base.{
  ℕ, String, not, List, [], ◌∷◌, Option, none, some, ◌==◌, ◌||◌, if◌then◌else◌, pos, negsuc,
  returned, Exec, ◌>>=◌, ◌>>◌, pure, bit_or, string_eq,
}
use chakra_jxx.Base.Dict
use chakra_jxx.Base.Dict.{Dict}
use chakra_jxx.Js.Jsrt.{Jsrt, JsValueRef, nullptr}
use chakra_jxx.Js.Value.{is}
use chakra_jxx.Js.Primitive.{just_string, get_as_string}
use chakra_jxx.Js.Durable
use chakra_jxx.Js.Object
use chakra_jxx.Jxx.ErrorCode.{
  eo_file, eo_path, eo_memory, eo_pivotal_data, eo_module, ec_none, ec_not_exists, ec_has_existed,
  ec_unmatch, ec_bad_format, ec_io_read, ec_not_enough,
}
use chakra_jxx.Js.Context
use chakra_jxx.Jxx.FileSystem.{FileSystem}
use chakra_jxx.Jxx.SearchPath.{ModuleStorages, resolve_ex}
use chakra_jxx.Jxx.Evaluate.{value, object, call, eval_source_module, read_file_content, json_parse}

-- The members of `JxxRuntime` that loading a module uses, and the engine. `self` is its address.
pub record Runtime (E P : Type 0) : Type 0 where
  pub engine : E
  pub self : ℕ
  pub handle : JsValueRef
  pub search_path : ModuleStorages P
  pub running_modules : Dict P JsValueRef
  pub json_parser : JsValueRef
  pub module_global : JsValueRef

abbrev pub on_engine : {E P A : Type 0} → Exec E A → Exec (Runtime E P) A
on_engine m s = let (o, e') = m s.engine in (o, record s { engine = e' })

module _ {E P : Type 0} (js : Jsrt E) (fs : FileSystem P) where
  abbrev pub find_module : P → Runtime E P → Option JsValueRef
  find_module key s = Dict.find ⦃e = fs.same_path⦄ key s.running_modules

  abbrev or_null : Option JsValueRef → JsValueRef
  or_null none = nullptr
  or_null (some v) = v

  -- `running_modules_[key] = v`: the new handle counts, and the one that it replaces no longer
  -- does.
  unfoldable pub set_running : P → JsValueRef → Exec (Runtime E P) (Unit {0})
  unfolding Durable.add_ref Durable.release
  set_running key v s = (
    returned tt,
    record s {
      engine =
          (Durable.release js (Durable.add_ref js s.engine v).1 (or_null (find_module key s))).1;
      running_modules = Dict.insert ⦃e = fs.same_path⦄ key v s.running_modules;
    },
  )

  -- The result of a load: the error code, and what `exports` holds.
  abbrev pub Load : Type 0
  Load = Exec (Runtime E P) (ℕ × JsValueRef)

  -- `if (it != running_modules_.end())`, and what is done otherwise.
  abbrev pub unless_running : P → Load → Load
  unless_running key load s = elim (find_module key s) [
    | some v ↦ (returned (bit_or eo_module ec_has_existed, v), s)
    | none ↦ load s
  ]

  unfoldable pub load_source_module : P → JsValueRef → JsValueRef → Load
  load_source_module resolved code exports = unless_running resolved (do
    text ← on_engine (just_string js (fs.c_str resolved))
    uri ← on_engine (value js text)
    if uri == nullptr then pure (bit_or eo_memory ec_not_enough, exports) else do
      new ← on_engine (call js (λ e. Object.create js e nullptr))
      placeholder ← on_engine (value js new)
      set_running resolved placeholder
      exports' ← (λ s.
          on_engine (eval_source_module js s.handle s.self s.module_global placeholder uri code) s)
      set_running resolved exports'
      pure (ec_none, exports'))

  unfoldable pub load_json_module : P → JsValueRef → JsValueRef → Load
  load_json_module resolved code exports = unless_running resolved (do
    parsed ← (λ s. on_engine (call js (json_parse js s.json_parser code)) s)
    exports' ← on_engine (value js parsed)
    set_running resolved exports'
    pure (ec_none, exports'))

  unfoldable pub load_native_module : P → JsValueRef → Load
  load_native_module resolved exports = unless_running resolved (do
    new ← on_engine (call js (λ e. Object.create js e nullptr))
    exports' ← on_engine (value js new)
    set_running resolved exports'
    pure (ec_none, exports'))

  unfoldable pub load_file_as_module : P → JsValueRef → Load
  load_file_as_module resolved exports = unless_running resolved (do
    text ← on_engine (call js (read_file_content js (fs.contents resolved)))
    exports' ← on_engine (value js text)
    set_running resolved exports'
    pure (ec_none, exports'))

  -- What a specialer is tried as.
  unfoldable pub specialers_of : String → List String
  specialers_of s =
      s ∷ (s <> ".js") ∷ (s <> "/index.js") ∷ (s <> "/package.json") ∷ (s <> ".jsxm") ∷ []

  -- `JxxJsonParse`: on the runtime whose address the current context holds, which is this one.
  unfoldable pub jxx_json_parse : JsValueRef → Exec (Runtime E P) JsValueRef
  unfolding json_parse Context.current Context.get_data
  jxx_json_parse text s =
      if Context.current js s.engine == nullptr
        || Context.get_data js s.engine (Context.current js s.engine) == 0
      then (returned nullptr, s)
      else on_engine (call js (json_parse js s.json_parser text)) s

  -- The file that a part of `LoadModule` settles on, or the error code that it returns with.
  pub data Located : Type 0 where
    found : P → Located
    failed : ℕ → Located

  -- `LoadModule`, the path that the `main` of a `package.json` names, if it is a text.
  unfoldable pub main_at : P → Option String → Located
  main_at resolved none = failed (bit_or eo_pivotal_data ec_unmatch)
  main_at resolved (some name) =
      let path_of_main = fs.join (fs.parent_path resolved) (fs.path name) in
      if not (fs.exists path_of_main)
      then failed (bit_or eo_file ec_not_exists)
      else if fs.is_directory path_of_main
      then failed (bit_or eo_file ec_unmatch)
      else found path_of_main

  -- `LoadModule`, the branch of a `package.json`.
  unfoldable pub main_of_package : P → Exec (Runtime E P) Located
  unfolding main_at read_file_content value object jxx_json_parse Object.property_id get_as_string
      is
  main_of_package resolved = do
    text ← on_engine (call js (read_file_content js (fs.contents resolved)))
    json ← on_engine (value js text)
    if json == nullptr then pure (failed (bit_or eo_file ec_io_read)) else do
      parsed ← jxx_json_parse json
      manifest ← on_engine (object js parsed)
      if manifest == nullptr then pure (failed (bit_or eo_file ec_bad_format)) else do
        property ← on_engine (call js (λ e. Object.get_property_by_name js e manifest "main"))
        main ← on_engine (value js property)
        if main == nullptr then pure (failed (bit_or eo_pivotal_data ec_not_exists)) else do
          text' ← (λ s.
              if not (is js s.engine main js.types.js_string)
              then (returned none, s)
              else on_engine (do name ← get_as_string js main; pure (some name)) s)
          pure (main_at resolved text')

  -- `LoadModule`, up to the file of the module.
  unfoldable pub locate : String → Exec (Runtime E P) Located
  locate specialer s =
      let (index, resolved) = resolve_ex fs s.search_path (specialers_of specialer) (fs.path "") in
      elim index [
        | negsuc n ↦ (returned (failed (bit_or eo_path ec_not_exists)), s)
        | pos i ↦
            if fs.is_directory resolved
            then (returned (failed (bit_or eo_file ec_unmatch)), s)
            else if string_eq.beq (fs.filename resolved) "package.json"
            then main_of_package resolved s
            else (returned (found resolved), s)
      ]

  -- `LoadModule`, from the file of the module on.
  unfoldable pub load_located : P → JsValueRef → Load
  load_located resolved exports = unless_running resolved (
      if string_eq.beq (fs.extension resolved) "js" || string_eq.beq (fs.extension resolved) "cjs"
      then (do
        code ← on_engine (call js (read_file_content js (fs.contents resolved)))
        load_source_module resolved code exports)
      else if string_eq.beq (fs.extension resolved) "json"
      then (do
        text ← on_engine (call js (read_file_content js (fs.contents resolved)))
        load_json_module resolved text exports)
      else if string_eq.beq (fs.extension resolved) "jsxm"
      then load_native_module resolved exports
      else load_file_as_module resolved exports)

  abbrev load_at : Located → JsValueRef → Load
  load_at (found p) exports = load_located p exports
  load_at (failed code) exports = pure (code, exports)

  -- `JxxRuntime::LoadModule`.
  unfoldable pub load_module : String → JsValueRef → Load
  load_module specialer exports = do l ← locate specialer; load_at l exports
