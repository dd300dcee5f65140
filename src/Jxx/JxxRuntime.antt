-- ===== src/Jxx/JxxRuntime.antt =====
-- jxx.runtime.h: the members of `JxxRuntime` that are not about modules, and its life.
pub mod Life
use chakra_jxx.Base.{
  ℕ, String, Bool, List, [], ◌∷◌, ◌==◌, not, if◌then◌else◌, Option, none, some, Outcome, returned,
  thrown, Exec, ◌>>=◌, ◌>>◌, pure,
}
use chakra_jxx.Base.Dict.{Dict}
use chakra_jxx.Js.Jsrt.{Jsrt, JsValueRef, nullptr}
use chakra_jxx.Js.Context
use chakra_jxx.Js.Durable
use chakra_jxx.Js.Object
use chakra_jxx.Js.Primitive.{just_string}
use chakra_jxx.Jxx.Api.{Members, Host, on_engine, put_members, cache_of, put_cache}
use chakra_jxx.Jxx.Class.{function}
use chakra_jxx.Jxx.Evaluate.{value, object, call, in_scope, json_parse}
use chakra_jxx.Jxx.FileSystem.{FileSystem}
use chakra_jxx.Jxx.ObjectPtr.{Pointers, add_ref, release}
use chakra_jxx.Jxx.SearchPath.{add_path, remove_path, resolve}
use chakra_jxx.Jxx.ValueCache.{clear}

module _ {E : Type 0} (js : Jsrt E) where
  -- A property of an object, through its proxy.
  abbrev get_as_object : JsValueRef → String → Exec E JsValueRef
  get_as_object target name = do
    v ← call js (λ e. Object.get_property_by_name js e target name)
    object js v

  -- `Durable` members that are given a function.
  abbrev replaced : JsValueRef → JsValueRef → E → E
  replaced old new e = (Durable.release js (Durable.add_ref js e new).1 old).1

  abbrev release_all : Dict String JsValueRef → E → E
  release_all [] e = e
  release_all ((key, v) ∷ m) e = release_all m (Durable.release js e v).1

module _ {E P : Type 0} (js : Jsrt E) where
  -- `JxxRuntime::JsonParse(const char*, size_t)`.
  unfoldable pub json_parse_text : ℕ → String → Exec (Host E P) JsValueRef
  unfolding in_scope just_string value json_parse
  json_parse_text rt text h =
      let parser = (h.members rt).json_parse_ in
      if parser == nullptr
      then (returned nullptr, h)
      else on_engine
          (in_scope js (h.members rt).zone_0 (do
            made ← just_string js text
            text' ← value js made
            if text' == nullptr then pure nullptr else call js (json_parse js parser text')))
          h

  abbrev put_parse : ℕ → JsValueRef → Exec (Host E P) (Unit {0})
  put_parse rt f h = (
    returned tt,
    put_members rt (record (h.members rt) { json_parse_ = f })
        (record h { engine = replaced js (h.members rt).json_parse_ f h.engine }),
  )

  abbrev put_stringify : ℕ → JsValueRef → Exec (Host E P) (Unit {0})
  put_stringify rt f h = (
    returned tt,
    put_members rt (record (h.members rt) { json_stringify_ = f })
        (record h { engine = replaced js (h.members rt).json_stringify_ f h.engine }),
  )

  -- `InitJsonTool`, inside of its scope.
  unfoldable pub find_json_tool : ℕ → Exec (Host E P) ℕ
  unfolding object Context.global Object.get_property_by_name Durable.add_ref Durable.release
  find_json_tool rt = do
    global ← (λ h. on_engine (object js (Context.global js h.engine)) h)
    if global == nullptr then pure js.error_invalid_argument else do
      json ← on_engine (get_as_object js global "JSON")
      if json == nullptr then pure js.error_invalid_argument else do
        parse ← on_engine (call js (λ e. Object.get_property_by_name js e json "parse"))
        parse' ← on_engine (function js parse)
        put_parse rt parse'
        stringify ← on_engine (call js (λ e. Object.get_property_by_name js e json "stringify"))
        stringify' ← on_engine (function js stringify)
        put_stringify rt stringify'
        pure 0

  abbrev leave : Context.Scope → Outcome ℕ × Host E P → Outcome ℕ × Host E P
  leave s (o, h) = (o, record h { engine = Context.leave js h.engine s })

  -- `InitJsonTool`.
  unfoldable pub init_json_tool : ℕ → Exec (Host E P) ℕ
  unfolding find_json_tool Context.enter Context.leave
  init_json_tool rt h =
      let (s, e') = Context.enter js h.engine (h.members rt).zone_0 in
      leave s (find_json_tool rt (record h { engine = e' }))

  module _ (fs : FileSystem P) where
    -- `AppendSearchPath`.
    unfoldable pub append_search_path : ℕ → String → Host E P → Bool × Host E P
    unfolding add_path
    append_search_path rt path h =
        let (done, found) = add_path fs (h.members rt).search_path path in
        (done, put_members rt (record (h.members rt) { search_path = found }) h)

    -- `RemoveSearchPath`.
    unfoldable pub remove_search_path : ℕ → String → Host E P → Bool × Host E P
    unfolding remove_path
    remove_search_path rt path h =
        let (done, left) = remove_path fs (h.members rt).search_path path in
        (done, put_members rt (record (h.members rt) { search_path = left }) h)

    -- `ResolvePath`, what it leaves in `out`. It ends without a `return`.
    unfoldable pub resolve_path : ℕ → String → P → Host E P → P
    unfolding resolve
    resolve_path rt path out h = (resolve fs (h.members rt).search_path path out).1

    -- A runtime that has just been made, before its constructor has run.
    abbrev empty_members : JsValueRef → Members P
    empty_members handle = record {
      handle = handle;
      search_path = [];
      zone_0 = nullptr;
      json_parse_ = nullptr;
      json_stringify_ = nullptr;
      strings = [];
      protos = [];
      symbols = [];
      propids = [];
    }

    -- The constructor. `handle` stays null if the engine has made no runtime; the two calls after
    -- it are made all the same. A `Durable<Context>` counts only if it is not null.
    unfoldable pub construct : ℕ → ℕ → Host E P → Host E P
    unfolding Context.make_runtime Context.create Durable.add_ref append_search_path
    construct rt attr h =
        let (handle, e1) = Context.make_runtime js h.engine attr in
        let e2 = (js.set_promise_continuation_callback e1 rt).1 in
        let (zone, e3) = Context.create js e2 handle 0 in
        let e4 = (Durable.add_ref js e3 zone).1 in
        let h0 =
          put_members rt (record (empty_members handle) { zone_0 = zone })
            (record h { engine = e4 }) in
        let h1 = (append_search_path rt "." h0).1 in
        let h2 = (append_search_path rt "node_modules" h1).1 in
        (append_search_path rt "mode_modules.jmp" h2).1

  -- The destructor: the cache is cleared, and then the members go, the last first. The engine is
  -- disposed of before the property identifiers, which the cache keeps, are released. The table of
  -- running modules and its global object are not among these members: `Runtime` of the loader has
  -- them.
  unfoldable pub destroy : ℕ → Host E P → Host E P
  unfolding clear Durable.release Context.dispose_runtime
  destroy rt h0 =
      let h = put_cache rt (clear js (cache_of rt h0)) h0 in
      let m = h.members rt in
      let e1 = (Durable.release js h.engine m.json_stringify_).1 in
      let e2 = (Durable.release js e1 m.json_parse_).1 in
      let e3 = (Durable.release js e2 m.zone_0).1 in
      let e4 = Context.dispose_runtime js e3 m.handle in
      record h { engine = release_all js m.propids e4 }

  -- `close`. The handle stays.
  unfoldable pub close : ℕ → Host E P → Host E P
  close rt h = record h { engine = (js.dispose_runtime h.engine (h.members rt).handle).1 }

  -- `Release` of a runtime, whose last reference destroys it.
  unfoldable pub release_runtime : ℕ → Host E P → Host E P
  unfolding release destroy
  release_runtime rt h =
      let h' = record h { objects = release h.objects rt } in
      if h'.objects.ref_count rt == 0 then destroy rt h' else h'

  -- `BeforeCollectCallback`, which the engine calls before each collection.
  unfoldable pub before_collect : ℕ → Host E P → Host E P
  unfolding release_runtime
  before_collect rt h = release_runtime rt h

  -- `JxxCreateRuntime`, where `rt` is the new object, and `init` the callback, if there is one.
  module _ (fs : FileSystem P) where
    abbrev initialised : Option (ℕ → Host E P → ℕ × Host E P) → ℕ → Host E P → ℕ × Host E P
    initialised none rt h = (0, h)
    initialised (some init) rt h = init rt h

    unfoldable pub create_runtime :
        ℕ → ℕ → Option (ℕ → Host E P → ℕ × Host E P) → Host E P → ℕ × Host E P
    unfolding construct add_ref release_runtime
    create_runtime rt attr init h0 =
        if rt == 0
        then (0, h0)
        else let made = construct fs rt attr h0 in
          let h = record made { objects = add_ref made.objects rt } in
          let (err, e') =
            js.set_runtime_before_collect_callback h.engine (h.members rt).handle rt in
          let h' = record h { engine = e' } in
          if not (err == 0)
          then (0, release_runtime rt h')
          else let (code, h'') = initialised init rt h' in
            if not (code == 0) then (0, release_runtime rt h'') else (rt, h'')
