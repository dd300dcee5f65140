-- ===== src/Jxx/Api.antt =====
-- jxx.runtime.h: the functions of the API, which work on the runtime of the current context. A
-- runtime is its address, and 0 is the null pointer. A pair of a pointer and a length stands here
-- as the text that it means.
pub mod Current
use chakra_jxx.Base.{
  ℕ, String, Bool, List, [], ◌∷◌, ◌==◌, not, ◌||◌, if◌then◌else◌, Outcome, returned, thrown, Exec,
  ◌>>=◌, ◌>>◌, pure, Option, none, some, ℤ, pos,
}
use chakra_jxx.Base.Dict.{Dict}
use chakra_jxx.Js.Jsrt.{Jsrt, JsValueRef, nullptr}
use chakra_jxx.Js.Context
use chakra_jxx.Js.Durable
use chakra_jxx.Js.Object
use chakra_jxx.Js.Primitive.{just_string}
use chakra_jxx.Jxx.Class.{function}
use chakra_jxx.Jxx.Evaluate.{value, object, call, in_scope, json_parse}
use chakra_jxx.Jxx.FileSystem.{FileSystem}
use chakra_jxx.Jxx.ObjectPtr.{Pointers, add_ref, release}
use chakra_jxx.Jxx.SearchPath.{ModuleStorages, add_path, remove_path, resolve}
use chakra_jxx.Jxx.ValueCache.{
  ValueCache, get_string, get_propid, get_proto, put_proto, get_symbol, clear,
}

-- The members of a `JxxRuntime` that these functions use.
pub record Members (P : Type 0) : Type 0 where
  pub handle : JsValueRef
  pub search_path : ModuleStorages P
  pub zone_0 : JsValueRef
  pub json_parse_ : JsValueRef
  pub json_stringify_ : JsValueRef
  pub strings : Dict String JsValueRef
  pub protos : Dict String JsValueRef
  pub symbols : Dict String JsValueRef
  pub propids : Dict String JsValueRef

-- The engine, the C++ objects with their counts, and the members of each runtime.
pub record Host (E P : Type 0) : Type 0 where
  pub engine : E
  pub objects : Pointers
  pub members : ℕ → Members P

module _ {E P : Type 0} where
  abbrev pub on_engine : {A : Type 0} → Exec E A → Exec (Host E P) A
  on_engine m h = let (o, e') = m h.engine in (o, record h { engine = e' })

  abbrev pub put_members : ℕ → Members P → Host E P → Host E P
  put_members rt m h = record h { members = λ p. if p == rt then m else h.members p }

  -- `rt->cache()`.
  abbrev pub cache_of : ℕ → Host E P → ValueCache E
  cache_of rt h = record {
    engine = h.engine;
    strings = (h.members rt).strings;
    protos = (h.members rt).protos;
    symbols = (h.members rt).symbols;
    propids = (h.members rt).propids;
  }

  abbrev pub put_cache : ℕ → ValueCache E → Host E P → Host E P
  put_cache rt c h =
      put_members rt
        (record (h.members rt) {
          strings = c.strings;
          protos = c.protos;
          symbols = c.symbols;
          propids = c.propids;
        })
        (record h { engine = c.engine })

  abbrev pub with_cache : {A : Type 0} → ℕ → Exec (ValueCache E) A → Exec (Host E P) A
  with_cache rt m h = let (o, c) = m (cache_of rt h) in (o, put_cache rt c h)

module _ {E : Type 0} (js : Jsrt E) where
  -- `JxxGetCurrentRuntime`.
  unfoldable pub get_current_runtime : E → ℕ
  unfolding Context.current Context.get_data
  get_current_runtime e =
      let context = Context.current js e in
      if context == nullptr then 0 else Context.get_data js e context

  -- `JxxRunScript(JxxCharPtr, size_t, JsValueRef)`.
  unfoldable pub run_text : String → JsValueRef → E → JsValueRef × E
  run_text code url e =
      let (err, js_code, e') = js.create_string e code in
      if not (err == 0)
      then (nullptr, e')
      else let (err', result, e'') = js.run e' js_code url in
        (if not (err' == 0) then nullptr else result, e'')

module _ {E P : Type 0} (js : Jsrt E) where
  -- `JxxCreateContext`.
  unfoldable pub create_context : ℕ → Host E P → JsValueRef × Host E P
  unfolding get_current_runtime Context.create
  create_context runtime h =
      let rt = if runtime == 0 then get_current_runtime js h.engine else runtime in
      if rt == 0
      then (nullptr, h)
      else if (h.members rt).handle == nullptr
      then (nullptr, h)
      else let (out, e') = Context.create js h.engine (h.members rt).handle rt in
        (out, record h { engine = e' })

  -- What a function does with the current runtime, if there is one.
  abbrev with_runtime : (ℕ → Exec (Host E P) JsValueRef) → Exec (Host E P) JsValueRef
  with_runtime f h =
      let rt = get_current_runtime js h.engine in if rt == 0 then (returned nullptr, h) else f rt h

  -- `JxxAllocString`.
  unfoldable pub alloc_string : String → Exec (Host E P) JsValueRef
  unfolding get_current_runtime get_string
  alloc_string text = with_runtime (λ rt. with_cache rt (get_string js text))

  -- `JxxAllocPropertyId`.
  unfoldable pub alloc_property_id : String → Exec (Host E P) JsValueRef
  unfolding get_current_runtime get_propid
  alloc_property_id text = with_runtime (λ rt. with_cache rt (get_propid js text))

  -- `JxxAllocSymbol`.
  unfoldable pub alloc_symbol : String → Exec (Host E P) JsValueRef
  unfolding get_current_runtime get_symbol
  alloc_symbol text = with_runtime (λ rt. with_cache rt (get_symbol js text))

  -- `JxxQueryProto`.
  unfoldable pub query_proto : String → Host E P → JsValueRef
  unfolding get_current_runtime get_proto
  query_proto name h =
      let rt = get_current_runtime js h.engine in
      if rt == 0 then nullptr else get_proto js name (cache_of rt h)

  -- `JxxRegisterProto`.
  unfoldable pub register_proto : String → JsValueRef → Exec (Host E P) JsValueRef
  unfolding get_current_runtime object put_proto
  register_proto name proto = with_runtime λ rt. do
    prototype ← on_engine (object js proto)
    if prototype == nullptr
        then pure nullptr
        else (λ h. (returned proto, put_cache rt (put_proto js name prototype (cache_of rt h)) h))
