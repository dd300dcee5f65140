-- ===== src/Jxx/Main/Start.antt =====
-- jsrt-jxx.cpp: `main`. It makes a runtime and a context, runs a script, reads the registry, and
-- then serves connections.
use chakra_jxx.Base.{
  ℕ, String, true, List, Option, none, some, pos, Exec, ◌>>=◌, ◌>>◌, pure, returned,
}
use chakra_jxx.Js.Jsrt.{Jsrt, JsValueRef, nullptr}
use chakra_jxx.Js.Context
use chakra_jxx.Js.Function.{magic}
use chakra_jxx.Js.Mask
use chakra_jxx.Js.Object
use chakra_jxx.Js.Value.{as_the, base_value}
use chakra_jxx.Js.Primitive.{Doubles, just_int, just_string, void_ptr}
use chakra_jxx.Jxx.Api
use chakra_jxx.Jxx.Api.{Host}
use chakra_jxx.Jxx.Class.{JxxClass, function}
use chakra_jxx.Jxx.Evaluate.{value, call, read_file_content, run_script}
use chakra_jxx.Jxx.FileSystem.{FileSystem}
use chakra_jxx.Jxx.JxxRuntime.{construct, init_json_tool, json_parse_text}
use chakra_jxx.Jxx.Registry.Keys.{RegCalls, reg_create_key}
use chakra_jxx.Jxx.Registry.Keys
use chakra_jxx.Jxx.Registry.Query.{QueryCalls, reg_query_value_call}
use chakra_jxx.Jxx.Registry.{RegTypes}
use chakra_jxx.Jxx.Registry.Enumerate.{EnumCalls, reg_enum_key_call}
use chakra_jxx.Jxx.Tcp.{Net, Asio, on_engine, on_host, as_object}
use chakra_jxx.Jxx.Tcp.Acceptors.{create_acceptor, listen}

module _ {E P : Type 0} (js : Jsrt E) (fs : FileSystem P) where
  -- The runtime, which stands at `rt`, its JSON tools, and a text that is no JSON.
  unfoldable pub prepare : ℕ → Exec (Host E P) (Unit {0})
  unfolding construct init_json_tool json_parse_text
  prepare rt = do
    (λ h. (returned (tt {0}), construct js fs rt 0 h))
    code ← init_json_tool js rt
    vv ← json_parse_text js rt "{9"
    pure tt

  -- The context, and the scope that enters it.
  unfoldable pub enter_context : ℕ → Exec (Host E P) Context.Scope
  unfolding Api.create_context Context.enter
  enter_context rt h =
      let (context, h') = Api.create_context js rt h in
      let (scope, e') = Context.enter js h'.engine context in
      (returned scope, record h' { engine = e' })

  -- `JxxRunScript` of the content of a file.
  unfoldable pub run_test : Exec E JsValueRef
  unfolding read_file_content just_string run_script
  run_test = do
    code ← call js (read_file_content js (fs.contents (fs.path "test.js")))
    uri ← just_string js "fly"
    call js (run_script js code uri)

  unfoldable pub start : ℕ → Exec (Host E P) Context.Scope
  unfolding prepare enter_context run_test
  start rt = do prepare rt; scope ← enter_context rt; result ← Api.on_engine run_test; pure scope

-- The settings of a program in the registry. `hkey_current_user` is the handle of that key.
module _ {E R : Type 0} (js : Jsrt E) (d : Doubles) (t : RegTypes) (hkey_current_user : ℕ)
    (keys : RegCalls R) (queries : QueryCalls E R) (enums : EnumCalls R)
    (string_of : List ℕ → String) (of_uint64 : ℕ → ℕ)
    (script : JsValueRef → List JsValueRef → E × R → ℕ × JsValueRef × (E × R)) where
  abbrev pub number : Exec E JsValueRef → Exec (E × R) JsValueRef
  number m = Keys.on_engine (do v ← m; (λ e. (as_the js e (Mask.number js.types) v, e)))

  abbrev pub text : String → Exec (E × R) JsValueRef
  unfolding just_string
  text s =
      Keys.on_engine (do v ← just_string js s; (λ e. (as_the js e (Mask.string js.types) v, e)))

  abbrev pub queried : Option JsValueRef → Exec (E × R) (Option JsValueRef)
  unfolding value
  queried none = pure none
  queried (some v) = do q ← Keys.on_engine (value js v); pure (some q)

  abbrev pub listed : ℕ → JsValueRef → Option JsValueRef → Exec (E × R) (Option JsValueRef)
  unfolding magic reg_enum_key_call
  listed log_stub hkey none = pure none
  listed log_stub hkey (some q) = do
    hkey' ← number (pure hkey)
    mode ← number (just_int js (pos 3))
    made ← Keys.on_engine (call js (λ e. magic js e log_stub nullptr 0))
    log ← Keys.on_engine (function js made)
    done ← reg_enum_key_call js script d enums hkey' mode log
    pure (some done)

  -- `none` is as in `_RegQueryValue`. `log_stub` is the address of the stub of `Console::log`.
  unfoldable pub read_settings : ℕ → Exec (E × R) (Option JsValueRef)
  unfolding void_ptr reg_create_key reg_query_value_call value just_int listed
  read_settings log_stub = do
    k ← number (void_ptr js d hkey_current_user)
    path ← text "Console\\Git Bash"
    made ← reg_create_key js d keys k path
    hkey ← Keys.on_engine (value js made)
    hkey' ← number (pure hkey)
    name ← text "FontFamily"
    flags ← number (just_int js (pos 0))
    answer ← reg_query_value_call js d t queries string_of of_uint64 hkey' name
    q ← queried answer
    listed log_stub hkey q

module _ {E : Type 0} (js : Jsrt E) where
  -- `server["onConnection"] = …`.
  abbrev pub put_callback : JsValueRef → JsValueRef → Exec E (Unit {0})
  unfolding Object.property_id Object.write_property
  put_callback server on_connection = do
    p ← call js (λ e. Object.property js e server "onConnection")
    Object.write_property js p on_connection

-- The acceptor of the server, at `x`. `stub` is the address of the stub of `on_client`.
module _ {E P S : Type 0} (js : Jsrt E) (asio : Asio S) (class_of : ℕ → JxxClass)
    (tcp_acceptor_t : ℕ) where
  abbrev pub host_text : String → Exec (Net E P S) JsValueRef
  host_text s =
      on_engine js (do v ← just_string js s; (λ e. (as_the js e (Mask.string js.types) v, e)))

  unfoldable pub serve : ℕ → ℕ → Exec (Net E P S) JsValueRef
  unfolding create_acceptor magic listen put_callback
  serve x stub = do
    addr ← host_text "0.0.0.0"
    port ← host_text "8080"
    made ← create_acceptor js asio x addr port
    server ← on_engine js (λ e. (base_value js e (Mask.any_object js.types) true made, e))
    f ← on_engine js (call js (λ e. magic js e stub nullptr 0))
    on_connection ← on_engine js (function js f)
    on_engine js (put_callback js server on_connection)
    server' ← as_object js server
    _ ← listen js asio class_of tcp_acceptor_t server'
    pure server

module _ {E P S R : Type 0} where
  abbrev pub on_net : {A : Type 0} → Exec (Net E P S) A → Exec (Net E P S × R) A
  on_net m (s, r) = let (o, s') = m s in (o, (s', r))

  abbrev pub on_registry : {A : Type 0} → Exec (E × R) A → Exec (Net E P S × R) A
  on_registry m (s, r) =
      let (o, (e', r')) = m (s.host.engine, r) in
      (o, (record s { host = record s.host { engine = e' } }, r'))

-- `main`, up to the loop: all that asio has to do then is in the `Net`.
module _ {E P S R : Type 0} (js : Jsrt E) (fs : FileSystem P)
    (settings : Exec (E × R) (Option JsValueRef)) (asio : Asio S) (class_of : ℕ → JxxClass)
    (tcp_acceptor_t : ℕ) where
  -- The scope is still open. After a read or a write outside a buffer, `none`, nothing is defined.
  unfoldable pub served_after : ℕ → ℕ → Option JsValueRef → Exec (Net E P S × R) (Option JsValueRef)
  unfolding serve
  served_after x stub none = pure none
  served_after x stub (some q) =
      on_net (do server ← serve js asio class_of tcp_acceptor_t x stub; pure (some server))

  -- `settings` is `read_settings`.
  unfoldable pub main : ℕ → ℕ → ℕ → Exec (Net E P S × R) (Option JsValueRef)
  unfolding start served_after
  main rt x stub = do
    scope ← on_net (on_host js (start js fs rt))
    read ← on_registry settings
    served_after x stub read
