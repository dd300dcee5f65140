-- ===== src/Mode/Runtime.antt =====
-- mode.runtime.h: `mode::Runtime`, with the modules that are built in. The wrappers of contexts and
-- objects come from headers that are missing, and are parameters.
pub mod Contexts
pub mod Init
pub mod Registered
use chakra_jxx.Base.{
  ℕ, String, Bool, true, not, ◌&&◌, List, [], ◌∷◌, ◌==◌, if◌then◌else◌, Option, none, some,
  string_eq, Outcome, returned, thrown, Exec, ◌>>=◌, ◌>>◌, pure,
}
use chakra_jxx.Base.Dict
use chakra_jxx.Base.Dict.{Dict}
use chakra_jxx.Js.Jsrt.{Jsrt, JsValueRef, nullptr}
use chakra_jxx.Js.Guarded.{if_exception_return}
use chakra_jxx.Jxx.FileSystem.{FileSystem}

-- `Context`, `ContextScope` (whose state is an `S`) and `Object` of the missing headers.
pub record Headers (E S : Type 0) : Type 0 where
  -- `Context::New`, `SetData`, `GetData` and `Global`.
  pub new_context : E → JsValueRef → JsValueRef × E
  pub set_data : E → JsValueRef → ℕ → ℕ × E
  pub get_data : E → JsValueRef → ℕ
  pub global : E → JsValueRef → JsValueRef
  pub enter : E → JsValueRef → S × E
  pub leave : E → S → E
  -- The constructor of an `Object`, `Object::New`, and an assignment to a property.
  pub object : E → JsValueRef → Outcome JsValueRef
  pub new_object : E → JsValueRef × E
  pub set_item : E → JsValueRef → String → JsValueRef → E
  -- What `SetPrototype` answers, as a condition.
  pub set_prototype : E → JsValueRef → JsValueRef → Bool × E

pub data ModuleKind : Type 0 where
  buildin_module : ModuleKind
  native_module : ModuleKind
  source_module : ModuleKind

-- `none` is a null pointer.
pub record BiModuleDesc : Type 0 where
  pub path : Option String
  pub name : Option String
  pub exports : JsValueRef

pub record ModuleRecord (P : Type 0) : Type 0 where
  pub kind_ : ModuleKind
  pub default_name_ : String
  pub file_path_ : P
  pub exports_ : JsValueRef

-- The engine, and the members that some function uses. `runtime_` has no value, `none`, until the
-- constructor sets it.
pub record Runtime (E P : Type 0) : Type 0 where
  pub engine : E
  pub runtime_ : Option JsValueRef
  pub search_dirs_ : List P
  pub buildin_modules_ : Dict String (ModuleRecord P)
  pub global_template_ : JsValueRef
  pub genesis_context_ : JsValueRef

module _ {E S P : Type 0} (js : Jsrt E) (headers : Headers E S) (fs : FileSystem P)
    (concat : P → String → P) where
  abbrev empty_runtime : E → Runtime E P
  empty_runtime e = record {
    engine = e;
    runtime_ = none;
    search_dirs_ = [];
    buildin_modules_ = [];
    global_template_ = nullptr;
    genesis_context_ = nullptr;
  }

  -- The constructor.
  unfoldable pub construct : ℕ → E → Runtime E P
  construct attrs e =
      let (err, handle, e') = js.create_runtime e attrs in
      if not (err == 0)
      then empty_runtime e'
      else let (genesis, e'') = headers.new_context e' handle in
        record (empty_runtime e'') {
          runtime_ = some handle;
          search_dirs_ = fs.current_path ∷ concat fs.current_path "node_modules" ∷ [];
          genesis_context_ = genesis;
        }

  -- The destructor. `none` is a read of a member that has no value.
  unfoldable pub destroy : Runtime E P → Option E
  destroy rt = elim rt.runtime_ [
    | none ↦ none
    | some handle ↦
        some (if handle == nullptr then rt.engine else (js.dispose_runtime rt.engine handle).1)
  ]

  -- `GetFromContext`, the address of a runtime.
  unfoldable pub get_from_context : E → JsValueRef → ℕ
  get_from_context e context = headers.get_data e context

  -- `PromiseContinuation`: the task that it makes is not given to anybody.
  unfoldable pub promise_continuation : JsValueRef → Runtime E P → Runtime E P
  promise_continuation task rt = record rt { engine = (js.add_ref rt.engine task).1 }

  -- The prototype of the global object, with the context entered. The answer is whether the context
  -- is given up.
  abbrev pub give_template : JsValueRef → JsValueRef → E → Bool × E
  give_template context template e =
      let (scope, e1) = headers.enter e context in
      let global = headers.global e1 context in
      if global == nullptr
      then (true, headers.leave e1 scope)
      else let (refused, e2) = headers.set_prototype e1 global template in
        (refused, headers.leave e2 scope)

  -- `CreateContext`, where the runtime stands at `this`, and has a handle.
  unfoldable pub create_context_of : ℕ → JsValueRef → Bool → Runtime E P → JsValueRef × Runtime E P
  create_context_of this handle use_global_template rt =
      let (context, e1) = headers.new_context rt.engine handle in
      if context == nullptr
      then (context, record rt { engine = e1 })
      else let (err, e2) = headers.set_data e1 context this in
        if use_global_template && not (rt.global_template_ == nullptr)
        then (let (refused, e3) = give_template context rt.global_template_ e2 in
            (if refused then nullptr else context, record rt { engine = e3 }))
        else (context, record rt { engine = e2 })

  -- `CreateContext`. `none` is a read of a member that has no value.
  unfoldable pub create_context : ℕ → Bool → Runtime E P → Option (JsValueRef × Runtime E P)
  unfolding create_context_of
  create_context this use_global_template rt = elim rt.runtime_ [
    | none ↦ none
    | some handle ↦ some (create_context_of this handle use_global_template rt)
  ]

  -- `RegisterGlobalTemplate`.
  unfoldable pub register_global_template : JsValueRef → Runtime E P → ℕ × Runtime E P
  unfolding if_exception_return
  register_global_template global = if_exception_return js.error_invalid_argument (do
    global' ← (λ rt. (headers.object rt.engine global, rt))
    if global' == nullptr
        then pure js.error_invalid_argument
        else (λ rt. (returned 0, record rt { global_template_ = global })))

  abbrev pub record_of : BiModuleDesc → String → ModuleRecord P
  record_of desc name = record {
    kind_ = buildin_module;
    default_name_ = name;
    file_path_ = fs.path (elim desc.path [ none ↦ "" | some path ↦ path ]);
    exports_ = desc.exports;
  }

  abbrev pub put_module : BiModuleDesc → String → Exec (Runtime E P) ℕ
  put_module desc name rt = elim (Dict.find ⦃e = string_eq⦄ name rt.buildin_modules_) [
    | some other ↦ (returned js.error_invalid_argument, rt)
    | none ↦ (
      returned 0,
      record rt {
        buildin_modules_ =
            Dict.insert ⦃e = string_eq⦄ name (record_of desc name) rt.buildin_modules_;
      },
    )
  ]

  -- `RegisterModule`.
  unfoldable pub register_module : BiModuleDesc → Runtime E P → ℕ × Runtime E P
  unfolding if_exception_return Dict.find Dict.insert
  register_module desc = if_exception_return js.error_invalid_argument (elim desc.name [
    | none ↦ pure js.error_invalid_argument
    | some name ↦
        if desc.exports == nullptr then pure js.error_invalid_argument else put_module desc name
  ])
