-- ===== src/Mode/Tests.antt =====
-- The older runtime on the toy engine, and the theorems at concrete data.
use Prim.Native.String.{◌++◌ as ◌<>◌}
use chakra_jxx.Base.{
  String, ◌≡◌, ◌≢◌, refl, arith, true, false, ◌==◌, if◌then◌else◌, none, some, returned, string_eq,
}
use chakra_jxx.Js.Jsrt.{JsValueRef, nullptr}
use chakra_jxx.Js.Toy.{Engine, engine, toy}
use chakra_jxx.Jxx.Toy.{disk}
use chakra_jxx.Mode.Runtime.{Headers, Runtime, construct, create_context, get_from_context}
use chakra_jxx.Mode.Runtime.Init.{init_my_runtime, make_modules}
use chakra_jxx.Mode.Runtime.Registered.{found_in, first_of, begun, init_my_runtime-modules}
use chakra_jxx.Mode.Runtime.Contexts.{KeepsData, get_from_context-create_context}

-- The state of a scope is the context that was current before.
abbrev headers : Headers Engine JsValueRef
headers = record {
  new_context = λ e handle. (101, e);
  set_data = λ e c cookie.
      (0, record e { context_data = λ d. if d == c then cookie else e.context_data d });
  get_data = λ e c. e.context_data c;
  global = λ e c. 18;
  enter = λ e c. (e.current, record e { current = c });
  leave = λ e prev. record e { current = prev };
  object = λ e v. returned v;
  new_object = λ e. (18, e);
  set_item = λ e o name v. e;
  set_prototype = λ e o proto. (false, e);
}

abbrev new_module : String → Engine → JsValueRef × Engine
new_module name e = (if string_eq.beq name "JxxZlib" then nullptr else 18, e)

abbrev concat : String → String → String
concat p s = p <> s

abbrev runtime : Runtime Engine String
unfolding construct
runtime = construct toy headers disk concat 0 engine

init_my_runtime-modules_example :
    (main : JsValueRef) × (rt' : Runtime Engine String) × (init_my_runtime toy headers disk concat
        new_module 9 runtime
      ≡ some (main, rt'))
    × ((name : String)
        → found_in rt' name
          ≡ first_of toy headers disk concat name
              (make_modules toy headers disk concat new_module
                (begun toy headers disk concat new_module runtime)).0.2)
unfolding runtime
init_my_runtime-modules_example =
    init_my_runtime-modules toy headers disk concat new_module 9 runtime 50 refl refl

-- The class that made no module is not registered.
no_zlib :
    first_of toy headers disk concat "zlib"
      (make_modules toy headers disk concat new_module runtime).0.2
    ≡ none
unfolding make_modules
no_zlib = refl

headers-KeepsData : KeepsData headers
headers-KeepsData = record {
  data_set = λ e c cookie done. ground arith;
  data_enter = λ e c d. refl;
  data_leave = λ e s c. refl;
  data_prototype = λ e o proto c. refl;
}

get_from_context-create_context_example :
    (context : JsValueRef) × (rt' : Runtime Engine String) × (create_context toy headers disk concat
        9 true runtime
      ≡ some (context, rt'))
    × (context ≢ nullptr → get_from_context toy headers disk concat rt'.engine context ≡ 9)
unfolding runtime
get_from_context-create_context_example =
    get_from_context-create_context toy headers disk concat 9 true runtime 50 headers-KeepsData refl
      refl
