-- ===== src/Jxx/MainTests.antt =====
-- The start of the program and its server on the toy engine, the templates of contexts, and the
-- theorems at concrete data.
use chakra_jxx.Base.{
  ℕ, String, ◌≡◌, ◌≤◌, refl, arith, true, false, List, [], ◌∷◌, ◌==◌, if◌then◌else◌, pos, length,
  returned, Exec, Option, some, pure,
}
use chakra_jxx.Js.Jsrt.{Jsrt, JsValueRef, nullptr}
use chakra_jxx.Js.Context
use chakra_jxx.Js.Context.Scopes.{Switches}
use chakra_jxx.Js.Mask
use chakra_jxx.Js.Value.{as_the, base_value}
use chakra_jxx.Js.Primitive.{just_string, just_boolean}
use chakra_jxx.Js.Toy.{Engine, engine, toy}
use chakra_jxx.Jxx.Api.{Members, Host, get_current_runtime, create_context}
use chakra_jxx.Jxx.Api.Current.{KeepsData}
use chakra_jxx.Jxx.Class.{JxxClass, jxx_class, no_parents}
use chakra_jxx.Jxx.Main.Listening.{program, here, next, accepts}
use chakra_jxx.Jxx.Main.Accepts.{main-AtMostOne}
use chakra_jxx.Jxx.Main.Start.{prepare, start, served_after, main}
use chakra_jxx.Jxx.Main.Started.{Returns, start-current}
use chakra_jxx.Jxx.Modules.Templates.{Prototypes, create_context_for, create_context_for-proto}
use chakra_jxx.Jxx.Tcp.{Asio, Net}
use chakra_jxx.Jxx.Tcp.Acceptors.{complete_accept}
use chakra_jxx.Jxx.Toy.{disk}

-- An engine whose properties are all functions, and that keeps the prototypes of objects.
abbrev functional : Jsrt Engine
functional = record toy {
  get_property = λ e o pid. (0, 19, e);
  set_prototype =
      λ e o proto. (0, record e { external = λ w. if w == o then proto else e.external w });
}

functional-Switches : Switches functional
functional-Switches = record {
  get_set = λ e c done. refl;
  get_failed = λ e c failed. cc;
  set_prev = λ e e' known. refl;
}

functional-KeepsData : KeepsData functional
functional-KeepsData = record {
  keeps_data = λ e c cookie done. ground arith;
  failed_null = λ e handle failed. absurd (failed refl);
}

functional-Returns : Returns functional
unfolding get_current_runtime
functional-Returns = record { runtime_string = λ e text. refl; runtime_run = λ e code uri. refl }

abbrev members : Members String
members = record {
  handle = 50;
  search_path = [];
  zone_0 = 101;
  json_parse_ = 19;
  json_stringify_ = 19;
  strings = [];
  protos = [];
  symbols = [];
  propids = [];
}

abbrev host : Host Engine String
host = record {
  engine = engine;
  objects = record { ref_count = λ o. 0; deleted = λ o. false; slots = [] };
  members = λ p. members;
}

abbrev scope : Context.Scope
scope = record { prev = 100; entered = true }

started : (start functional disk 9 host).0 ≡ returned scope
unfolding start base_value Mask.bit Mask.any_object Mask.complement
started = refl

context_of_start : (create_context functional 9 (prepare functional disk 9 host).1).0 ≡ 101
unfolding prepare create_context base_value Mask.bit Mask.any_object Mask.complement
context_of_start = refl

start-current_example : get_current_runtime functional (start functional disk 9 host).1.engine ≡ 9
start-current_example =
    start-current functional disk functional-Switches functional-KeepsData functional-Returns 9
      (omega arith) host scope started (omega (arith, context_of_start)) refl

functional-Prototypes : Prototypes functional (λ e o. e.external o)
functional-Prototypes = record {
  proto_set = λ e o proto w other. ground arith;
  proto_set_self = λ e o proto done. ground arith;
  proto_context = λ e handle w. refl;
  proto_data = λ e c cookie w. refl;
  global_context = λ e handle. refl;
  global_data = λ e c cookie. refl;
}

context_made : (create_context_for functional 31 host).0 ≡ returned 101
unfolding create_context_for base_value Mask.bit Mask.any_object Mask.complement
context_made = refl

-- 18 is the global object that is current.
create_context_for-proto_example : (create_context_for functional 31 host).1.engine.external 18 ≡ 31
unfolding Context.global
create_context_for-proto_example =
    create_context_for-proto functional (λ e o. e.external o) functional-Prototypes 31 101 host 18
      context_made (omega arith) (omega arith)

abbrev quiet_asio : Asio (Unit {0})
quiet_asio = record {
  is_open = λ t object. true;
  adopt = λ object t. t;
  open_socket = λ t object version. (0, t);
  listen = λ object t. (returned tt, t);
  resolve = λ host port t. (returned 80, t);
  open_acceptor = λ object endpoint t. (returned tt, t);
  reuse_address = λ object t. (returned tt, t);
  bind = λ object endpoint t. (returned tt, t);
}

abbrev acceptor_class : ℕ → JxxClass
acceptor_class o = jxx_class 3 [] [] no_parents

abbrev idle : Net Engine String (Unit {0})
idle = record { host = host; sockets = tt; pending = []; accepts = [] }

-- Settings that a registry of no keys gives.
abbrev no_settings : Exec (Engine × ℕ) (Option JsValueRef)
no_settings = pure (some nullptr)

abbrev opened : Net Engine String (Unit {0})
opened = (main functional disk no_settings quiet_asio acceptor_class 3 9 11 60 (idle, 0)).1.0

accept_waits : opened.accepts ≡ record { acceptor = 31; object = 11 } ∷ []
unfolding main served_after start base_value Mask.bit just_string as_the Mask.any_object
    Mask.complement just_boolean
accept_waits = refl

abbrev run_program :
    JsValueRef → List JsValueRef → Net Engine String (Unit {0}) → Net Engine String (Unit {0})
run_program = program functional acceptor_class 2 (79 ∷ 75 ∷ []) (λ f. f == 19) 70

-- The accept ends with a client at 12.
main-AtMostOne_example :
    length
      (complete_accept functional quiet_asio acceptor_class 3 run_program
        (record { acceptor = 31; object = 11 })
        12
        (pos 0)
        (record opened { accepts = [] })).1.accepts
    ≤ 1
main-AtMostOne_example =
    main-AtMostOne functional disk no_settings quiet_asio acceptor_class 3 2 (79 ∷ 75 ∷ [])
      (λ f. f == 19) 60 70 9 11 idle _ 0 refl
      (next here
        (accepts [] [] (record { acceptor = 31; object = 11 }) 12 (pos 0) opened accept_waits))
