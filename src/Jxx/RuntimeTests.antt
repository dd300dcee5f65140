-- ===== src/Jxx/RuntimeTests.antt =====
-- The runtime, its modules, tasks and external objects on the toy engine, and the theorems at
-- concrete data.
use chakra_jxx.Base.{
  ℕ, String, ◌≡◌, refl, arith, true, false, List, [], ◌∷◌, some, Outcome, returned, thrown, ◌==◌,
  if◌then◌else◌, bit_or, inr, ◌+◌, ◌-◌, pos, ◌++◌,
}
use chakra_jxx.Base.Bits.{test_bit}
use chakra_jxx.Base.Holders.{holders, one_if}
use chakra_jxx.Base.Dict.{find}
use chakra_jxx.Js.Jsrt.{Jsrt, JsValueRef, nullptr}
use chakra_jxx.Js.Context
use chakra_jxx.Js.Function.{as_the_, more_list_, value}
use chakra_jxx.Js.Mask
use chakra_jxx.Js.Value.{type_id}
use chakra_jxx.Js.Toy.{Engine, engine, toy, toy-ReportsTypes, toy-Counts, toy-Switches}
use chakra_jxx.Jxx.Api.{Members, Host, get_current_runtime, create_context}
use chakra_jxx.Jxx.Api.Current.{KeepsData, entered_in, get_current_runtime-create_context}
use chakra_jxx.Jxx.Class.{JxxClass, jxx_class, no_parents, parent, query_class}
use chakra_jxx.Jxx.ErrorCode.{eo_module, ec_none, ec_has_existed}
use chakra_jxx.Jxx.EventLoop
use chakra_jxx.Jxx.EventLoop.{Loop, promise_continuation, run_one}
use chakra_jxx.Jxx.EventLoop.Tasks.{Keeps, IsCounted, posts, runs, here, next, Reach-IsCounted}
use chakra_jxx.Jxx.EventLoop.Order.{Logs, Enters, run-log}
use chakra_jxx.Jxx.ExtObject.{
  hold, drop_ref, get_jxx_object, World, NativeMethod, assign_jxx_object, stub_of_magic_method_of,
}
use chakra_jxx.Jxx.ExtObject.Ownership.{assign_jxx_object-IsSound}
use chakra_jxx.Jxx.ExtObject.Methods.{stub_of_magic_method_of_lem}
use chakra_jxx.Jxx.JxxRuntime.{before_collect, create_runtime}
use chakra_jxx.Jxx.JxxRuntime.Life.{create_runtime-before_collect}
use chakra_jxx.Jxx.Loader.{Runtime, find_module, set_running}
use chakra_jxx.Jxx.Modules.{
  ModuleDetail, ModuleRegistry, buildin_native, addon_native, query_module, load_buildin_module,
  load_module,
}
use chakra_jxx.Jxx.Modules.Registered.{register, query, run, replay, view, viewed, run_refines}
use chakra_jxx.Jxx.Modules.Builtin.{after_loads, load_module-buildin}
use chakra_jxx.Jxx.ObjectPtr.{Pointers}
use chakra_jxx.Jxx.ObjectPtr.Lifetime.{HasRoom, IsSound}
use chakra_jxx.Jxx.Toy.{disk, runtime}

-- The runtime 7 has the handle 50.
abbrev members : Members String
members = record {
  handle = 50;
  search_path = [];
  zone_0 = 101;
  json_parse_ = 19;
  json_stringify_ = 19;
  strings = [];
  protos = [];
  symbols = [];
  propids = [];
}

abbrev nothing_held : Pointers
nothing_held = record { ref_count = λ o. 0; deleted = λ o. false; slots = [] }

abbrev host : Host Engine String
host = record { engine = engine; objects = nothing_held; members = λ p. members }

toy-KeepsData : KeepsData toy
toy-KeepsData = record {
  keeps_data = λ e c cookie done. ground arith;
  failed_null = λ e handle failed. absurd (failed refl);
}

get_current_runtime-create_context_example : get_current_runtime toy (entered_in toy 9 host).1 ≡ 9
unfolding create_context Context.enter
get_current_runtime-create_context_example =
    get_current_runtime-create_context toy 9 host toy-Switches toy-KeepsData (omega arith)
      (omega arith) refl

answered : (create_runtime toy disk 7 0 (some (λ rt h. (0, h))) host).0 ≡ 7
unfolding create_runtime
answered = refl

create_runtime-before_collect_example :
    ((create_runtime toy disk 7 0 (some (λ rt h. (0, h))) host).1.objects.deleted 7 ≡ false)
    × ((before_collect toy 7
            (create_runtime toy disk 7 0 (some (λ rt h. (0, h))) host).1).objects.deleted
          7
        ≡ true)
create_runtime-before_collect_example =
    create_runtime-before_collect toy disk 7 0 (λ rt h. (0, h)) host (omega arith) refl refl
      (λ h. refl) (omega (arith, answered))

abbrev fs_module : ModuleDetail
fs_module = buildin_native "internals/fs" 900

run_refines_example :
    viewed (
      run
        (register fs_module
          ∷ register (addon_native "internals/fs" "fs.so")
          ∷ query "internals/fs"
          ∷ [])
        [])
    ≡ replay
        (register fs_module
          ∷ register (addon_native "internals/fs" "fs.so")
          ∷ query "internals/fs"
          ∷ [])
        (view [])
run_refines_example =
    run_refines
      (register fs_module
        ∷ register (addon_native "internals/fs" "fs.so")
        ∷ query "internals/fs"
        ∷ [])
      []

abbrev registry : ModuleRegistry
registry = ("internals/fs", fs_module) ∷ []

abbrev made_by :
    ModuleDetail → Runtime Engine String → Outcome (ℕ × JsValueRef) × Runtime Engine String
made_by detail s = (returned (0, 18), s)

fs_loaded :
    (load_module toy disk made_by registry "internals/fs" nullptr runtime).0
    ≡ returned (ec_none, 18)
unfolding load_module find query_module load_buildin_module set_running
fs_loaded = refl

load_module-buildin_example :
    let s' = (load_module toy disk made_by registry "internals/fs" nullptr runtime).1 in
    (find_module toy disk "internals/fs" s' ≡ some 18)
    × (load_module toy disk made_by registry "internals/fs" nullptr
          (after_loads toy disk made_by registry (("data", nullptr) ∷ []) s')
        ≡ (
          returned (bit_or eo_module ec_has_existed, 18),
          after_loads toy disk made_by registry (("data", nullptr) ∷ []) s',
        ))
unfolding query_module
load_module-buildin_example =
    load_module-buildin toy disk made_by registry "internals/fs" nullptr nullptr 18 fs_module
      runtime (("data", nullptr) ∷ []) (λ d s. refl) refl refl fs_loaded

-- The task 19 waits, with one reference. It posts the task 32 when it runs.
abbrev waiting : Loop Engine
waiting = record {
  engine = record engine { refs = λ v. if v == 19 then 1 else 0 };
  tasks = 19 ∷ [];
}

abbrev jobs_of : Engine → JsValueRef → List JsValueRef
jobs_of e task = if task == 19 then 32 ∷ [] else []

toy-Keeps : Keeps toy (λ e v. e.refs v)
toy-Keeps = record { keeps_call = λ e f args v. refl; keeps_context = λ e c v. refl }

Reach-IsCounted_example :
    IsCounted (λ e v. e.refs v) (λ v. 0) (run_one toy jobs_of (promise_continuation toy 33 waiting))
unfolding holders
Reach-IsCounted_example =
    Reach-IsCounted toy (λ e v. e.refs v) toy-Counts toy-Keeps jobs_of (λ v. 0) (λ v. ground arith)
      (next (next here (posts 33 waiting)) (runs (promise_continuation toy 33 waiting)))

-- An engine that lists what it calls.
abbrev listing : Jsrt Engine
listing = record toy {
  call_function = λ e f args. (0, 18, record e { called = e.called ++ f ∷ [] });
}

listing-Logs : Logs listing (λ e. e.called)
listing-Logs = record {
  logs_call = λ e f args. refl;
  logs_add_ref = λ e v. refl;
  logs_release = λ e v. refl;
  logs_context = λ e c. refl;
}

listing-Enters : Enters listing
listing-Enters = record { gets = λ e. refl; sets = λ e c. refl }

-- The task 32 that 19 posts waits behind 33.
run-log_example :
    (EventLoop.run listing jobs_of 2 (record waiting { tasks = 19 ∷ 33 ∷ [] })).engine.called
    ≡ 19 ∷ 33 ∷ []
run-log_example =
    run-log listing jobs_of (λ e. e.called) listing-Logs listing-Enters 2
      (record waiting { tasks = 19 ∷ 33 ∷ [] }) (omega arith)

-- The value 18 stands for the object 7.
abbrev world : World Engine
world = record {
  engine = record engine { external = λ v. if v == 18 then 7 else 0 };
  objects = record {
    ref_count = λ o. if o == 7 then 1 else if o == 9 then 1 else 0;
    deleted = λ o. false;
    slots = 9 ∷ [];
  };
}

abbrev references : ℕ → ℕ
references o = if o == 7 then 1 else 0

world-HasRoom : HasRoom world.objects
world-HasRoom o = ground arith

world-IsSound : IsSound references world.objects
unfolding holders
world-IsSound o n = (ground arith, λ held. refl)

assign_jxx_object-IsSound_example :
    IsSound
      (λ o.
        if (assign_jxx_object toy 18 9 world).0 == 0
        then references o + one_if o 9 - one_if o 7
        else references o)
      (assign_jxx_object toy 18 9 world).1.objects
assign_jxx_object-IsSound_example =
    assign_jxx_object-IsSound toy references 18 9 world world-IsSound world-HasRoom (inr refl)
      (inr (omega arith))

-- A socket is a stream.
abbrev socket : JxxClass
socket = jxx_class 2 [] [] (parent (jxx_class 1 [] [] no_parents) no_parents)

-- A method that answers with its second argument.
abbrev second : NativeMethod toy
second this_ path info (a ∷ value v ∷ rest) w = (returned v, w)
second this_ path info other w = (thrown (pos toy.error_invalid_argument), w)

abbrev on_socket : World Engine
on_socket = record world { engine = record engine { external = λ v. 7 } }

-- A call of the method of a stream, on the socket that 18 stands for: the socket is held in the
-- meantime.
stub_of_magic_method_of_lem_example :
    (stub_of_magic_method_of toy
        (λ o. socket)
        (as_the_ 4 ∷ as_the_ 8 ∷ more_list_ ∷ [])
        second
        1
        19
        false
        (18 ∷ 15 ∷ 16 ∷ [])
        3
        1
        on_socket
      ≡ some (16, drop_ref toy 7 (hold toy 7 on_socket)))
    × (stub_of_magic_method_of toy
          (λ o. socket)
          (as_the_ 4 ∷ as_the_ 8 ∷ more_list_ ∷ [])
          second
          1
          19
          false
          (18 ∷ [])
          0
          1
          on_socket
        ≡ some (nullptr, on_socket))
unfolding type_id test_bit query_class Mask.bit get_jxx_object
stub_of_magic_method_of_lem_example =
    stub_of_magic_method_of_lem toy (λ o. socket) on_socket
      (as_the_ 4 ∷ as_the_ 8 ∷ more_list_ ∷ []) second 1 19 false 18 (15 ∷ 16 ∷ []) (18 ∷ []) 1
      toy-ReportsTypes
