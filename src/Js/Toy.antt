-- ===== src/Js/Toy.antt =====
-- A small engine for the tests: the address of a value tells its type, objects have a text as
-- `main` and a number as every other property, and the state holds the current context, the counts
-- of references, the external data, the data of contexts, and the last `double`.
use chakra_jxx.Base.{string_eq, ℕ, refl, ◌+◌, ◌-◌, ◌%◌, arith, ◌==◌, if◌then◌else◌, pos, List, []}
use chakra_jxx.Js.Jsrt.{Jsrt, JsValueRef, JsValueType, IsSmall}
use chakra_jxx.Js.Value.Types.{ReportsTypes}
use chakra_jxx.Js.Primitive.{Doubles}
use chakra_jxx.Js.Primitive.Pointers.{Exact}
use chakra_jxx.Js.Durable.Balance.{Counts}
use chakra_jxx.Js.Context.Scopes.{Switches}

pub record Engine : Type 0 where
  pub current : JsValueRef
  pub refs : JsValueRef → ℕ
  pub external : JsValueRef → ℕ
  pub context_data : JsValueRef → ℕ
  pub double : ℕ
  -- What a test's `JsCallFunction` may list.
  pub called : List JsValueRef

abbrev pub value_types : JsValueType
value_types = record {
  js_undefined = 0;
  js_null = 1;
  js_number = 2;
  js_string = 3;
  js_boolean = 4;
  js_object = 5;
  js_function = 6;
  js_array = 8;
  js_symbol = 9;
  js_array_buffer = 10;
  js_typed_array = 11;
  js_data_view = 12;
}

abbrev pub engine : Engine
engine = record {
  current = 100;
  refs = λ v. 0;
  external = λ v. 0;
  context_data = λ c. 7;
  double = 12;
  called = [];
}

abbrev change : Engine → JsValueRef → (ℕ → ℕ) → Engine
change e v f = record e { refs = λ w. if w == v then f (e.refs w) else e.refs w }

-- 15 is a number, 18 an object, 16 a string, 19 a function, 21 an array, 23 a buffer,
-- 24 a typed array and 25 a data view.
abbrev pub toy : Jsrt Engine
toy = record {
  types = value_types;
  error_invalid_argument = 0x10001;
  error_out_of_memory = 0x20001;
  error_invalid_context = 0x10009;
  get_value_type = λ e v. (0, v % 13);
  create_property_id = λ e name. (0, (if string_eq.beq name "main" then 3 else 1), e);
  set_property = λ e o pid v. (0, e);
  set_property_strictly = λ e o pid v. (0, e);
  get_property = λ e o pid. (0, (if pid == 3 then 16 else 15), e);
  set_prototype = λ e o proto. (0, e);
  create_object = λ e. (0, 18, e);
  create_string = λ e s. (0, 16, e);
  create_named_function = λ e name f cookie. (0, 19, e);
  get_external_data = λ e v. (0, e.external v);
  add_ref = λ e v. (1, change e v (λ n. n + 1));
  release = λ e v. (1, change e v (λ n. n - 1));
  get_current_context = λ e. (0, e.current);
  set_current_context = λ e c. (0, record e { current = c });
  get_context_of_object = λ e v. (0, 100);
  create_context = λ e handle. (0, 101, e);
  set_context_data = λ e c cookie.
      (0, record e { context_data = λ d. if d == c then cookie else e.context_data d });
  get_context_data = λ e c. (0, e.context_data c);
  get_global_object = λ e. (0, 18);
  get_prototype = λ e v. (0, 18);
  copy_string = λ e v. (0, "main.js");
  number_to_int = λ e v. (0, pos 3);
  int_to_number = λ e i. (0, 15, e);
  set_indexed_property = λ e a i v. (0, e);
  get_indexed_property = λ e a i. (0, 15, e);
  create_array = λ e n. (0, 21, e);
  create_symbol = λ e v. (0, 22, e);
  run = λ e code uri. (0, 15, e);
  call_function = λ e f args. (0, 18, e);
  get_typed_array_storage = λ e v. (0, 1000, 16, 3, 4);
  get_array_buffer_storage = λ e v. (0, 1000, 16);
  get_data_view_storage = λ e v. (0, 1008, 8);
  create_array_buffer = λ e n. (0, 23, e);
  create_external_array_buffer = λ e bytes. (0, 23, e);
  create_data_view = λ e b o n. (0, 25, e);
  set_external_data =
      λ e v data'. (0, record e { external = λ w. if w == v then data' else e.external w });
  create_external_object = λ e data' proto.
      (0, 31, record e { external = λ w. if w == 31 then data' else e.external w });
  number_to_double = λ e v. (0, e.double);
  double_to_number = λ e bits. (0, 15, record e { double = bits });
  boolean_to_bool = λ e v. (0, v == 17);
  bool_to_boolean = λ e b. (0, (if b then 17 else 30), e);
  convert_value_to_boolean = λ e v. (0, 17, e);
  get_null_value = λ e. (0, 14);
  get_undefined_value = λ e. (0, 13);
  get_property_id_type = λ e v. (0, 0);
  get_property_id_from_symbol = λ e v. (0, 2, e);
  construct_object = λ e f args. (0, 18, e);
  create_runtime = λ e attrs. (0, 50, e);
  dispose_runtime = λ e handle. (0, e);
  set_promise_continuation_callback = λ e state. (0, e);
  set_runtime_before_collect_callback = λ e handle state. (0, e);
  set_object_before_collect_callback = λ e o data' callback. (0, e);
  error_script_exception = 0x30001;
  get_and_clear_exception = λ e. (0, 18, e);
}

pub value_types-IsSmall : IsSmall value_types
value_types-IsSmall = omega arith

pub toy-ReportsTypes : ReportsTypes toy engine
toy-ReportsTypes v = omega arith

pub toy-Counts : Counts toy (λ e v. e.refs v)
toy-Counts = record { refs_add_ref = λ e v w. ground arith; refs_release = λ e v w. ground arith }

pub toy-Switches : Switches toy
toy-Switches = record {
  get_set = λ e c done. refl;
  get_failed = λ e c failed. cc;
  set_prev = λ e e' known. refl;
}

abbrev pub doubles : Doubles
doubles = record { of_intptr = λ n. n; to_intptr = λ n. n }

pub toy-Exact : Exact toy doubles
toy-Exact = record { exact = λ n small. refl; made = λ e bits. refl; read = λ e bits. refl }
