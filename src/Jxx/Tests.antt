-- ===== src/Jxx/Tests.antt =====
-- Runs of the module loader on the toy disk, and the theorems at concrete data.
use chakra_jxx.Base.{
  ℕ, false, ◌==◌, if◌then◌else◌, ◌≡◌, arith, refl, String, true, not, [], ◌∷◌, some, ◌&&◌, returned,
  bit_or, string_eq, pos, Outcome,
}
use chakra_jxx.Base.Dict
use chakra_jxx.Js.Jsrt.{JsValueRef, nullptr}
use chakra_jxx.Js.Value.{base_value}
use chakra_jxx.Js.Mask
use chakra_jxx.Js.Primitive.{get_as_string}
use chakra_jxx.Js.Object
use chakra_jxx.Js.Toy.{Engine, engine, toy}
use chakra_jxx.Jxx.ErrorCode.{eo_module, ec_none, ec_has_existed}
use chakra_jxx.Jxx.Evaluate.{value, object, read_file_content}
use chakra_jxx.Jxx.SearchPath.{ModuleStorages, exists, remove_path, resolve_ex, first_in}
use chakra_jxx.Jxx.SearchPath.Tokens.{DistinctTokens, remove_path_lem}
use chakra_jxx.Jxx.SearchPath.Candidates.{resolve_ex-candidates}
use chakra_jxx.Jxx.Loader.{
  Runtime, find_module, set_running, load_file_as_module, main_of_package, locate, load_located,
  load_module, specialers_of, jxx_json_parse,
}
use chakra_jxx.Jxx.Loader.Running.{load_module_keeps, load_module_twice}
use chakra_jxx.Jxx.Loader.Kinds.{load_module_file}
use chakra_jxx.Jxx.Registry.{done, outside, multi_sz_in, multi_sz}
use chakra_jxx.Jxx.Registry.Texts.{
  AreTexts, EndsWithin, multi_sz-terminated, multi_sz_in-EndsWithin,
}
use chakra_jxx.Jxx.Class.{JxxClass, jxx_class, no_parents, parent, query_class, mixin_object}
use chakra_jxx.Jxx.Class.Query.{Answers, query_class-Answers}
use chakra_jxx.Jxx.Class.Mixin.{Works, define_all, mixin_object_lem}
use chakra_jxx.Base.Holders.{holders}
use chakra_jxx.Jxx.ObjectPtr.{Pointers, reset_copy}
use chakra_jxx.Jxx.ObjectPtr.Lifetime.{HasRoom, IsSound}
use chakra_jxx.Jxx.ObjectPtr.Members.{resets_copy, after-IsSound}
use chakra_jxx.Jxx.ValueCache.{ValueCache, get_string}
use chakra_jxx.Jxx.Toy.{disk, disk_dots, runtime}

abbrev storages : ModuleStorages String
storages = runtime.search_path

storages-DistinctTokens : DistinctTokens disk storages
unfolding exists
storages-DistinctTokens = (refl, tt)

remove_path_lem_example :
    ((remove_path disk storages "lib").0 ≡ true)
    × DistinctTokens disk (remove_path disk storages "lib").1
    × ((t : String)
        → exists disk (remove_path disk storages "lib").1 t
          ≡ (exists disk storages t && not (string_eq.beq "lib" t)))
unfolding exists
remove_path_lem_example = remove_path_lem disk storages "lib" storages-DistinctTokens

resolve_ex-candidates_example :
    resolve_ex disk storages ("a" ∷ "a.js" ∷ []) "" ≡ (pos 1, "/lib/a.js")
resolve_ex-candidates_example = resolve_ex-candidates disk storages ("a" ∷ "a.js" ∷ []) ""

load : String → Runtime Engine String → Outcome (ℕ × JsValueRef) × Runtime Engine String
unfolding load_module locate specialers_of resolve_ex first_in load_located load_file_as_module
    set_running Dict.find read_file_content value base_value Mask.bit Mask.complement
    Mask.any_object Object.get_property_by_name main_of_package get_as_string jxx_json_parse object
load specialer = load_module toy disk specialer nullptr

-- The script is read as a plain file: its exports are its text, the value 16.
a_run : (load "a" runtime).0 ≡ returned (ec_none, 16)
unfolding load
a_run = refl

-- The package leads to its main file.
box_run : (load "box" runtime).0 ≡ returned (ec_none, 16)
unfolding load
box_run = refl

load_module_keeps_example : find_module toy disk "/lib/old.js" (load "a" runtime).1 ≡ some 31
unfolding load
load_module_keeps_example = load_module_keeps toy disk "a" nullptr runtime "/lib/old.js" 31 refl

load_module_file_example :
    load "a" runtime
    ≡ load_file_as_module toy disk "/lib/a.js" nullptr (locate toy disk "a" runtime).1
unfolding load
load_module_file_example = load_module_file toy disk disk_dots "a" nullptr runtime "/lib/a.js" refl

load_module_twice_example :
    let s' = (load "a" runtime).1 in
    (find_module toy disk "/lib/a.js" s' ≡ some 16)
    × ((load "a" s').0 ≡ returned (bit_or eo_module ec_has_existed, 16))
    × ((load "a" s').1.running_modules ≡ s'.running_modules)
unfolding load
load_module_twice_example =
    load_module_twice toy disk "a" "a" nullptr nullptr 16 runtime "/lib/a.js" refl a_run refl

two_texts-AreTexts : AreTexts ((97 ∷ 98 ∷ []) ∷ (99 ∷ []) ∷ [])
two_texts-AreTexts = ground arith

-- The two texts `ab` and `c`.
multi_sz-terminated_example :
    (multi_sz (97 ∷ 98 ∷ 0 ∷ 99 ∷ 0 ∷ 0 ∷ []) ≡ done ((97 ∷ 98 ∷ []) ∷ (99 ∷ []) ∷ []))
    × (multi_sz (97 ∷ 98 ∷ 0 ∷ 99 ∷ 0 ∷ []) ≡ outside)
multi_sz-terminated_example =
    multi_sz-terminated ((97 ∷ 98 ∷ []) ∷ (99 ∷ []) ∷ []) [] two_texts-AreTexts

-- No terminator before the end of the buffer.
multi_sz_in-EndsWithin_example : EndsWithin 3 (multi_sz_in (97 ∷ 0 ∷ 98 ∷ []) (99 ∷ 0 ∷ 100 ∷ []))
multi_sz_in-EndsWithin_example = multi_sz_in-EndsWithin (97 ∷ 0 ∷ 98 ∷ []) (99 ∷ 0 ∷ 100 ∷ [])

-- The class 2, with two methods and a function, and its parent 1.
abbrev socket : JxxClass
socket =
    jxx_class 2 (record { name = "read"; callee = 70 } ∷ record { name = "main"; callee = 71 } ∷ [])
      (record { name = "open"; callee = 72 } ∷ [])
      (parent (jxx_class 1 [] [] no_parents) no_parents)

query_class-Answers_example : Answers socket 1 (some (0 ∷ []))
unfolding query_class
query_class-Answers_example = query_class-Answers socket 1

toy-Works : Works toy 18
unfolding base_value Mask.bit Mask.any_object
toy-Works = record {
  is_object = λ e. refl;
  not_null = omega arith;
  string = λ e s. refl;
  string_not_null = λ e s. omega arith;
  function = λ e name callee id. refl;
  function_not_null = λ e name callee id. omega arith;
}

mixin_object_lem_example : mixin_object toy 18 socket 1 engine ≡ (
  returned (pos 0),
  define_all toy 18
      ((2, record { name = "read"; callee = 70 }) ∷ (2, record { name = "main"; callee = 71 }) ∷ [])
      engine,
)
mixin_object_lem_example = mixin_object_lem toy 18 socket 1 engine toy-Works

-- A pointer to the object 7, and one that is null.
abbrev pointers : Pointers
pointers = record {
  ref_count = λ o. if o == 7 then 1 else 0;
  deleted = λ o. false;
  slots = 7 ∷ 0 ∷ [];
}

pointers-HasRoom : HasRoom pointers
pointers-HasRoom o = ground arith

pointers-IsSound : IsSound (λ o. 0) pointers
unfolding holders
pointers-IsSound o n = (ground arith, λ held. refl)

-- Both pointers are to objects of a class 3 that has no parents.
after-IsSound_example :
    (h' : Pointers) × (reset_copy (λ o. jxx_class 3 [] [] no_parents) 3 pointers 1 0 ≡ some h')
    × IsSound (λ o. 0) h'
after-IsSound_example =
    after-IsSound (λ o. jxx_class 3 [] [] no_parents) (λ o. 0) pointers
      (resets_copy 3 1 0 (omega arith) (omega arith)) pointers-HasRoom pointers-IsSound

abbrev cache : ValueCache Engine
cache = record { engine = engine; strings = []; protos = []; symbols = []; propids = [] }

string_made : (get_string toy "main.js" cache).0 ≡ returned 16
unfolding get_string Dict.find base_value Mask.bit Mask.complement
string_made = refl
