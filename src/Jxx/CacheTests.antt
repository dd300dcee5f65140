-- ===== src/Jxx/CacheTests.antt =====
-- The value cache, the exports of classes and object pointers on the toy engine, and the theorems
-- at concrete data.
use chakra_jxx.Base.{ℕ, ◌≡◌, refl, arith, false, [], ◌∷◌, some, ◌==◌, if◌then◌else◌}
use chakra_jxx.Base.Holders.{holders}
use chakra_jxx.Js.Jsrt.{JsValueRef}
use chakra_jxx.Js.Toy.{Engine, engine, toy, toy-Counts}
use chakra_jxx.Jxx.Class.{Export, JxxClass, jxx_class, no_parents, query_class}
use chakra_jxx.Jxx.Class.Exports.{Template, read_entries, definition_of, no_statics}
use chakra_jxx.Jxx.Class.Registered.{
  a_method, a_function, register_all, ask_all, methods_of, functions_of, definition_of-register_all,
}
use chakra_jxx.Jxx.ObjectPtr.{Pointers, get, reset_move}
use chakra_jxx.Jxx.ObjectPtr.Lifetime.{HasRoom, IsSound}
use chakra_jxx.Jxx.ObjectPtr.Conversions.{reset_move-IsSound}
use chakra_jxx.Jxx.ValueCache.{ValueCache}
use chakra_jxx.Jxx.ValueCache.Entries.{entries, IsMap}
use chakra_jxx.Jxx.ValueCache.Counted.{Makes, IsCounted}
use chakra_jxx.Jxx.ValueCache.Requests.{
  asks_string, asks_symbol_at, puts_proto, clears, afters, afters-IsCounted,
}

abbrev counts : Engine → JsValueRef → ℕ
counts e v = e.refs v

toy-Makes : Makes toy counts
toy-Makes = record {
  makes_string = λ e text v. refl;
  makes_property_id = λ e name v. refl;
  makes_symbol = λ e text v. refl;
}

abbrev empty_cache : ValueCache Engine
empty_cache = record { engine = engine; strings = []; protos = []; symbols = []; propids = [] }

empty_cache-IsCounted : IsCounted counts (λ v. 0) empty_cache
unfolding entries IsMap
empty_cache-IsCounted = record {
  each_once = λ v n. refl;
  strings_map = tt;
  protos_map = tt;
  symbols_map = tt;
  propids_map = tt;
}

afters-IsCounted_example :
    IsCounted counts
      (λ v. 0)
      (afters toy
        (λ p. 3)
        (λ p n. "sym")
        (asks_string "main.js" ∷ asks_symbol_at 5 0 ∷ puts_proto "socket" 18 ∷ clears ∷ [])
        empty_cache)
afters-IsCounted_example =
    afters-IsCounted toy (λ p. 3) (λ p n. "sym") counts toy-Counts toy-Makes (λ v. 0)
      (asks_string "main.js" ∷ asks_symbol_at 5 0 ∷ puts_proto "socket" 18 ∷ clears ∷ [])
      empty_cache empty_cache-IsCounted

abbrev socket_template : ℕ → Template
socket_template cls = record { js_uncname = "socket"; parents_ = [] }

abbrev open_ : Export
open_ = record { name = "open"; callee = 70 }

abbrev close_ : Export
close_ = record { name = "close"; callee = 71 }

definition_of-register_all_example :
    let s = ask_all socket_template (3 ∷ 2 ∷ []) (
      register_all
        (a_method 2 open_ ∷ a_function 2 open_ ∷ a_method 3 open_ ∷ a_method 2 close_ ∷ [])
        no_statics) in
    let (d, s') = definition_of socket_template 2 s in
    (d.class_id ≡ 2)
    × (d.unc_name ≡ "socket")
    × (d.parents ≡ [])
    × (read_entries (s'.exported_methods 2) d.methods ≡ some (open_ ∷ close_ ∷ []))
    × (read_entries (s'.exported_functions 2) d.functions ≡ some (open_ ∷ []))
unfolding methods_of functions_of
definition_of-register_all_example =
    definition_of-register_all socket_template
      (a_method 2 open_ ∷ a_function 2 open_ ∷ a_method 3 open_ ∷ a_method 2 close_ ∷ [])
      (3 ∷ 2 ∷ []) 2

-- A pointer to the object 7, which is a socket, and one that is null.
abbrev pointers : Pointers
pointers = record {
  ref_count = λ o. if o == 7 then 1 else 0;
  deleted = λ o. false;
  slots = 7 ∷ 0 ∷ [];
}

abbrev socket_class : ℕ → JxxClass
socket_class o = jxx_class 2 [] [] no_parents

pointers-HasRoom : HasRoom pointers
pointers-HasRoom o = ground arith

pointers-IsSound : IsSound (λ o. 0) pointers
unfolding holders
pointers-IsSound o n = (ground arith, λ held. refl)

reset_move-IsSound_example :
    (h' : Pointers) × (reset_move socket_class 2 pointers 1 0 ≡ some h')
    × IsSound (λ o. 0) h'
    × (get h' 1 ≡ 7)
    × (get h' 0 ≡ 0)
unfolding query_class
reset_move-IsSound_example =
    reset_move-IsSound socket_class 2 (λ o. 0) pointers 1 0 (omega arith) (omega arith)
      (omega arith) (omega arith) pointers-HasRoom pointers-IsSound
