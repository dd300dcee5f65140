-- ===== src/Js/Tests.antt =====
-- Runs of the wrappers on the toy engine, and the theorems at concrete data.
use chakra_jxx.Base.{
  ◌≡◌, refl, false, List, [], ◌∷◌, some, arith, ◌==◌, if◌then◌else◌, returned, thrown,
}
use chakra_jxx.Base.Bits.{test_bit}
use chakra_jxx.Base.Holders.{holders}
use chakra_jxx.Js.Jsrt.{nullptr}
use chakra_jxx.Js.Value.{type_id, error_type_mismatch, error_invalid_array_index}
use chakra_jxx.Js.Param.{CallInfo}
use chakra_jxx.Js.Function.Typing.{HaveTypes, stub_of_magic_func_of-HaveTypes}
use chakra_jxx.Js.Function.{
  Argument, more, as_the_, more_list_, value, NativeFunction, stub_of_magic_func_of,
}
use chakra_jxx.Js.Function.Stub.{stub_of_magic_func_of_lem}
use chakra_jxx.Js.Durable.{Handles, copy_assign}
use chakra_jxx.Js.Durable.Balance.{IsBalanced, copy_assigns, after-IsBalanced}
use chakra_jxx.Js.Context.{current}
use chakra_jxx.Js.Context.Scopes.{nested, current-nested}
use chakra_jxx.Js.TypedArray
use chakra_jxx.Js.TypedArray.{
  ElementType, int8, uint8, uint8_clamped, int16, uint16, int32, uint32, float32, float64, int32_t,
  MemoryView, array_native_type, is_fit,
}
use chakra_jxx.Js.TypedArray.Bounds.{at-length}
use chakra_jxx.Js.Toy.{toy-ReportsTypes, toy-Counts, toy-Switches, Engine, engine, toy}

-- A native function that answers with its second argument.
abbrev second : NativeFunction Engine
second info (a ∷ value v ∷ rest) e = (returned v, e)
second info other e = (thrown error_type_mismatch, e)

-- A number, and then a string.
stub_of_magic_func_of_lem_example :
    (stub_of_magic_func_of toy
        (as_the_ 4 ∷ as_the_ 8 ∷ more_list_ ∷ [])
        second
        1
        19
        false
        (18 ∷ 15 ∷ 16 ∷ [])
        3
        0
        engine
      ≡ some (16, engine))
    × (stub_of_magic_func_of toy
          (as_the_ 4 ∷ as_the_ 8 ∷ more_list_ ∷ [])
          second
          1
          19
          false
          (18 ∷ [])
          0
          0
          engine
        ≡ some (nullptr, engine))
unfolding type_id test_bit
stub_of_magic_func_of_lem_example =
    stub_of_magic_func_of_lem toy engine toy-ReportsTypes (as_the_ 4 ∷ as_the_ 8 ∷ more_list_ ∷ [])
      second 1 19 false 18 (15 ∷ 16 ∷ []) (18 ∷ []) 0

-- One that answers alike where its second argument is a string, and else with nothing.
abbrev second_string : NativeFunction Engine
second_string info (a ∷ value v ∷ rest) e =
    (returned (if test_bit 8 (type_id toy e v) then v else nullptr), e)
second_string info other e = (thrown error_type_mismatch, e)

second-second_string :
    (info : CallInfo) (as' : List Argument)
    → HaveTypes toy engine (as_the_ 4 ∷ as_the_ 8 ∷ []) as'
    → second info as' engine ≡ second_string info as' engine
second-second_string info [] types = refl
second-second_string info (a ∷ []) types = refl
second-second_string info (a ∷ more p ∷ rest) types = refl
second-second_string info (a ∷ value v ∷ rest) types = rw types.1.0 refl

stub_of_magic_func_of-HaveTypes_example :
    stub_of_magic_func_of toy
      (as_the_ 4 ∷ as_the_ 8 ∷ [])
      second
      1
      19
      false
      (18 ∷ 15 ∷ 16 ∷ [])
      3
      0
      engine
    ≡ stub_of_magic_func_of toy
        (as_the_ 4 ∷ as_the_ 8 ∷ [])
        second_string
        1
        19
        false
        (18 ∷ 15 ∷ 16 ∷ [])
        3
        0
        engine
stub_of_magic_func_of-HaveTypes_example =
    stub_of_magic_func_of-HaveTypes toy engine toy-ReportsTypes (as_the_ 4 ∷ as_the_ 8 ∷ []) second
      second_string 1 19 false (18 ∷ 15 ∷ 16 ∷ []) 3 0 second-second_string

abbrev two_handles : Handles Engine
two_handles = record {
  engine = record engine { refs = λ v. if v == 18 then 1 else 0 };
  slots = 18 ∷ 0 ∷ [];
}

after-IsBalanced_example : IsBalanced (λ e v. e.refs v) (λ v. 0) (copy_assign toy two_handles 1 0)
unfolding holders
after-IsBalanced_example =
    after-IsBalanced toy (λ e v. e.refs v) toy-Counts (λ v. 0) two_handles
      (copy_assigns 1 0 (omega arith)) (λ v n. ground arith)

current-nested_example : current toy (nested toy (101 ∷ 102 ∷ []) (λ e. e) engine) ≡ 100
unfolding current
current-nested_example =
    current-nested toy toy-Switches (101 ∷ 102 ∷ []) (λ e. e) engine (λ x. refl)

abbrev words : MemoryView
words = record {
  array = 24;
  el_size = 4;
  content = record { data_ = 1000; size = 16 };
  el_type = 5;
}

at-length_example : TypedArray.at words 4 ≡ thrown error_invalid_array_index
unfolding TypedArray.length
at-length_example = at-length words 4 4 refl (omega arith)
