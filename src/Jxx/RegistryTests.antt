-- ===== src/Jxx/RegistryTests.antt =====
-- Values and keys of a registry on the toy engine, and the theorems at concrete data.
use chakra_jxx.Base.{
  ℕ, ◌≡◌, ◌≢◌, refl, arith, List, [], ◌∷◌, some, inr, pos, returned, ◌==◌, if◌then◌else◌,
}
use chakra_jxx.Js.Jsrt.{JsValueRef, nullptr}
use chakra_jxx.Js.Mask
use chakra_jxx.Js.Primitive.{get_void_ptr, get_as_string, get_as_int}
use chakra_jxx.Js.Value.{base_value}
use chakra_jxx.Js.Value.Types.{ReportsTypes}
use chakra_jxx.Js.Toy.{doubles, Engine, engine, toy, value_types-IsSmall}
use chakra_jxx.Jxx.Registry.{RegTypes, reg_enum_key}
use chakra_jxx.Jxx.Registry.Query.{QueryCalls, reg_query_value_call}
use chakra_jxx.Jxx.Registry.Arrays.{MakesArrays}
use chakra_jxx.Jxx.Registry.Refused.{IsLast, reg_query_value_call-texts}
use chakra_jxx.Jxx.Registry.Enumerate.{EnumCalls, reg_enum_key_call}
use chakra_jxx.Jxx.Registry.Enumerating.{HasNames, reg_enum_key_call_lem}

abbrev types : RegTypes
types = record {
  reg_dword = 4;
  reg_dword_big_endian = 5;
  reg_qword = 11;
  reg_qword_little_endian = 11;
  reg_binary = 3;
  reg_expand_sz = 2;
  reg_sz = 1;
  reg_multi_sz = 7;
}

-- Two texts under every name.
abbrev texts_stored : QueryCalls Engine (Unit {0})
texts_stored = record {
  size_of_value = λ r h name. (0, 7, 5, r);
  read_value = λ r h name size. (0, 97 ∷ 0 ∷ 98 ∷ 0 ∷ 0 ∷ [], 5, r);
  read_into = λ s h name content size. (0, 5, s);
}

toy-MakesArrays : MakesArrays toy
toy-MakesArrays e n = inr (λ e'. refl)

reports : (e : Engine) → ReportsTypes toy e
reports e v = omega arith

types-IsLast : IsLast types
types-IsLast = record {
  dword_apart = omega arith;
  dword_big_endian_apart = omega arith;
  qword_apart = omega arith;
  qword_little_endian_apart = omega arith;
  binary_apart = omega arith;
  expand_sz_apart = omega arith;
  sz_apart = omega arith;
}

reg_query_value_call-texts_example :
    (reg_query_value_call toy doubles types texts_stored
      (λ bytes. "text")
      (λ n. n)
      15
      16
      (engine, tt)).0
    ≢ returned (some 21)
unfolding get_void_ptr get_as_string
reg_query_value_call-texts_example =
    reg_query_value_call-texts toy toy-MakesArrays (λ bytes. "text") doubles types texts_stored
      (λ n. n) value_types-IsSmall reports
      (omega arith, omega arith, omega arith, omega arith, omega arith) 15 16 21 12 "main.js" engine
      tt types-IsLast refl refl refl (omega arith)

-- A key with the subkeys `a` and `b`, and no values.
abbrev two_subkeys : EnumCalls (Unit {0})
two_subkeys = record {
  reg_query_info_key_a = λ r h.
      (0, record { sub_keys = 2; max_sub_key_len = 1; values = 0; max_value_name_len = 0 }, r);
  reg_enum_key_a = λ r h i room. (0, (if i == 0 then "a" else "b"), r);
  reg_enum_value_a = λ r h i room. (1, "", r);
}

abbrev answers_yes :
    JsValueRef → List JsValueRef → Engine × Unit {0} → ℕ × JsValueRef × (Engine × Unit {0})
answers_yes callback args s = (0, 17, s)

two_subkeys-HasNames : HasNames toy answers_yes two_subkeys 12 ("a" ∷ "b" ∷ []) []
two_subkeys-HasNames = record {
  info = record { sub_keys = 2; max_sub_key_len = 1; values = 0; max_value_name_len = 0 };
  informs = λ r. refl;
  sub_keys_length = refl;
  values_length = refl;
  lists_subkeys = (λ r. refl, (λ r. refl, tt));
  lists_values = tt;
}

reg_enum_key_call_lem_example :
    reg_enum_key_call toy answers_yes doubles two_subkeys 15 15 19 (engine, tt)
    ≡ (returned nullptr, (engine, tt))
unfolding get_void_ptr get_as_int reg_enum_key_call reg_enum_key Mask.bit Mask.any_object
    Mask.nothing base_value Mask.complement
reg_enum_key_call_lem_example =
    reg_enum_key_call_lem toy answers_yes doubles two_subkeys 15 15 19 12 (pos 3) ("a" ∷ "b" ∷ [])
      [] engine tt refl refl two_subkeys-HasNames
