-- ===== src/Js/Function/Typing.antt =====
-- A native function meets arguments of its declared types only.
use chakra_jxx.Base.{
  ℕ, suc, ◌≡◌, Bool, true, ◌&&◌, ◌||◌, List, [], ◌∷◌, some, arith, ◌==◌, returned,
}
use chakra_jxx.Base.Bits.{test_bit}
use chakra_jxx.Js.Jsrt.{Jsrt, JsValueRef, nullptr}
use chakra_jxx.Js.Param.{CallInfo, Param, param}
use chakra_jxx.Js.Value.{type_id}
use chakra_jxx.Js.Value.Types.{ReportsTypes}
use chakra_jxx.Js.Value.Checks.{as_the-test_bit, base_value-test_bit}
use chakra_jxx.Js.Function.{
  ParamKind, as_the_, base_value_, more_list_, Argument, value, more, NativeFunction, convert,
  convert_all, call_magic_function, stub_of_magic_func_of,
}

module _ {E : Type 0} (js : Jsrt E) (e : E) where
  -- An argument of a declared type.
  abbrev pub HasType : ParamKind → Argument → Type 0
  HasType (as_the_ mask) (value v) = test_bit mask (type_id js e v) ≡ true
  HasType (base_value_ required is_optional) (value v) =
      (test_bit required (type_id js e v) || (is_optional && v == nullptr)) ≡ true
  HasType more_list_ (more p) = Unit {0}
  HasType k a = ⊥

  abbrev pub HaveTypes : List ParamKind → List Argument → Type 0
  HaveTypes [] [] = Unit {0}
  HaveTypes (k ∷ ks) (a ∷ as') = HasType k a × HaveTypes ks as'
  HaveTypes ks as' = ⊥

  module _ (reports : ReportsTypes js e) where
    convert-HasType :
        (k : ParamKind) (p : Param) (a : Argument)
        → convert js e k p ≡ some (returned a)
        → HasType k a
    unfolding convert
    convert-HasType (as_the_ mask) p (value v) done =
        grind (arith, as_the-test_bit js e reports mask)
    convert-HasType (as_the_ mask) p (more q) done = ground arith
    convert-HasType (base_value_ required is_optional) p (value v) done =
        grind (arith, base_value-test_bit js e reports required is_optional)
    convert-HasType (base_value_ required is_optional) p (more q) done = ground arith
    convert-HasType more_list_ p (value v) done = ground arith
    convert-HasType more_list_ p (more q) done = tt

    pub convert_all-HaveTypes :
        (ks : List ParamKind) (info : CallInfo) (i : ℕ) (as' : List Argument)
        → convert_all js e info i ks ≡ some (returned as')
        → HaveTypes ks as'
    unfolding convert_all
    convert_all-HaveTypes [] info i [] done = tt
    convert_all-HaveTypes [] info i (a ∷ as') done = ground arith
    convert_all-HaveTypes (k ∷ ks) info i [] done = ground arith
    convert_all-HaveTypes (k ∷ ks) info i (a ∷ as') done =
        ground
          (arith, convert-HasType k (param info i) a, convert_all-HaveTypes ks info (suc i) as')

    call-HaveTypes :
        (ks : List ParamKind) (f g : NativeFunction E) (info : CallInfo)
        → ((as' : List Argument) → HaveTypes ks as' → f info as' e ≡ g info as' e)
        → call_magic_function js ks f info e ≡ call_magic_function js ks g info e
    unfolding call_magic_function
    call-HaveTypes ks f g info agree = grind (arith, convert_all-HaveTypes ks info 0)

    -- Where the engine's type numbers are small: the stub answers alike for two native functions
    -- that agree on arguments of the declared types, whatever the engine calls it with, and however
    -- many arguments it claims. So a native function never meets an argument of another type.
    pub stub_of_magic_func_of-HaveTypes :
        (ks : List ParamKind) (f g : NativeFunction E) (deny : ℕ) (callee : JsValueRef)
        (is_new : Bool) (arguments : List JsValueRef) (arguments_count cookie : ℕ)
        → ((info : CallInfo) (as' : List Argument) → HaveTypes ks as' → f info as' e ≡ g info as' e)
        → stub_of_magic_func_of js ks f deny callee is_new arguments arguments_count cookie e
          ≡ stub_of_magic_func_of js ks g deny callee is_new arguments arguments_count cookie e
    unfolding stub_of_magic_func_of
    stub_of_magic_func_of-HaveTypes ks f g deny callee is_new arguments arguments_count cookie
          agree =
        grind (arith, λ (info : CallInfo). call-HaveTypes ks f g info (agree info))
