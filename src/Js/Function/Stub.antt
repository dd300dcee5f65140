-- ===== src/Js/Function/Stub.antt =====
-- When the stub calls the native function, and with what.
use chakra_jxx.Base.{
  ℕ, zero, suc, ◌≤◌, ◌≡◌, refl, Bool, true, ◌&&◌, ◌||◌, List, [], ◌∷◌, some, arith, ◌==◌,
  if◌then◌else◌, bit_and, length, get_or, Outcome, returned, thrown,
}
use chakra_jxx.Base.Bits.{test_bit}
use chakra_jxx.Js.Jsrt.{Jsrt, JsValueRef, nullptr}
use chakra_jxx.Js.Param.{CallInfo, param, at, at-param}
use chakra_jxx.Js.Value.{type_id, error_type_mismatch}
use chakra_jxx.Js.Value.Types.{ReportsTypes}
use chakra_jxx.Js.Value.Checks.{as_the-test_bit, base_value-test_bit}
use chakra_jxx.Js.Function.{
  ParamKind, as_the_, base_value_, more_list_, Argument, value, more, NativeFunction, deny_new,
  deny_normal, convert, convert_all, stub_of_magic_func_of,
}

-- Argument `i` after `this`, null if the call has none.
abbrev pub nth : List JsValueRef → ℕ → JsValueRef
nth args i = get_or args i nullptr

abbrev pub finish : {E : Type 0} → Outcome JsValueRef × E → JsValueRef × E
finish (returned v, e) = (v, e)
finish (thrown code, e) = (nullptr, e)

-- The call as the native function sees it.
abbrev pub call_of : JsValueRef → Bool → JsValueRef → List JsValueRef → ℕ → CallInfo
call_of callee is_new self args cookie = record {
  callee = callee;
  is_new = is_new;
  self = self;
  args = args;
  argc = length args;
  cookie = cookie;
  return_value = nullptr;
}

module _ {E : Type 0} (js : Jsrt E) (e : E) where
  abbrev pub accepts : ParamKind → JsValueRef → Bool
  accepts (as_the_ mask) v = test_bit mask (type_id js e v)
  accepts (base_value_ required is_optional) v =
      test_bit required (type_id js e v) || (is_optional && v == nullptr)
  accepts more_list_ v = true

  -- Every declared parameter, from number `i` on, accepts its argument.
  abbrev pub accepts_all : List ParamKind → ℕ → List JsValueRef → Bool
  accepts_all [] i args = true
  accepts_all (k ∷ ks) i args = accepts k (nth args i) && accepts_all ks (suc i) args

abbrev pub bound : CallInfo → ℕ → ParamKind → Argument
bound info i (as_the_ mask) = value (nth info.args i)
bound info i (base_value_ required is_optional) = value (nth info.args i)
bound info i more_list_ = more (param info i)

-- What the declared parameters, from number `i` on, are bound to.
abbrev pub bound_all : CallInfo → ℕ → List ParamKind → List Argument
bound_all info i [] = []
bound_all info i (k ∷ ks) = bound info i k ∷ bound_all info (suc i) ks

nth_outside : (args : List JsValueRef) (i : ℕ) → length args ≤ i → nth args i ≡ nullptr
nth_outside [] i h = refl
nth_outside (x ∷ args) zero h = absurd (omega arith)
nth_outside (x ∷ args) (suc i) h = nth_outside args i (omega arith)

at-param-nth :
    (info : CallInfo) (i : ℕ)
    → info.argc ≡ length info.args
    → at (param info i) 0 ≡ some (nth info.args i)
at-param-nth info i honest = ground (arith, at-param info i 0, nth_outside info.args i)

module _ {E : Type 0} (js : Jsrt E) (e : E) (reports : ReportsTypes js e) where
  convert_lem :
      (k : ParamKind) (info : CallInfo) (i : ℕ)
      → info.argc ≡ length info.args
      → convert js e k (param info i)
        ≡ some (
            if accepts js e k (nth info.args i)
            then returned (bound info i k)
            else thrown error_type_mismatch)
  unfolding convert
  convert_lem (as_the_ mask) info i honest =
      ground (arith, at-param-nth info i, as_the-test_bit js e reports mask (nth info.args i))
  convert_lem (base_value_ required is_optional) info i honest = ground (
    arith,
    at-param-nth info i,
    base_value-test_bit js e reports required is_optional (nth info.args i),
  )
  convert_lem more_list_ info i honest = refl

  pub convert_all_lem :
      (ks : List ParamKind) (info : CallInfo) (i : ℕ)
      → info.argc ≡ length info.args
      → convert_all js e info i ks
        ≡ some (
            if accepts_all js e ks i info.args
            then returned (bound_all info i ks)
            else thrown error_type_mismatch)
  unfolding convert_all
  convert_all_lem [] info i honest = refl
  convert_all_lem (k ∷ ks) info i honest =
      ground (arith, convert_lem k info i honest, convert_all_lem ks info (suc i) honest)

  some_args :
      (kinds : List ParamKind) (function : NativeFunction E) (deny : ℕ) (callee : JsValueRef)
      (is_new : Bool) (self : JsValueRef) (args : List JsValueRef) (cookie : ℕ)
      → stub_of_magic_func_of js kinds function deny callee is_new
          (self ∷ args)
          (suc (length args))
          cookie
          e
        ≡ some (
            if bit_and (if is_new then deny_new else deny_normal) deny == 0
              && accepts_all js e kinds 0 args
            then (let info = call_of callee is_new self args cookie in
                finish (function info (bound_all info 0 kinds) e))
            else (nullptr, e))
  unfolding stub_of_magic_func_of
  some_args kinds function deny callee is_new self args cookie =
      let info = call_of callee is_new self args cookie in
      ground (arith, convert_all_lem kinds info 0)

  no_args :
      (kinds : List ParamKind) (function : NativeFunction E) (deny : ℕ) (callee : JsValueRef)
      (is_new : Bool) (arguments : List JsValueRef) (cookie : ℕ)
      → stub_of_magic_func_of js kinds function deny callee is_new arguments 0 cookie e
        ≡ some (nullptr, e)
  unfolding stub_of_magic_func_of
  no_args kinds function deny callee is_new arguments cookie = ground arith

  -- Where the engine's type numbers are small: no call reads anything outside its arguments. With
  -- at least its `this`, in a mode that the function does not deny, and with an argument that each
  -- declared parameter accepts, it has the result of the native function on those arguments, null
  -- if that throws; else it answers null and leaves the engine alone. A call with no argument at
  -- all, not even `this`, answers null and leaves the engine alone too, whatever lies where its
  -- arguments would be.
  pub stub_of_magic_func_of_lem :
      (kinds : List ParamKind) (function : NativeFunction E) (deny : ℕ) (callee : JsValueRef)
      (is_new : Bool) (self : JsValueRef) (args elsewhere : List JsValueRef) (cookie : ℕ)
      → (stub_of_magic_func_of js kinds function deny callee is_new
            (self ∷ args)
            (suc (length args))
            cookie
            e
          ≡ some (
              if bit_and (if is_new then deny_new else deny_normal) deny == 0
                && accepts_all js e kinds 0 args
              then (let info = call_of callee is_new self args cookie in
                  finish (function info (bound_all info 0 kinds) e))
              else (nullptr, e)))
        × (stub_of_magic_func_of js kinds function deny callee is_new elsewhere 0 cookie e
            ≡ some (nullptr, e))
  stub_of_magic_func_of_lem kinds function deny callee is_new self args elsewhere cookie = (
    some_args kinds function deny callee is_new self args cookie,
    no_args kinds function deny callee is_new elsewhere cookie,
  )
