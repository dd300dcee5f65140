-- ===== src/Js/Function.antt =====
-- js.function.h: the stub through which the engine calls a native function ("magic function").
pub mod Stub
pub mod Typing
use chakra_jxx.Base.{
  ℕ, suc, ◌+◌, ◌-◌, Bool, true, false, not, List, [], ◌∷◌, Option, none, some, ◌==◌, if◌then◌else◌,
  bit_and, bit_or, drop, get_elem?, Outcome, returned, thrown, pos, Exec, ◌>>=◌, lift,
}
use chakra_jxx.Js.Jsrt.{Jsrt, JsValueRef, nullptr}
use chakra_jxx.Js.Param.{CallInfo, Param, param, at}
use chakra_jxx.Js.Mask
use chakra_jxx.Js.Value.{as_the, base_value, error_call_mode_is_denied}

-- `call_mode_t`.
abbrev pub deny_new : ℕ
deny_new = 1

abbrev pub deny_normal : ℕ
deny_normal = 2

-- The types that a native function declares its parameters with.
pub data ParamKind : Type 0 where
  as_the_ : ℕ → ParamKind
  base_value_ : ℕ → Bool → ParamKind
  more_list_ : ParamKind

-- What it is called with.
pub data Argument : Type 0 where
  value : JsValueRef → Argument
  more : Param → Argument

abbrev pub NativeFunction : Type 0 → Type 0
NativeFunction E = CallInfo → List Argument → E → Outcome JsValueRef × E

-- `THROW_JS_EXCEPTION_`. As elsewhere here, `none` is a read outside the arguments.
unfoldable pub throw_js_exception :
    {E : Type 0} → Option (Outcome JsValueRef × E) → Option (JsValueRef × E)
throw_js_exception none = none
throw_js_exception (some (returned v, e)) = some (v, e)
throw_js_exception (some (thrown code, e)) = some (nullptr, e)

module _ {E : Type 0} (js : Jsrt E) where
  abbrev as_value : Outcome JsValueRef → Outcome Argument
  as_value (returned v) = returned (value v)
  as_value (thrown code) = thrown code

  -- The conversion from a `param_t` to the declared type of a parameter.
  unfoldable pub convert : E → ParamKind → Param → Option (Outcome Argument)
  convert e (as_the_ mask) p = elim (at p 0) [
    | none ↦ none
    | some right ↦ some (as_value (as_the js e mask right))
  ]
  convert e (base_value_ required is_optional) p = elim (at p 0) [
    | none ↦ none
    | some right ↦ some (as_value (base_value js e required is_optional right))
  ]
  convert e more_list_ p = some (returned (more p))

  abbrev cons_argument : Outcome Argument → Outcome (List Argument) → Outcome (List Argument)
  cons_argument (thrown code) rest = thrown code
  cons_argument (returned a) (thrown code) = thrown code
  cons_argument (returned a) (returned as') = returned (a ∷ as')

  -- Parameter `i` and those after it.
  unfoldable pub convert_all : E → CallInfo → ℕ → List ParamKind → Option (Outcome (List Argument))
  convert_all e info i [] = some (returned [])
  convert_all e info i (k ∷ ks) = elim (convert e k (param info i)) [
    | none ↦ none
    | some a ↦ elim (convert_all e info (suc i) ks) [
      | none ↦ none
      | some rest ↦ some (cons_argument a rest)
    ]
  ]

  -- `____call_magic_function`.
  unfoldable pub call_magic_function :
      List ParamKind → NativeFunction E → CallInfo → E → Option (Outcome JsValueRef × E)
  unfolding convert_all
  call_magic_function kinds function info e = elim (convert_all e info 0 kinds) [
    | none ↦ none
    | some (thrown code) ↦ some (thrown code, e)
    | some (returned as') ↦ some (function info as' e)
  ]

  -- `_STUB_OF_MAGIC_FUNC_OF_<function, deny>`.
  unfoldable pub stub_of_magic_func_of :
      List ParamKind
      → NativeFunction E
      → ℕ
      → JsValueRef
      → Bool
      → List JsValueRef
      → ℕ
      → ℕ
      → E
      → Option (JsValueRef × E)
  unfolding convert call_magic_function throw_js_exception
  stub_of_magic_func_of kinds function deny callee is_new arguments arguments_count cookie e =
      throw_js_exception (
        if arguments_count == 0
        then some (thrown (pos js.error_invalid_argument), e)
        else if not (bit_and (if is_new then deny_new else deny_normal) deny == 0)
        then some (thrown error_call_mode_is_denied, e)
        else elim (get_elem? arguments 0) [
          | none ↦ none
          | some self ↦
              call_magic_function kinds function
                (record {
                  callee = callee;
                  is_new = is_new;
                  self = self;
                  args = drop 1 arguments;
                  argc = arguments_count - 1;
                  cookie = cookie;
                  return_value = nullptr;
                })
                e
        ])

  -- `Construct`: the error is ignored.
  unfoldable pub construct : JsValueRef → JsValueRef → List JsValueRef → Exec E JsValueRef
  unfolding as_the
  construct callee this args e =
      let mask = bit_or (Mask.any_object js.types) Mask.optional in
      (do
        this' ← lift (as_the js e mask this)
        (λ e.
            let (err, out, e') = js.construct_object e callee (this' ∷ args) in (returned out, e')))
        e

  -- `Magic`, where `stub` is the address of the stub of the function.
  unfoldable pub magic : E → ℕ → JsValueRef → ℕ → JsValueRef × E
  magic e stub name data' =
      let (err, out, e') = js.create_named_function e name stub data' in (out, e')
