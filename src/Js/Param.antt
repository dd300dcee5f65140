-- ===== src/Js/Param.antt =====
-- js.base.h: `call_info_t`, and `param_t`, the rest of a call's arguments from one of them on.
use chakra_jxx.Base.{
  ℕ, zero, suc, ◌+◌, ◌-◌, ◌≤◌, ◌<◌, ◌≡◌, refl, Bool, List, [], ◌∷◌, Option, some, arith, ltb, leb,
  if◌then◌else◌, drop, length, get_elem?, get_or, get_or-drop, length-drop,
}
use chakra_jxx.Js.Jsrt.{JsValueRef, nullptr}

-- `args` is what lies in memory from the pointer on.
pub record CallInfo : Type 0 where
  pub callee : JsValueRef
  pub is_new : Bool
  pub self : JsValueRef
  pub args : List JsValueRef
  pub argc : ℕ
  pub cookie : ℕ
  pub return_value : JsValueRef

-- `more_list_` is another name of it. A null `args` points at nothing.
pub record Param : Type 0 where
  pub args : List JsValueRef
  pub argc : ℕ

unfoldable pub param : CallInfo → ℕ → Param
param info i = record {
  args = if ltb i info.argc then drop i info.args else [];
  argc = if ltb i info.argc then info.argc - i else 0;
}

unfoldable pub size : Param → ℕ
size p = p.argc

-- `operator[]`; `none` is a read outside the array.
unfoldable pub at : Param → ℕ → Option JsValueRef
at p index = if leb p.argc index then some nullptr else get_elem? p.args index

get_elem?-get_or :
    (i : ℕ) (xs : List JsValueRef) → i < length xs → get_elem? xs i ≡ some (get_or xs i nullptr)
get_elem?-get_or i [] h = absurd (omega arith)
get_elem?-get_or zero (x ∷ xs) h = refl
get_elem?-get_or (suc i) (x ∷ xs) h = get_elem?-get_or i xs (omega arith)

get_elem?-drop :
    (n i : ℕ) (xs : List JsValueRef)
    → n + i < length xs
    → get_elem? (drop n xs) i ≡ some (get_or xs (n + i) nullptr)
get_elem?-drop n i xs h =
    ground (arith, get_elem?-get_or i (drop n xs), get_or-drop n i xs nullptr, length-drop n xs)

-- Where the call's count of arguments is honest, every read through a `param_t`, at any index, lies
-- inside the arguments or answers null, and `param_t(info, i)[k]` is argument `i + k`.
pub at-param :
    (info : CallInfo) (i k : ℕ)
    → info.argc ≤ length info.args
    → at (param info i) k
      ≡ some (if ltb (i + k) info.argc then get_or info.args (i + k) nullptr else nullptr)
unfolding at param
at-param info i k honest = ground (arith, get_elem?-drop i k info.args)

-- A `param_t` counts the arguments from its own on.
pub size-param : (info : CallInfo) (i : ℕ) → size (param info i) ≡ info.argc - i
unfolding size param
size-param info i = ground arith
