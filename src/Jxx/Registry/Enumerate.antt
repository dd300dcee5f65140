-- ===== src/Jxx/Registry/Enumerate.antt =====
-- jxx.asio.tcp.h: `_RegEnumKey` with its calls of Windows, which answer with an error code, and of
-- the script's callback, which may do anything to the engine and to the registry.
use chakra_jxx.Base.{
  ℕ, zero, suc, ◌+◌, ◌%◌, ◌^◌, String, Bool, true, false, not, List, [], ◌∷◌, ◌==◌, if◌then◌else◌,
  bit_and, bit_or, Exec, ◌>>=◌, ◌>>◌, pure, throw_if, returned,
}
use chakra_jxx.Js.Jsrt.{Jsrt, JsValueRef, nullptr}
use chakra_jxx.Js.Mask
use chakra_jxx.Js.Value.{as_the, as_jsbool}
use chakra_jxx.Js.Array.{to_uint32}
use chakra_jxx.Js.Context
use chakra_jxx.Js.Primitive.{Doubles, get_void_ptr, get_as_int, just_unsigned_long, just_string}
use chakra_jxx.Jxx.Evaluate.{value}
use chakra_jxx.Jxx.Registry.Keys.{error_syscall, on_engine}

-- What `RegQueryInfoKeyA` answers with.
pub record KeyInfo : Type 0 where
  pub sub_keys : ℕ
  pub max_sub_key_len : ℕ
  pub values : ℕ
  pub max_value_name_len : ℕ

-- Of a key, an index and the size of the buffer: the error and the name.
abbrev pub Names : Type 0 → Type 0
Names R = R → ℕ → ℕ → ℕ → ℕ × String × R

pub record EnumCalls (R : Type 0) : Type 0 where
  pub reg_query_info_key_a : R → ℕ → ℕ × KeyInfo × R
  pub reg_enum_key_a : Names R
  pub reg_enum_value_a : Names R

-- `n ++` of a `DWORD`.
abbrev pub incremented : ℕ → ℕ
incremented n = (n + 1) % 2 ^ 32

module _ {E R : Type 0} (js : Jsrt E)
    (script : JsValueRef → List JsValueRef → E × R → ℕ × JsValueRef × (E × R)) where
  abbrev pub call_script : JsValueRef → List JsValueRef → Exec (E × R) JsValueRef
  call_script callback args s = let (err, out, s') = script callback args s in (returned out, s')

  -- `callback.Call(Context::Global(), Just(i), Just(name))`, as a boolean.
  unfoldable pub ask : JsValueRef → ℕ → String → Exec (E × R) Bool
  unfolding Context.global as_the just_unsigned_long just_string value as_jsbool
  ask callback i name = do
    this ← on_engine (λ e. (
      as_the js e (bit_or (Mask.any_object js.types) (Mask.nothing js.types)) (Context.global js e),
      e,
    ))
    index ← on_engine (just_unsigned_long js i)
    text ← on_engine (just_string js name)
    out ← call_script callback (this ∷ index ∷ text ∷ [])
    break_ ← on_engine (value js out)
    on_engine (as_jsbool js break_)

  abbrev pub name_call : Names R → ℕ → ℕ → ℕ → Exec (E × R) (ℕ × String)
  name_call names h i room (e, r) =
      let (err, name, r') = names r h i room in (returned (err, name), (e, r'))

  -- One loop of `_RegEnumKey`, of the `n` names from index `i` on.
  unfoldable pub enum_names : JsValueRef → Names R → ℕ → ℕ → ℕ → ℕ → Exec (E × R) (Unit {0})
  unfolding ask
  enum_names callback names h room zero i = pure tt
  enum_names callback names h room (suc n) i = do
    answer ← name_call names h i room
    throw_if error_syscall (not (answer.0 == 0))
    break_ ← ask callback i answer.1
    elim break_ [ true ↦ pure tt | false ↦ enum_names callback names h room n (suc i) ]

  module _ (d : Doubles) (calls : EnumCalls R) where
    abbrev pub info_call : ℕ → Exec (E × R) (ℕ × KeyInfo)
    info_call h (e, r) =
        let (err, info, r') = calls.reg_query_info_key_a r h in (returned (err, info), (e, r'))

    -- `_RegEnumKey`.
    unfoldable pub reg_enum_key_call :
        JsValueRef → JsValueRef → JsValueRef → Exec (E × R) JsValueRef
    unfolding get_void_ptr get_as_int to_uint32 enum_names
    reg_enum_key_call hkey mode callback = do
      h ← on_engine (get_void_ptr js d hkey)
      mode_ ← on_engine (get_as_int js mode)
      answer ← info_call h
      throw_if error_syscall (not (answer.0 == 0))
      (if bit_and (to_uint32 mode_) 1 == 0
          then pure tt
          else enum_names callback calls.reg_enum_key_a h (incremented answer.1.max_sub_key_len)
              answer.1.sub_keys 0)
      (if bit_and (to_uint32 mode_) 2 == 0
          then pure tt
          else enum_names callback calls.reg_enum_value_a h
              (incremented answer.1.max_value_name_len) answer.1.values 0)
      pure nullptr
