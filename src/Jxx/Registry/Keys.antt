-- ===== src/Jxx/Registry/Keys.antt =====
-- jxx.asio.tcp.h: `_RegCreateKey` and `_RegClose`, which give scripts the handle of a key as a
-- number.
use chakra_jxx.Base.{ℕ, String, not, ◌==◌, ℤ, negsuc, Exec, ◌>>=◌, ◌>>◌, pure, throw_if, returned}
use chakra_jxx.Js.Jsrt.{Jsrt, JsValueRef, nullptr}
use chakra_jxx.Js.Mask
use chakra_jxx.Js.Value.{as_the}
use chakra_jxx.Js.Primitive.{Doubles, void_ptr, get_void_ptr, get_as_string}

abbrev pub error_syscall : ℤ
error_syscall = negsuc 5

-- The calls of Windows: each answers with its error code.
pub record RegCalls (R : Type 0) : Type 0 where
  pub reg_create_key_a : R → ℕ → String → ℕ × ℕ × R
  pub reg_close_key : R → ℕ → ℕ × R

abbrev pub on_engine : {E R A : Type 0} → Exec E A → Exec (E × R) A
on_engine m (e, r) = let (o, e') = m e in (o, (e', r))

module _ {E R : Type 0} (js : Jsrt E) (d : Doubles) (calls : RegCalls R) where
  abbrev create_call : ℕ → String → Exec (E × R) (ℕ × ℕ)
  create_call h path (e, r) =
      let (err, out, r') = calls.reg_create_key_a r h path in (returned (err, out), (e, r'))

  abbrev close_call : ℕ → Exec (E × R) ℕ
  close_call h (e, r) = let (err, r') = calls.reg_close_key r h in (returned err, (e, r'))

  -- `_RegCreateKey`. The options are not used.
  unfoldable pub reg_create_key : JsValueRef → JsValueRef → Exec (E × R) JsValueRef
  unfolding get_void_ptr get_as_string void_ptr as_the
  reg_create_key hkey subkey = do
    h ← on_engine (get_void_ptr js d hkey)
    path ← on_engine (get_as_string js subkey)
    made ← create_call h path
    throw_if error_syscall (not (made.0 == 0))
    v ← on_engine (void_ptr js d made.1)
    on_engine (λ e. (as_the js e (Mask.number js.types) v, e))

  -- `_RegClose`.
  unfoldable pub reg_close : JsValueRef → Exec (E × R) JsValueRef
  unfolding get_void_ptr
  reg_close hkey = do
    h ← on_engine (get_void_ptr js d hkey)
    err ← close_call h
    throw_if error_syscall (not (err == 0))
    pure nullptr
