-- ===== src/Jxx/Main/Client.antt =====
-- jsrt-jxx.cpp: what the program does with a connection. `on_client` reads from it, and `on_data`
-- answers each read with the same text.
use chakra_jxx.Base.{
  ℕ, true, not, List, ◌∷◌, Option, none, some, ◌==◌, if◌then◌else◌, pos, Exec, ◌>>=◌, pure,
}
use chakra_jxx.Js.Jsrt.{Jsrt, JsValueRef, nullptr}
use chakra_jxx.Js.Mask
use chakra_jxx.Js.Value.{as_the, base_value}
use chakra_jxx.Js.ArrayBuffer
use chakra_jxx.Js.Function.{magic}
use chakra_jxx.Js.Object
use chakra_jxx.Js.Primitive.{get_as_int, just_int}
use chakra_jxx.Jxx.Class.{JxxClass, function}
use chakra_jxx.Jxx.Evaluate.{call}
use chakra_jxx.Jxx.Tcp.{Net, no_error, on_engine, as_object}
use chakra_jxx.Jxx.Tcp.Sockets.{async_read_ex, async_write}

-- The answer is null after a write that was made.
abbrev pub null_answer : Option JsValueRef → Option JsValueRef
null_answer none = none
null_answer (some v) = some nullptr

module _ {E P S : Type 0} (js : Jsrt E) (class_of : ℕ → JxxClass) (tcp_socket_t : ℕ) where
  abbrev pub checked_as : ℕ → JsValueRef → Exec (Net E P S) JsValueRef
  checked_as mask v = on_engine js (λ e. (as_the js e mask v, e))

  -- `response` is the bytes of the text.
  module _ (response : List ℕ) where
    -- `on_data`, where `self` is the socket. `none` is as in `AsyncWrite`.
    unfoldable pub on_data : JsValueRef → JsValueRef → Exec (Net E P S) (Option JsValueRef)
    unfolding get_as_int ArrayBuffer.create_from_text base_value as_the async_write
    on_data self ec = do
      err ← on_engine js (get_as_int js ec)
      if not (no_error err) then pure (some nullptr) else do
        made ← on_engine js (call js (λ e. ArrayBuffer.create_from_text js e response))
        to_send ← on_engine js (λ e. (base_value js e (Mask.buffer js.types) true made, e))
        socket ← as_object js self
        buffer ← checked_as (Mask.buffer_like js.types) to_send
        written ← async_write js class_of tcp_socket_t socket buffer
        pure (null_answer written)

    -- The stub of `on_data`, on the four arguments that a read calls it with: one of another type
    -- stops it.
    unfoldable pub call_on_data :
        JsValueRef → List JsValueRef → Exec (Net E P S) (Option JsValueRef)
    unfolding on_data
    call_on_data f (self ∷ ec ∷ bytes ∷ buffer ∷ more) = do
      ec' ← checked_as (Mask.number js.types) ec
      bytes' ← checked_as (Mask.number js.types) bytes
      buffer' ← checked_as (Mask.buffer_like js.types) buffer
      on_data self ec'
    call_on_data f other = pure none

    -- `JsCallFunction` of the only function that the program gives its sockets.
    abbrev pub run_on_data : JsValueRef → List JsValueRef → Net E P S → Net E P S
    run_on_data f args s = (call_on_data f args s).1

  -- `on_client`. `stub` is the address of the stub of `on_data`.
  unfoldable pub on_client : ℕ → JsValueRef → Exec (Net E P S) JsValueRef
  unfolding magic Object.set_property_by_name just_int as_the async_read_ex
  on_client stub client = if client == nullptr then pure nullptr else do
    made ← on_engine js (call js (λ e. magic js e stub nullptr 0))
    on_data' ← on_engine js (function js made)
    _ ← on_engine js (call js (λ e. Object.set_property_by_name js e client "onData" on_data'))
    socket ← as_object js client
    size ← on_engine js (just_int js (pos 512))
    size' ← checked_as (Mask.number js.types) size
    _ ← async_read_ex js class_of tcp_socket_t socket size'
    pure nullptr
