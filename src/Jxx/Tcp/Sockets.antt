-- ===== src/Jxx/Tcp/Sockets.antt =====
-- jxx.asio.tcp.h: the functions that scripts call on sockets, and the callbacks that asio calls.
use chakra_jxx.Base.{
  ℕ, String, Bool, true, false, List, [], ◌∷◌, ◌++◌, Option, none, some, ◌==◌, if◌then◌else◌, ℤ,
  bit_or, returned, Exec, ◌>>=◌, ◌>>◌, pure,
}
use chakra_jxx.Js.Jsrt.{Jsrt, JsValueRef, nullptr}
use chakra_jxx.Js.Mask
use chakra_jxx.Js.Value.{as_the, base_value}
use chakra_jxx.Js.Object
use chakra_jxx.Js.Array.{to_uint32}
use chakra_jxx.Js.ArrayBuffer
use chakra_jxx.Js.Durable
use chakra_jxx.Js.Primitive.{get_as_int, just_int, just_size_t, just_boolean}
use chakra_jxx.Jxx.Class.{JxxClass, function}
use chakra_jxx.Jxx.Evaluate.{call}
use chakra_jxx.Jxx.ExtObject.{try_get_as, drop_ref}
use chakra_jxx.Jxx.Tcp.{
  Operation, reading, reading_on, writing, Net, no_error, on_engine, world_of, put_world,
  hold_value, releasing, durable, answer, ext_object,
}

module _ {E P S : Type 0} (js : Jsrt E) where
  -- asio takes an operation, whose callback has captured a copy of each `Durable`.
  abbrev pub post : Operation → Net E P S → Net E P S
  post (reading socket buffer content) s = record (hold_value js buffer (hold_value js socket s)) {
    pending = s.pending ++ reading socket buffer content ∷ [];
  }
  post (reading_on socket buffer content size) s =
      record (hold_value js buffer (hold_value js socket s)) {
        pending = s.pending ++ reading_on socket buffer content size ∷ [];
      }
  post (writing socket buffer content) s = record (hold_value js buffer (hold_value js socket s)) {
    pending = s.pending ++ writing socket buffer content ∷ [];
  }

  abbrev pub posting : Operation → Exec (Net E P S) (Unit {0})
  posting op s = (returned tt, post op s)

  abbrev pub dropping : {A : Type 0} → ℕ → Exec (Net E P S) A → Exec (Net E P S) A
  dropping x m s = let (o, s') = m s in (o, put_world (drop_ref js x (world_of s')) s')

  abbrev pub cxx_found :
      {A : Type 0}
      → Option (ℕ × List ℕ)
      → Exec (Net E P S) A
      → (ℕ → Exec (Net E P S) A)
      → Exec (Net E P S) A
  cxx_found none missing f = missing
  cxx_found (some (object, path)) missing f = dropping object (f object)

  -- `JsCallFunction`, which runs a script that may call all of this again.
  module _ (script : JsValueRef → List JsValueRef → Net E P S → Net E P S) where
    -- `Function::Call`.
    unfoldable pub call_function :
        JsValueRef → JsValueRef → List JsValueRef → Exec (Net E P S) (Unit {0})
    unfolding as_the
    call_function callback this args = do
      this' ←
          on_engine js
            (λ e. (as_the js e (bit_or (Mask.any_object js.types) (Mask.nothing js.types)) this, e))
      (λ s. (returned tt, script callback (this' ∷ args) s))

    -- What a callback of a read or a write does with a function of the socket, and then.
    unfoldable pub notify :
        JsValueRef
        → String
        → JsValueRef
        → ℤ
        → ℕ
        → Exec (Net E P S) (Unit {0})
        → Exec (Net E P S) (Unit {0})
    unfolding call_function Object.get_property_by_name just_int just_size_t
    notify socket name buffer ec n next = do
      v ← on_engine js (call js (λ e. Object.get_property_by_name js e socket name))
      callback ← on_engine js (function js v)
      if callback == nullptr then pure tt else do
        code ← on_engine js (just_int js ec)
        count ← on_engine js (just_size_t js n)
        call_function callback socket (code ∷ count ∷ buffer ∷ [])
        next

module _ {E P S : Type 0} (js : Jsrt E) (class_of : ℕ → JxxClass) where
  -- `TryGetAs` of a class, and the life of the pointer that it answers with.
  abbrev pub with_cxx :
      {A : Type 0}
      → ℕ
      → JsValueRef
      → Exec (Net E P S) A
      → (ℕ → Exec (Net E P S) A)
      → Exec (Net E P S) A
  with_cxx clsid v missing f s =
      let (found, w') = try_get_as js class_of clsid v (world_of s) in
      cxx_found js found missing f (put_world w' s)

  -- The class `tcp_socket_t`.
  module _ (tcp_socket_t : ℕ) where
    -- `AsyncRead`.
    unfoldable pub async_read : JsValueRef → JsValueRef → Exec (Net E P S) JsValueRef
    unfolding try_get_as Durable.add_ref Durable.release ArrayBuffer.get_content just_boolean as_the
    async_read socket buffer = do
      socket' ← ext_object js socket
      durable js socket' (
          if socket' == nullptr
          then answer js false
          else with_cxx tcp_socket_t socket' (answer js false) λ object. durable js buffer (do
            content ← on_engine js (λ e. (ArrayBuffer.get_content js e buffer, e))
            posting js (reading socket' buffer content)
            answer js true))

    -- `AsyncReadEx`.
    unfoldable pub async_read_ex : JsValueRef → JsValueRef → Exec (Net E P S) JsValueRef
    unfolding try_get_as Durable.add_ref Durable.release ArrayBuffer.get_content ArrayBuffer.alloc
        get_as_int to_uint32 just_boolean as_the
    async_read_ex socket buffer_size = do
      socket' ← ext_object js socket
      durable js socket' (
          if socket' == nullptr
          then answer js false
          else with_cxx tcp_socket_t socket' (answer js false) λ object. do
            size ← on_engine js (get_as_int js buffer_size)
            made ← on_engine js (call js (λ e. ArrayBuffer.alloc js e (to_uint32 size)))
            buffer ← on_engine js (λ e. (base_value js e (Mask.buffer js.types) true made, e))
            durable js buffer (
                if buffer == nullptr then answer js false else do
                  content ← on_engine js (λ e. (ArrayBuffer.get_content js e buffer, e))
                  posting js (reading_on socket' buffer content buffer_size)
                  answer js true))

    abbrev pub answer_some : Bool → Exec (Net E P S) (Option JsValueRef)
    answer_some b = do v ← answer js b; pure (some v)

    -- `AsyncWrite`, which does not test whether the socket is one: `none` is a call of a member of
    -- a null pointer, after which nothing is defined.
    unfoldable pub async_write : JsValueRef → JsValueRef → Exec (Net E P S) (Option JsValueRef)
    unfolding try_get_as Durable.add_ref Durable.release ArrayBuffer.get_content just_boolean as_the
    async_write socket buffer = do
      socket' ← ext_object js socket
      durable js socket' (
          if socket' == nullptr
          then answer_some false
          else with_cxx tcp_socket_t socket'
              (do content ← on_engine js (λ e. (ArrayBuffer.get_content js e buffer, e)); pure none)
              λ object. do
                content ← on_engine js (λ e. (ArrayBuffer.get_content js e buffer, e))
                durable js buffer
                    (do posting js (writing socket' buffer content); answer_some true))

    module _ (script : JsValueRef → List JsValueRef → Net E P S → Net E P S) where
      -- The end of a read or a write with the error `ec`, after `n` bytes. What the callback has
      -- captured is released with it.
      unfoldable pub complete : Operation → ℤ → ℕ → Exec (Net E P S) (Unit {0})
      unfolding notify async_read_ex Durable.release
      complete (reading socket buffer content) ec n =
          releasing js socket
            (releasing js buffer (notify js script socket "onData" buffer ec n (pure tt)))
      complete (reading_on socket buffer content size) ec n = releasing js socket (
          releasing js buffer (
            notify js script socket "onData" buffer ec n
              (if no_error ec then (do again ← async_read_ex socket size; pure tt) else pure tt)))
      complete (writing socket buffer content) ec n =
          releasing js socket
            (releasing js buffer (notify js script socket "onWritten" buffer ec n (pure tt)))
