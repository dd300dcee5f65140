-- ===== src/Jxx/Main/Serving.antt =====
-- The connections that the program serves: what it runs keeps the references of the sockets
-- counted.
use chakra_jxx.Base.{
  take, length, ◌%◌, ◌^◌, String, ◌∙◌, ℕ, true, ◌≡◌, refl, not, List, [], ◌∷◌, Option, some, ◌==◌,
  pos,
}
use chakra_jxx.Js.Jsrt.{Jsrt, JsValueRef, nullptr}
use chakra_jxx.Js.Mask
use chakra_jxx.Js.Value.{as_the, base_value}
use chakra_jxx.Js.ArrayBuffer
use chakra_jxx.Js.Durable.Balance.{Counts}
use chakra_jxx.Js.Primitive.{get_as_int, just_int}
use chakra_jxx.Js.Object
use chakra_jxx.Js.Function.{magic}
use chakra_jxx.Jxx.Class.{JxxClass, function}
use chakra_jxx.Jxx.Evaluate.{call}
use chakra_jxx.Jxx.Tcp.{Net, no_error}
use chakra_jxx.Jxx.Tcp.Sockets.{async_write, async_read_ex}
use chakra_jxx.Jxx.Tcp.Handles.{
  IsQuiet, IsCounted, IsFair, Fair, engine_call, give, then_do, either_way,
}
use chakra_jxx.Jxx.Tcp.Balance.{Keeps, async_write-IsFair, async_read_ex-IsFair}
use chakra_jxx.Jxx.Tcp.Steps.{Reach, sockets-IsCounted}
use chakra_jxx.Jxx.Main.Client.{null_answer, on_data, call_on_data, run_on_data, on_client}

-- The calls of the engine that the program adds to those of the sockets.
pub record Serves {E : Type 0} (js : Jsrt E) (refs : E → JsValueRef → ℕ) : Type 0 where
  pub serves_buffer :
      (e : E) (bytes : List ℕ) (v : JsValueRef)
      → refs (js.create_external_array_buffer e bytes).2 v ≡ refs e v
  pub serves_function :
      (e : E) (name : JsValueRef) (callee data' : ℕ) (v : JsValueRef)
      → refs (js.create_named_function e name callee data').2 v ≡ refs e v
  pub serves_set_property :
      (e : E) (object pid value v : JsValueRef)
      → refs (js.set_property e object pid value).1 v ≡ refs e v

module _ {E : Type 0} (js : Jsrt E) (refs : E → JsValueRef → ℕ) (keeps : Keeps js refs)
    (serves : Serves js refs) where
  set_property_by_name-IsQuiet :
      (object : JsValueRef) (name : String) (value : JsValueRef)
      → IsQuiet js refs (call js (λ e. Object.set_property_by_name js e object name value))
  unfolding Object.set_property_by_name Object.property_id Object.set_property
  set_property_by_name-IsQuiet object name value e v =
      let made = js.create_property_id e name in
      serves.serves_set_property made.2 object made.1 value v ∙ keeps.keeps_property_id e name v

module _ {E P S : Type 0} (js : Jsrt E) (refs : E → JsValueRef → ℕ) (counts : Counts js refs)
    (keeps : Keeps js refs) (class_of : ℕ → JxxClass) (tcp_socket_t : ℕ) (response : List ℕ)
    (serves : Serves js refs) where
  abbrev fair_check : ℕ → JsValueRef → Fair P S js refs JsValueRef
  fair_check mask v = engine_call P S js refs (λ e. (as_the js e mask v, e)) (λ e u. refl)

  abbrev fair_on_data : JsValueRef → JsValueRef → Fair P S js refs (Option JsValueRef)
  unfolding get_as_int ArrayBuffer.create_from_text base_value
  fair_on_data self ec =
      then_do P S js refs (engine_call P S js refs (get_as_int js ec) (λ e u. refl)) λ err.
        either_way P S js refs (not (no_error err)) (give P S js refs (some nullptr)) (
          then_do P S js refs
            (engine_call P S js refs (call js (λ e. ArrayBuffer.create_from_text js e response))
              (λ e u. serves.serves_buffer e (take (length response % 2 ^ 32) response) u))
            λ made.
              then_do P S js refs
                (engine_call P S js refs
                  (λ e. (base_value js e (Mask.buffer js.types) true made, e)) (λ e u. refl))
                λ to_send. then_do P S js refs (fair_check (Mask.object js.types) self) λ socket.
                  then_do P S js refs (fair_check (Mask.buffer_like js.types) to_send) λ buffer.
                    then_do P S js refs
                      (record {
                        code = async_write js class_of tcp_socket_t socket buffer;
                        fair =
                            async_write-IsFair js refs keeps counts class_of tcp_socket_t socket
                              buffer;
                      })
                      (λ written. give P S js refs (null_answer written)))

  on_data-IsFair :
      (self ec : JsValueRef)
      → IsFair {P = P} {S = S} js refs (on_data js class_of tcp_socket_t response self ec)
  unfolding on_data fair_on_data
  on_data-IsFair self ec = (fair_on_data self ec).fair

  call_on_data-IsFair :
      (f : JsValueRef) (args : List JsValueRef)
      → IsFair {P = P} {S = S} js refs (call_on_data js class_of tcp_socket_t response f args)
  unfolding call_on_data
  call_on_data-IsFair f (self ∷ ec ∷ bytes ∷ buffer ∷ more) =
      (then_do P S js refs (fair_check (Mask.number js.types) ec) λ ec'.
        then_do P S js refs (fair_check (Mask.number js.types) bytes) λ bytes'.
          then_do P S js refs (fair_check (Mask.buffer_like js.types) buffer) λ buffer'. record {
            code = on_data js class_of tcp_socket_t response self ec';
            fair = on_data-IsFair self ec';
          }).fair
  call_on_data-IsFair f [] = λ others s c. c
  call_on_data-IsFair f (a ∷ []) = λ others s c. c
  call_on_data-IsFair f (a ∷ b ∷ []) = λ others s c. c
  call_on_data-IsFair f (a ∷ b ∷ d ∷ []) = λ others s c. c

  on_client-IsFair :
      (stub : ℕ) (client : JsValueRef)
      → IsFair {P = P} {S = S} js refs (on_client js class_of tcp_socket_t stub client)
  unfolding on_client magic just_int
  on_client-IsFair stub client =
      (either_way P S js refs (client == nullptr) (give P S js refs nullptr) (
        then_do P S js refs
          (engine_call P S js refs (call js (λ e. magic js e stub nullptr 0))
            (λ e u. serves.serves_function e nullptr stub 0 u))
          λ made.
            then_do P S js refs (engine_call P S js refs (function js made) (λ e u. refl))
              λ on_data'.
                then_do P S js refs
                  (engine_call P S js refs
                    (call js (λ e. Object.set_property_by_name js e client "onData" on_data'))
                    (set_property_by_name-IsQuiet js refs keeps serves client "onData" on_data'))
                  λ done. then_do P S js refs (fair_check (Mask.object js.types) client) λ socket.
                    then_do P S js refs
                      (engine_call P S js refs (just_int js (pos 512))
                        (λ e u. keeps.keeps_int e (pos 512) u))
                      λ size. then_do P S js refs (fair_check (Mask.number js.types) size) λ size'.
                        then_do P S js refs
                          (record {
                            code = async_read_ex js class_of tcp_socket_t socket size';
                            fair =
                                async_read_ex-IsFair js refs keeps counts class_of tcp_socket_t
                                  socket size';
                          })
                          (λ read. give P S js refs nullptr))).fair

  -- Where `JsAddRef` and `JsRelease` change the count of their value by one and no other call of
  -- the engine changes a count: from a connection that `on_client` is given on, however asio ends
  -- the reads and writes, each of which `on_data` answers, the engine's count of each value stays
  -- the number of the waiting reads and writes that use it and the references of others.
  pub served-IsCounted :
      (others : JsValueRef → ℕ) (stub : ℕ) (client : JsValueRef) (s t : Net E P S)
      → IsCounted js refs others s
      → Reach js class_of tcp_socket_t
          (run_on_data js class_of tcp_socket_t response)
          (on_client js class_of tcp_socket_t stub client s).1
          t
      → IsCounted js refs others t
  served-IsCounted others stub client s t c reach =
      sockets-IsCounted js refs counts keeps class_of tcp_socket_t
        (run_on_data js class_of tcp_socket_t response) call_on_data-IsFair others
        (on_client-IsFair stub client others s c) reach
