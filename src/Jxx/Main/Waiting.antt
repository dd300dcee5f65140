-- ===== src/Jxx/Main/Waiting.antt =====
-- The accepts of the server: what serves its connections leaves them alone.
use chakra_jxx.Base.{
  String, ℕ, true, false, Bool, ◌≡◌, not, List, [], ◌∷◌, Option, none, some, ◌==◌, pos, ℤ, Exec,
}
use chakra_jxx.Base.Preserves.{Preserves, Safe, then_do, give, either_way}
use chakra_jxx.Js.Jsrt.{Jsrt, JsValueRef, nullptr}
use chakra_jxx.Js.Mask
use chakra_jxx.Js.Value.{as_the, base_value}
use chakra_jxx.Js.ArrayBuffer
use chakra_jxx.Js.Array.{to_uint32}
use chakra_jxx.Js.Primitive.{get_as_int, just_int, just_size_t, just_boolean}
use chakra_jxx.Js.Object
use chakra_jxx.Js.Function.{magic}
use chakra_jxx.Js.TypedArray.{Content}
use chakra_jxx.Jxx.Class.{JxxClass, function}
use chakra_jxx.Jxx.Evaluate.{call}
use chakra_jxx.Jxx.Tcp.{
  Operation, reading, reading_on, writing, Accept, Net, no_error, on_engine, hold_value, durable,
}
use chakra_jxx.Jxx.Tcp.Sockets.{
  posting, cxx_found, call_function, notify, with_cxx, async_read_ex, async_write, complete,
}
use chakra_jxx.Jxx.Tcp.Accepting.{SameAccepts, call_function-Preserves}
use chakra_jxx.Jxx.Main.Client.{null_answer, on_data, call_on_data, on_client}

module _ {E : Type 0} (P S : Type 0) (js : Jsrt E) (waiting : List Accept) where
  abbrev pub Same : Net E P S → Type 0
  Same = SameAccepts waiting

  abbrev pub Quiet : Type 0 → Type 0
  Quiet A = Safe Same A

  abbrev pub engine_call : {A : Type 0} → Exec E A → Quiet A
  engine_call m = record { code = on_engine js m; safe = λ s same. same }

  abbrev pub quiet_durable : {A : Type 0} → JsValueRef → Quiet A → Quiet A
  quiet_durable v m = record {
    code = durable js v m.code;
    safe = λ s same. m.safe (hold_value js v s) same;
  }

  pub cxx_found-Preserves :
      {A : Type 0} (found : Option (ℕ × List ℕ)) (missing : Quiet A) (f : ℕ → Quiet A)
      → Preserves Same (cxx_found js found missing.code (λ object. (f object).code))
  cxx_found-Preserves none missing f = missing.safe
  cxx_found-Preserves (some (object, path)) missing f = (f object).safe

  module _ (class_of : ℕ → JxxClass) (tcp_socket_t : ℕ) where
    abbrev pub quiet_with_cxx : {A : Type 0} → JsValueRef → Quiet A → (ℕ → Quiet A) → Quiet A
    quiet_with_cxx v missing f = record {
      code = with_cxx js class_of tcp_socket_t v missing.code (λ object. (f object).code);
      safe = λ s same. cxx_found-Preserves _ missing f _ same;
    }

    abbrev pub quiet_answer : Bool → Quiet JsValueRef
    quiet_answer b =
        then_do Same (engine_call (just_boolean js b))
          (λ v. engine_call (λ e. (as_the js e (Mask.boolean js.types) v, e)))

    abbrev pub quiet_some : Bool → Quiet (Option JsValueRef)
    quiet_some b = then_do Same (quiet_answer b) (λ v. give Same (some v))

    abbrev pub quiet_ext_object : JsValueRef → Quiet JsValueRef
    quiet_ext_object v = engine_call (λ e. (base_value js e (Mask.object js.types) true v, e))

    abbrev pub quiet_content : JsValueRef → Quiet Content
    quiet_content buffer = engine_call (λ e. (ArrayBuffer.get_content js e buffer, e))

    pub posting-Preserves : (op : Operation) → Preserves Same (posting js op)
    posting-Preserves (reading socket buffer content) s same = same
    posting-Preserves (reading_on socket buffer content size) s same = same
    posting-Preserves (writing socket buffer content) s same = same

    abbrev pub quiet_posting : Operation → Quiet (Unit {0})
    quiet_posting op = record { code = posting js op; safe = posting-Preserves op }

    abbrev quiet_buffer : JsValueRef → Quiet JsValueRef
    unfolding base_value
    quiet_buffer made = engine_call (λ e. (base_value js e (Mask.buffer js.types) true made, e))

    pub async_read_ex-Preserves :
        (socket size : JsValueRef)
        → Preserves Same (async_read_ex js class_of tcp_socket_t socket size)
    unfolding async_read_ex get_as_int ArrayBuffer.alloc quiet_buffer
    async_read_ex-Preserves socket buffer_size =
        (then_do Same (quiet_ext_object socket) λ socket'. quiet_durable socket' (
          either_way Same (socket' == nullptr) (quiet_answer false) (
            quiet_with_cxx socket' (quiet_answer false) λ object.
              then_do Same (engine_call (get_as_int js buffer_size)) λ size.
                then_do Same (engine_call (call js (λ e. ArrayBuffer.alloc js e (to_uint32 size))))
                  λ made. then_do Same (quiet_buffer made) λ buffer. quiet_durable buffer (
                    either_way Same (buffer == nullptr) (quiet_answer false) (
                      then_do Same (quiet_content buffer) λ content.
                        then_do Same (quiet_posting (reading_on socket' buffer content buffer_size))
                          (λ x. quiet_answer true)))))).safe

    pub async_write-Preserves :
        (socket buffer : JsValueRef)
        → Preserves Same (async_write js class_of tcp_socket_t socket buffer)
    unfolding async_write
    async_write-Preserves socket buffer =
        (then_do Same (quiet_ext_object socket) λ socket'. quiet_durable socket' (
          either_way Same (socket' == nullptr) (quiet_some false) (
            quiet_with_cxx socket' (then_do Same (quiet_content buffer) (λ content. give Same none))
              λ object. then_do Same (quiet_content buffer) λ content. quiet_durable buffer (
                then_do Same (quiet_posting (writing socket' buffer content))
                  (λ x. quiet_some true))))).safe

    abbrev pub quiet_check : ℕ → JsValueRef → Quiet JsValueRef
    quiet_check mask v = engine_call (λ e. (as_the js e mask v, e))

    -- What the program runs for a connection, and for what is read from it.
    module _ (response : List ℕ) where
      abbrev pub quiet_on_data : JsValueRef → JsValueRef → Quiet (Option JsValueRef)
      unfolding get_as_int ArrayBuffer.create_from_text base_value
      quiet_on_data self ec = then_do Same (engine_call (get_as_int js ec)) λ err.
          either_way Same (not (no_error err)) (give Same (some nullptr)) (
            then_do Same (engine_call (call js (λ e. ArrayBuffer.create_from_text js e response)))
              λ made.
                then_do Same
                  (engine_call (λ e. (base_value js e (Mask.buffer js.types) true made, e)))
                  λ to_send. then_do Same (quiet_check (Mask.object js.types) self) λ socket.
                    then_do Same (quiet_check (Mask.buffer_like js.types) to_send) λ buffer.
                      then_do Same
                        (record {
                          code = async_write js class_of tcp_socket_t socket buffer;
                          safe = async_write-Preserves socket buffer;
                        })
                        (λ written. give Same (null_answer written)))

      pub on_data-Preserves :
          (self ec : JsValueRef)
          → Preserves Same (on_data js class_of tcp_socket_t response self ec)
      unfolding on_data quiet_on_data
      on_data-Preserves self ec = (quiet_on_data self ec).safe

      pub call_on_data-Preserves :
          (f : JsValueRef) (args : List JsValueRef)
          → Preserves Same (call_on_data js class_of tcp_socket_t response f args)
      unfolding call_on_data
      call_on_data-Preserves f (self ∷ ec ∷ bytes ∷ buffer ∷ more) =
          (then_do Same (quiet_check (Mask.number js.types) ec) λ ec'.
            then_do Same (quiet_check (Mask.number js.types) bytes) λ bytes'.
              then_do Same (quiet_check (Mask.buffer_like js.types) buffer) λ buffer'. record {
                code = on_data js class_of tcp_socket_t response self ec';
                safe = on_data-Preserves self ec';
              }).safe
      call_on_data-Preserves f [] = λ s same. same
      call_on_data-Preserves f (a ∷ []) = λ s same. same
      call_on_data-Preserves f (a ∷ b ∷ []) = λ s same. same
      call_on_data-Preserves f (a ∷ b ∷ d ∷ []) = λ s same. same

    pub on_client-Preserves :
        (stub : ℕ) (client : JsValueRef)
        → Preserves Same (on_client js class_of tcp_socket_t stub client)
    unfolding on_client magic just_int Object.set_property_by_name
    on_client-Preserves stub client =
        (either_way Same (client == nullptr) (give Same nullptr) (
          then_do Same (engine_call (call js (λ e. magic js e stub nullptr 0))) λ made.
            then_do Same (engine_call (function js made)) λ on_data'.
              then_do Same
                (engine_call
                  (call js (λ e. Object.set_property_by_name js e client "onData" on_data')))
                λ done. then_do Same (quiet_check (Mask.object js.types) client) λ socket.
                  then_do Same (engine_call (just_int js (pos 512))) λ size.
                    then_do Same (quiet_check (Mask.number js.types) size) λ size'.
                      then_do Same
                        (record {
                          code = async_read_ex js class_of tcp_socket_t socket size';
                          safe = async_read_ex-Preserves socket size';
                        })
                        (λ read. give Same nullptr))).safe

    -- The end of a read or a write, where the scripts leave the accepts alone.
    module _ (script : JsValueRef → List JsValueRef → Net E P S → Net E P S)
        (scripts : (f : JsValueRef) (args : List JsValueRef) (s : Net E P S)
          → (script f args s).accepts ≡ s.accepts) where
      quiet_notify :
          (socket : JsValueRef) (name : String) (buffer : JsValueRef) (ec : ℤ) (n : ℕ)
          (next : Quiet (Unit {0}))
          → Preserves Same (notify js script socket name buffer ec n next.code)
      unfolding notify just_int just_size_t Object.get_property_by_name
      quiet_notify socket name buffer ec n next =
          (then_do Same (engine_call (call js (λ e. Object.get_property_by_name js e socket name)))
            λ v. then_do Same (engine_call (function js v)) λ callback.
              either_way Same (callback == nullptr) (give Same tt) (
                then_do Same (engine_call (just_int js ec)) λ code.
                  then_do Same (engine_call (just_size_t js n)) λ count.
                    then_do Same
                      (record {
                        code = call_function js script callback socket (code ∷ count ∷ buffer ∷ []);
                        safe =
                            call_function-Preserves js waiting script scripts callback socket
                              (code ∷ count ∷ buffer ∷ []);
                      })
                      (λ x. next))).safe

      pub complete-accepts :
          (op : Operation) (ec : ℤ) (n : ℕ)
          → Preserves Same (complete js class_of tcp_socket_t script op ec n)
      unfolding complete
      complete-accepts (reading socket buffer content) ec n s same =
          quiet_notify socket "onData" buffer ec n (give Same tt) s same
      complete-accepts (writing socket buffer content) ec n s same =
          quiet_notify socket "onWritten" buffer ec n (give Same tt) s same
      complete-accepts (reading_on socket buffer content size) ec n s same =
          quiet_notify socket "onData" buffer ec n
            (either_way Same (no_error ec)
              (then_do Same
                (record {
                  code = async_read_ex js class_of tcp_socket_t socket size;
                  safe = async_read_ex-Preserves socket size;
                })
                (λ again. give Same tt))
              (give Same tt))
            s same
