-- ===== src/Jxx/Tcp/Acceptors.antt =====
-- jxx.asio.tcp.h: the creation of sockets and acceptors, and the accepts, of which each posts the
-- next.
use chakra_jxx.Base.{
  ℕ, Bool, true, false, not, List, [], ◌∷◌, ◌++◌, ◌==◌, ◌||◌, if◌then◌else◌, ℤ, pos, negsuc,
  returned, Exec, ◌>>=◌, ◌>>◌, pure, throw_if,
}
use chakra_jxx.Js.Jsrt.{Jsrt, JsValueRef, nullptr}
use chakra_jxx.Js.Durable
use chakra_jxx.Js.Object
use chakra_jxx.Js.Primitive.{get_as_int, get_as_string}
use chakra_jxx.Jxx.Api.{alloc_property_id}
use chakra_jxx.Jxx.Class.{JxxClass, function}
use chakra_jxx.Jxx.Evaluate.{call}
use chakra_jxx.Jxx.ExtObject.{try_get_as, as_new, hold, create}
use chakra_jxx.Jxx.Tcp.{
  Accept, Net, Asio, no_error, error_asio_error, on_engine, on_host, on_sockets, world_of,
  put_world, hold_value, releasing, durable, holding, answer, as_object, ext_object, create_object,
  current_io_context,
}
use chakra_jxx.Jxx.Tcp.Sockets.{with_cxx, dropping, call_function}

abbrev is_ip_version : ℤ → Bool
is_ip_version (pos n) = n == 4 || n == 6
is_ip_version (negsuc n) = false

abbrev version : ℤ → ℕ
version (pos n) = n
version (negsuc n) = 0

module _ {E P S : Type 0} (js : Jsrt E) (asio : Asio S) where
  -- `Socket`, where `x` is the new object.
  unfoldable pub socket : ℕ → JsValueRef → Exec (Net E P S) JsValueRef
  unfolding get_as_int current_io_context create
  socket x ip_ver = do
    ip ← on_engine js (get_as_int js ip_ver)
    throw_if (pos js.error_invalid_argument) (not (is_ip_version ip))
    current_io_context js
    throw_if (pos js.error_out_of_memory) (x == 0)
    holding js x (do
      ec ←
          on_sockets js (λ t. let (ec, t') = asio.open_socket t x (version ip) in (returned ec, t'))
      throw_if error_asio_error (not (ec == 0))
      out ← create_object js x
      as_object js out)

  -- `CreateAcceptor`, where `x` is the new object. A null answer is no object, and so it throws.
  unfoldable pub create_acceptor : ℕ → JsValueRef → JsValueRef → Exec (Net E P S) JsValueRef
  unfolding get_as_string current_io_context create
  create_acceptor x addr port = do
    current_io_context js
    holding js x (
        if x == 0 then as_object js nullptr else do
          remote ← on_engine js (get_as_string js addr)
          port' ← on_engine js (get_as_string js port)
          current_io_context js
          endpoint ← on_sockets js (asio.resolve remote port')
          on_sockets js (asio.open_acceptor x endpoint)
          on_sockets js (asio.reuse_address x)
          on_sockets js (asio.bind x endpoint)
          out ← create_object js x
          as_object js out)

  module _ (class_of : ℕ → JxxClass) (tcp_acceptor_t : ℕ) where
    -- asio takes an accept, whose callback has captured the acceptor and its object.
    abbrev pub post_accept : JsValueRef → ℕ → Exec (Net E P S) Bool
    post_accept acceptor object s =
        let s' = hold_value js acceptor (put_world (hold js object (world_of s)) s) in
        (
          returned true,
          record s' {
            accepts = s'.accepts ++ record { acceptor = acceptor; object = object } ∷ [];
          },
        )

    -- `do_accept`.
    unfoldable pub do_accept : JsValueRef → Exec (Net E P S) Bool
    unfolding try_get_as Durable.add_ref Durable.release
    do_accept acceptor =
        durable js acceptor
          (with_cxx js class_of tcp_acceptor_t acceptor (pure false) (post_accept acceptor))

    -- `Listen`.
    unfoldable pub listen : JsValueRef → Exec (Net E P S) JsValueRef
    unfolding do_accept Object.get_property_by_name
    listen acceptor = do
      acceptor' ← ext_object js acceptor
      v ← on_engine js (call js (λ e. Object.get_property_by_name js e acceptor' "onConnection"))
      on_connection ← on_engine js (function js v)
      if on_connection == nullptr
          then answer js false
          else with_cxx js class_of tcp_acceptor_t acceptor' (answer js false) λ object. do
            on_sockets js (asio.listen object)
            done ← do_accept acceptor'
            answer js done

    -- `As<tcp_socket_t>::New`, of the socket of the connection.
    abbrev pub new_client : ℕ → Exec (Net E P S) JsValueRef
    new_client x s =
        let (out, w') = as_new js x nullptr (world_of s) in
        (returned out, put_world w' (record s { sockets = asio.adopt x s.sockets }))

    module _ (script : JsValueRef → List JsValueRef → Net E P S → Net E P S) where
      -- The callback of `do_accept`, before it gives up what it has captured. A client is made at
      -- `x`.
      unfoldable pub connect : Accept → ℕ → ℤ → Exec (Net E P S) (Unit {0})
      unfolding alloc_property_id Object.get_property as_new call_function do_accept
      connect a x ec s =
          if not (asio.is_open s.sockets a.object) || not (no_error ec)
          then (returned tt, s)
          else (do
            pid ← on_host js (alloc_property_id js "onConnection")
            v ← on_engine js (call js (λ e. Object.get_property js e a.acceptor pid))
            on_connection ← on_engine js (function js v)
            if on_connection == nullptr then pure tt else do
              client ← new_client x
              if client == nullptr then pure tt else do
                call_function js script on_connection a.acceptor (client ∷ [])
                done ← do_accept a.acceptor
                pure tt)
              s

      -- The end of an accept.
      unfoldable pub complete_accept : Accept → ℕ → ℤ → Exec (Net E P S) (Unit {0})
      unfolding connect Durable.release
      complete_accept a x ec = dropping js a.object (releasing js a.acceptor (connect a x ec))
