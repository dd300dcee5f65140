-- ===== src/Jxx/Main/Accepts.antt =====
-- At most one accept waits while the program runs.
use chakra_jxx.Base.{ℕ, ◌≤◌, ◌≡◌, arith, Bool, List, [], Option, none, some, Exec, length}
use chakra_jxx.Base.Preserves.{Leads, then-Leads, first_do}
use chakra_jxx.Js.Jsrt.{Jsrt, JsValueRef}
use chakra_jxx.Jxx.Class.{JxxClass}
use chakra_jxx.Jxx.FileSystem.{FileSystem}
use chakra_jxx.Jxx.Tcp.{Net, Asio, on_host}
use chakra_jxx.Jxx.Main.Start.{start, serve, on_net, on_registry, served_after, main}
use chakra_jxx.Jxx.Main.Listening.{program, program-accepts, Served, Served-length}
use chakra_jxx.Jxx.Main.Opening.{NoneWaits, AtMostOne, weaken, serve-Leads}

module _ {E P S R : Type 0} (js : Jsrt E) (fs : FileSystem P)
    (settings : Exec (E × R) (Option JsValueRef)) (asio : Asio S) (class_of : ℕ → JxxClass)
    (tcp_acceptor_t : ℕ) where
  abbrev Quiet : Net E P S × R → Type 0
  Quiet (s, r) = NoneWaits P S js asio class_of tcp_acceptor_t s

  abbrev Calm : Net E P S × R → Type 0
  Calm (s, r) = AtMostOne P S js asio class_of tcp_acceptor_t s

  calms : (t : Net E P S × R) → Quiet t → Calm t
  calms (s, r) = weaken P S js asio class_of tcp_acceptor_t s

  served_after-Leads :
      (x stub : ℕ) (read : Option JsValueRef)
      → Leads Quiet Calm (served_after js fs settings asio class_of tcp_acceptor_t x stub read)
  unfolding served_after
  served_after-Leads x stub none t quiet = calms t quiet
  served_after-Leads x stub (some q) (s, r) quiet =
      then-Leads (NoneWaits P S js asio class_of tcp_acceptor_t)
        (AtMostOne P S js asio class_of tcp_acceptor_t)
        (serve js asio class_of tcp_acceptor_t x stub) _
        (serve-Leads P S js asio class_of tcp_acceptor_t x stub) (λ server s calm. calm) s quiet

  main-Leads :
      (rt x stub : ℕ)
      → Leads Quiet Calm (main js fs settings asio class_of tcp_acceptor_t rt x stub)
  unfolding main
  main-Leads rt x stub =
      (first_do Quiet Calm calms
        (record { code = on_net (on_host js (start js fs rt)); safe = λ t quiet. quiet })
        λ scope.
          first_do Quiet Calm calms
            (record { code = on_registry settings; safe = λ t quiet. quiet })
            λ read. record {
              code = served_after js fs settings asio class_of tcp_acceptor_t x stub read;
              leads = served_after-Leads x stub read;
            }).leads

  -- Where no accept waits before: from `main` on, whatever fails or throws, and whichever of its
  -- accepts, reads and writes asio ends, in any order and with any errors, each answered by
  -- `on_client` and `on_data`, at most one accept waits.
  pub main-AtMostOne :
      (tcp_socket_t : ℕ) (response : List ℕ) (is_on_client : JsValueRef → Bool)
      (client_stub data_stub rt x : ℕ) (s t : Net E P S) (r : R)
      → s.accepts ≡ []
      → Served js asio class_of tcp_socket_t tcp_acceptor_t
          (program js class_of tcp_socket_t response is_on_client data_stub)
          (main js fs settings asio class_of tcp_acceptor_t rt x client_stub (s, r)).1.0
          t
      → length t.accepts ≤ 1
  main-AtMostOne tcp_socket_t response is_on_client client_stub data_stub rt x s t r waits served =
      omega (
        arith,
        main-Leads rt x client_stub (s, r) waits,
        Served-length js asio class_of tcp_socket_t tcp_acceptor_t
            (program js class_of tcp_socket_t response is_on_client data_stub)
            (program-accepts js class_of tcp_socket_t response is_on_client data_stub) served,
      )
