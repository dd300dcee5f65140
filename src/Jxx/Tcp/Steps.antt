-- ===== src/Jxx/Tcp/Steps.antt =====
-- The life of the sockets: scripts read and write, and asio ends what waits, in any order.
use chakra_jxx.Base.{ℕ, ◌+◌, ◌≡◌, ap, String, List, ◌∷◌, ◌++◌, arith, ℤ, returned}
use chakra_jxx.Base.Holders.{one_if}
use chakra_jxx.Js.Jsrt.{Jsrt, JsValueRef}
use chakra_jxx.Js.Durable
use chakra_jxx.Js.Durable.Balance.{Counts}
use chakra_jxx.Jxx.Class.{JxxClass}
use chakra_jxx.Jxx.Tcp.{Operation, reading, reading_on, writing, Net, no_error, releasing}
use chakra_jxx.Jxx.Tcp.Sockets.{async_read, async_read_ex, async_write, notify, complete}
use chakra_jxx.Jxx.Tcp.Handles.{
  IsCounted, IsFair, Fair, give, then_do, either_way, held_by, held, held-append, drop-refs,
}
use chakra_jxx.Jxx.Tcp.Balance.{
  Keeps, notify-IsFair, async_read-IsFair, async_read_ex-IsFair, async_write-IsFair,
}

module _ {E P S : Type 0} (js : Jsrt E) (class_of : ℕ → JxxClass) (tcp_socket_t : ℕ)
    (script : JsValueRef → List JsValueRef → Net E P S → Net E P S) where
  -- Of the operations that wait, `op` ends with the error `ec`, after `n` bytes.
  pub data Step : Net E P S → Net E P S → Type 0 where
    reads :
        (socket buffer : JsValueRef) (s : Net E P S)
        → Step s (async_read js class_of tcp_socket_t socket buffer s).1
    reads_on :
        (socket size : JsValueRef) (s : Net E P S)
        → Step s (async_read_ex js class_of tcp_socket_t socket size s).1
    writes :
        (socket buffer : JsValueRef) (s : Net E P S)
        → Step s (async_write js class_of tcp_socket_t socket buffer s).1
    ends :
        (before after : List Operation) (op : Operation) (ec : ℤ) (n : ℕ) (s : Net E P S)
        → s.pending ≡ before ++ op ∷ after
        → Step s
            (complete js class_of tcp_socket_t script op ec n
              (record s { pending = before ++ after })).1

  pub data Reach (s : Net E P S) : Net E P S → Type 0 where
    here : Reach s s
    next : {t u : Net E P S} → Reach s t → Step t u → Reach s u

module _ {E P S : Type 0} (js : Jsrt E) (refs : E → JsValueRef → ℕ) (counts : Counts js refs)
    (keeps : Keeps js refs) (class_of : ℕ → JxxClass) (tcp_socket_t : ℕ)
    (script : JsValueRef → List JsValueRef → Net E P S → Net E P S)
    (scripts : (f : JsValueRef) (args : List JsValueRef)
      → IsFair {P = P} {S = S} js refs (λ s. (returned (tt {0}), script f args s))) where
  notified-IsCounted :
      (others : JsValueRef → ℕ) (socket : JsValueRef) (name : String) (buffer : JsValueRef) (ec : ℤ)
      (n : ℕ) (after : Fair P S js refs (Unit {0})) (s : Net E P S)
      → IsCounted js refs (λ v. others v + (one_if v socket + one_if v buffer)) s
      → IsCounted js refs others
          (releasing js socket
            (releasing js buffer (notify js script socket name buffer ec n after.code))
            s).1
  notified-IsCounted others socket name buffer ec n after s c v real =
      let s' = (notify js script socket name buffer ec n after.code s).1 in
      omega (
        arith,
        notify-IsFair js refs keeps script scripts socket name buffer ec n after
            (λ u. others u + (one_if u socket + one_if u buffer)) s c v real,
        drop-refs js refs counts s'.host.engine buffer v real,
        drop-refs js refs counts (Durable.release js s'.host.engine buffer).1 socket v real,
      )

  abbrev again : JsValueRef → JsValueRef → Fair P S js refs (Unit {0})
  again socket size =
      then_do P S js refs
        (record {
          code = async_read_ex js class_of tcp_socket_t socket size;
          fair = async_read_ex-IsFair js refs keeps counts class_of tcp_socket_t socket size;
        })
        (λ v. give P S js refs tt)

  complete-IsCounted :
      (others : JsValueRef → ℕ) (op : Operation) (ec : ℤ) (n : ℕ) (s : Net E P S)
      → IsCounted js refs (λ v. others v + held_by v op) s
      → IsCounted js refs others (complete js class_of tcp_socket_t script op ec n s).1
  unfolding complete
  complete-IsCounted others (reading socket buffer content) ec n s c =
      notified-IsCounted others socket "onData" buffer ec n (give P S js refs tt) s c
  complete-IsCounted others (reading_on socket buffer content size) ec n s c =
      notified-IsCounted others socket "onData" buffer ec n
        (either_way P S js refs (no_error ec) (again socket size) (give P S js refs tt)) s c
  complete-IsCounted others (writing socket buffer content) ec n s c =
      notified-IsCounted others socket "onWritten" buffer ec n (give P S js refs tt) s c

  ends-IsCounted :
      (others : JsValueRef → ℕ) (before after : List Operation) (op : Operation) (s : Net E P S)
      → s.pending ≡ before ++ op ∷ after
      → IsCounted js refs others s
      → IsCounted js refs (λ v. others v + held_by v op) (record s { pending = before ++ after })
  unfolding held
  ends-IsCounted others before after op s same c v real = omega (
    arith,
    c v real,
    ap (held v) same,
    held-append v before (op ∷ after),
    held-append v before after,
  )

  Step-IsCounted :
      (others : JsValueRef → ℕ) {s t : Net E P S}
      → Step js class_of tcp_socket_t script s t
      → IsCounted js refs others s
      → IsCounted js refs others t
  Step-IsCounted others (reads socket buffer s) c =
      async_read-IsFair js refs keeps counts class_of tcp_socket_t socket buffer others s c
  Step-IsCounted others (reads_on socket size s) c =
      async_read_ex-IsFair js refs keeps counts class_of tcp_socket_t socket size others s c
  Step-IsCounted others (writes socket buffer s) c =
      async_write-IsFair js refs keeps counts class_of tcp_socket_t socket buffer others s c
  Step-IsCounted others (ends before after op ec n s same) c =
      complete-IsCounted others op ec n (record s { pending = before ++ after })
        (ends-IsCounted others before after op s same c)

  -- Where `JsAddRef` and `JsRelease` change the count of their value by one, and neither the other
  -- calls of the engine nor the scripts that it runs upset the counts: however scripts read and
  -- write, and asio ends what waits, the engine's count of each value stays the number of the
  -- waiting reads and writes that use it, as their socket or as their buffer, and the references of
  -- others, also where a callback throws.
  pub sockets-IsCounted :
      (others : JsValueRef → ℕ) {s t : Net E P S}
      → IsCounted js refs others s
      → Reach js class_of tcp_socket_t script s t
      → IsCounted js refs others t
  sockets-IsCounted others c here = c
  sockets-IsCounted others c (next r step) =
      Step-IsCounted others step (sockets-IsCounted others c r)
