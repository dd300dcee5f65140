-- ===== src/Jxx/Main/Listening.antt =====
-- The server at work: asio ends its accepts, reads and writes, and the program runs `on_client` and
-- `on_data`.
use chakra_jxx.Base.{
  ℕ, ◌+◌, ◌≤◌, ◌≡◌, refl, ap, arith, Bool, List, [], ◌∷◌, ◌++◌, Option, none, some, if◌then◌else◌,
  ℤ, Exec, ◌>>=◌, pure, length, inl, inr, length-append,
}
use chakra_jxx.Base.Preserves.{Preserves, then_do, give}
use chakra_jxx.Js.Jsrt.{Jsrt, JsValueRef}
use chakra_jxx.Jxx.Class.{JxxClass}
use chakra_jxx.Jxx.Evaluate.{object}
use chakra_jxx.Jxx.Tcp.{Operation, Accept, Net, Asio, on_engine, answer}
use chakra_jxx.Jxx.Tcp.Sockets.{complete}
use chakra_jxx.Jxx.Tcp.Acceptors.{complete_accept}
use chakra_jxx.Jxx.Tcp.Accepting.{SameAccepts, OneMore, complete_accept-OneMore}
use chakra_jxx.Jxx.Main.Client.{call_on_data, on_client}
use chakra_jxx.Jxx.Main.Waiting.{
  engine_call, complete-accepts, call_on_data-Preserves, on_client-Preserves,
}

-- What the engine runs when the server calls a function: that of `on_client`, or that of `on_data`.
module _ {E P S : Type 0} (js : Jsrt E) (class_of : ℕ → JxxClass) (tcp_socket_t : ℕ)
    (response : List ℕ) (is_on_client : JsValueRef → Bool) (stub : ℕ) where
  -- The stub of `on_client`, whose parameter is an `Object`.
  unfoldable pub call_on_client : List JsValueRef → Exec (Net E P S) (Option JsValueRef)
  unfolding object on_client
  call_on_client (self ∷ client ∷ more) = do
    client' ← on_engine js (object js client)
    answer ← on_client js class_of tcp_socket_t stub client'
    pure (some answer)
  call_on_client other = pure none

  unfoldable pub program : JsValueRef → List JsValueRef → Net E P S → Net E P S
  unfolding call_on_client call_on_data
  program f args s =
      if is_on_client f
      then (call_on_client args s).1
      else (call_on_data js class_of tcp_socket_t response f args s).1

  call_on_client-Preserves :
      (waiting : List Accept) (args : List JsValueRef)
      → Preserves (SameAccepts waiting) (call_on_client args)
  unfolding call_on_client object
  call_on_client-Preserves waiting (self ∷ client ∷ more) =
      (then_do (SameAccepts waiting) (engine_call P S js waiting (object js client)) λ client'.
        then_do (SameAccepts waiting)
          (record {
            code = on_client js class_of tcp_socket_t stub client';
            safe = on_client-Preserves P S js waiting class_of tcp_socket_t stub client';
          })
          (λ answer. give (SameAccepts waiting) (some answer))).safe
  call_on_client-Preserves waiting [] = λ s same. same
  call_on_client-Preserves waiting (a ∷ []) = λ s same. same

  pub program-accepts :
      (f : JsValueRef) (args : List JsValueRef) (s : Net E P S)
      → (program f args s).accepts ≡ s.accepts
  unfolding program
  program-accepts f args s = ground (
    arith,
    call_on_client-Preserves s.accepts args s refl,
    call_on_data-Preserves P S js s.accepts class_of tcp_socket_t response f args s refl,
  )

module _ {E P S : Type 0} where
  pub OneMore-length :
      (waiting : List Accept) (acceptor : JsValueRef) (t : Net E P S)
      → OneMore waiting acceptor t
      → length t.accepts ≤ length waiting + 1
  OneMore-length waiting acceptor t (inl same) = omega (arith, ap length same)
  OneMore-length waiting acceptor t (inr (object, same)) = omega (
    arith,
    ap length same,
    length-append waiting (record { acceptor = acceptor; object = object } ∷ []),
  )

-- asio ends a read or a write with the error `ec` after `n` bytes, or an accept, whose client
-- stands at `x`.
module _ {E P S : Type 0} (js : Jsrt E) (asio : Asio S) (class_of : ℕ → JxxClass)
    (tcp_socket_t tcp_acceptor_t : ℕ)
    (script : JsValueRef → List JsValueRef → Net E P S → Net E P S) where
  pub data Event : Net E P S → Net E P S → Type 0 where
    ends :
        (before after : List Operation) (op : Operation) (ec : ℤ) (n : ℕ) (s : Net E P S)
        → s.pending ≡ before ++ op ∷ after
        → Event s
            (complete js class_of tcp_socket_t script op ec n
              (record s { pending = before ++ after })).1
    accepts :
        (before after : List Accept) (a : Accept) (x : ℕ) (ec : ℤ) (s : Net E P S)
        → s.accepts ≡ before ++ a ∷ after
        → Event s
            (complete_accept js asio class_of tcp_acceptor_t script a x ec
              (record s { accepts = before ++ after })).1

  pub data Served (s : Net E P S) : Net E P S → Type 0 where
    here : Served s s
    next : {t u : Net E P S} → Served s t → Event t u → Served s u

  module _
      (scripts : (f : JsValueRef) (args : List JsValueRef) (s : Net E P S)
        → (script f args s).accepts ≡ s.accepts) where
    Event-length : {s t : Net E P S} → Event s t → length t.accepts ≤ length s.accepts
    Event-length (ends before after op ec n s same) =
        let quiet =
          complete-accepts P S js s.accepts class_of tcp_socket_t script scripts op ec n
            (record s { pending = before ++ after }) refl in
        omega (arith, ap length quiet)
    Event-length (accepts before after a x ec s same) =
        let s0 : Net E P S = record s { accepts = before ++ after } in
        let s' = (complete_accept js asio class_of tcp_acceptor_t script a x ec s0).1 in
        omega (
          arith,
          OneMore-length (before ++ after) a.acceptor s'
              (complete_accept-OneMore js asio class_of tcp_acceptor_t script a x ec s0 scripts).0,
          ap length same,
          length-append before after,
          length-append before (a ∷ after),
        )

    pub Served-length : {s t : Net E P S} → Served s t → length t.accepts ≤ length s.accepts
    Served-length here = omega arith
    Served-length (next served event) = omega (arith, Served-length served, Event-length event)
