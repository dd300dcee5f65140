-- ===== src/Jxx/Tcp/Accepting.antt =====
-- The accepts that wait: the end of one posts the next, for the same acceptor, or none.
use chakra_jxx.Base.{
  ℕ, ◌≡◌, refl, ap, ◌∙◌, ◌⊎◌, inl, inr, Bool, true, false, not, List, [], ◌∷◌, ◌++◌, Option, none,
  some, ◌==◌, ◌||◌, ◌&&◌, Bool-cases, if◌then◌else◌, ℤ, Outcome, returned, Exec, ◌>>=◌, ◌>>◌, pure,
  bit_or,
}
use chakra_jxx.Base.Preserves.{
  Preserves, Leads, bind-Leads, then-Leads, if-Leads, Safe, then_do, if-holds,
}
use chakra_jxx.Js.Jsrt.{Jsrt, JsValueRef, nullptr}
use chakra_jxx.Js.Mask
use chakra_jxx.Js.Value.{as_the}
use chakra_jxx.Js.Object
use chakra_jxx.Jxx.Api.{alloc_property_id}
use chakra_jxx.Jxx.Class.{JxxClass, function}
use chakra_jxx.Jxx.Evaluate.{call}
use chakra_jxx.Jxx.Tcp.{Accept, Net, Asio, no_error, on_engine, on_host}
use chakra_jxx.Jxx.Tcp.Sockets.{cxx_found, call_function}
use chakra_jxx.Jxx.Tcp.Acceptors.{post_accept, do_accept, new_client, connect, complete_accept}

not_both : (b c : Bool) → (b && c) ≡ false → (not b || not c) ≡ true
not_both true c h = ap not h
not_both false c h = refl

module _ {E P S : Type 0} (waiting : List Accept) where
  -- The accepts that wait are those.
  abbrev pub SameAccepts : Net E P S → Type 0
  SameAccepts s = s.accepts ≡ waiting

  -- Or one more, for the acceptor.
  abbrev pub OneMore : JsValueRef → Net E P S → Type 0
  OneMore acceptor s =
      (s.accepts ≡ waiting)
      ⊎ ((object : ℕ) × (s.accepts
            ≡ waiting ++ record { acceptor = acceptor; object = object } ∷ []))

  abbrev Posts : {A : Type 0} → JsValueRef → Exec (Net E P S) A → Type 0
  Posts acceptor m = Leads SameAccepts (OneMore acceptor) m

  bind-Posts :
      {A B : Type 0} (acceptor : JsValueRef) (m : Exec (Net E P S) A) (f : A → Exec (Net E P S) B)
      → Preserves SameAccepts m
      → ((a : A) → Posts acceptor (f a))
      → Posts acceptor (m >>= f)
  bind-Posts acceptor m f first then' s same =
      bind-Leads SameAccepts (OneMore acceptor) m f (λ t same'. inl same') first then' s same

  -- What is posted last.
  last-Posts :
      {A : Type 0} (acceptor : JsValueRef) (m : Exec (Net E P S) A)
      → Posts acceptor m
      → Posts acceptor (do done ← m; pure (tt {0}))
  last-Posts acceptor m posts =
      then-Leads SameAccepts (OneMore acceptor) m (λ done. pure (tt {0})) posts
        (λ done s more. more)

  if-Posts :
      {A : Type 0} (acceptor : JsValueRef) (b : Bool) (m k : Exec (Net E P S) A)
      → Posts acceptor m
      → Posts acceptor k
      → Posts acceptor (if b then m else k)
  if-Posts acceptor b m k = if-Leads SameAccepts (OneMore acceptor) b m k

module _ {E P S : Type 0} (js : Jsrt E) (waiting : List Accept) where
  abbrev engine_step :
      {A : Type 0} → Exec E A → Safe (SameAccepts {E = E} {P = P} {S = S} waiting) A
  engine_step m = record { code = on_engine js m; safe = λ s same. same }

  module _ (script : JsValueRef → List JsValueRef → Net E P S → Net E P S)
      (scripts : (f : JsValueRef) (args : List JsValueRef) (s : Net E P S)
        → (script f args s).accepts ≡ s.accepts) where
    pub call_function-Preserves :
        (callback this : JsValueRef) (args : List JsValueRef)
        → Preserves (SameAccepts waiting) (call_function js script callback this args)
    unfolding call_function
    call_function-Preserves callback this args =
        (then_do (SameAccepts waiting)
          (engine_step (λ e.
            (as_the js e (bit_or (Mask.any_object js.types) (Mask.nothing js.types)) this, e)))
          (λ this'. record {
            code = λ s. (returned (tt {0}), script callback (this' ∷ args) s);
            safe = λ s same. scripts callback (this' ∷ args) s ∙ same;
          })).safe

module _ {E P S : Type 0} (js : Jsrt E) (asio : Asio S) (class_of : ℕ → JxxClass)
    (tcp_acceptor_t : ℕ) (waiting : List Accept) where
  found-Posts :
      (acceptor : JsValueRef) (found : Option (ℕ × List ℕ))
      → Posts {E = E} {P = P} {S = S} waiting acceptor
          (cxx_found js found (pure false) (post_accept js asio class_of tcp_acceptor_t acceptor))
  found-Posts acceptor none s same = inl same
  found-Posts acceptor (some (object, path)) s same = inr (
    object,
    ap (λ (xs : List Accept). xs ++ record { acceptor = acceptor; object = object } ∷ []) same,
  )

  pub do_accept-Posts :
      (acceptor : JsValueRef)
      → Posts {E = E} {P = P} {S = S} waiting acceptor
          (do_accept js asio class_of tcp_acceptor_t acceptor)
  unfolding do_accept
  do_accept-Posts acceptor s same = found-Posts acceptor _ _ same

  -- The callback of an accept leaves the accepts that wait, or posts one more for its acceptor.
  module _ (script : JsValueRef → List JsValueRef → Net E P S → Net E P S)
      (scripts : (f : JsValueRef) (args : List JsValueRef) (s : Net E P S)
        → (script f args s).accepts ≡ s.accepts) where
    abbrev called : JsValueRef → JsValueRef → JsValueRef → Exec (Net E P S) (Unit {0})
    called acceptor on_connection client = do
      call_function js script on_connection acceptor (client ∷ [])
      done ← do_accept js asio class_of tcp_acceptor_t acceptor
      pure tt

    called-Posts :
        (acceptor on_connection client : JsValueRef)
        → Posts waiting acceptor (called acceptor on_connection client)
    called-Posts acceptor on_connection client =
        bind-Posts waiting acceptor (call_function js script on_connection acceptor (client ∷ []))
          (λ x. do done ← do_accept js asio class_of tcp_acceptor_t acceptor; pure (tt {0}))
          (call_function-Preserves js waiting script scripts on_connection acceptor (client ∷ []))
          (λ x.
            last-Posts waiting acceptor (do_accept js asio class_of tcp_acceptor_t acceptor)
              (do_accept-Posts acceptor))

    abbrev welcomed : JsValueRef → ℕ → JsValueRef → Exec (Net E P S) (Unit {0})
    welcomed acceptor x on_connection = if on_connection == nullptr then pure tt else do
      client ← new_client js asio class_of tcp_acceptor_t x
      if client == nullptr then pure tt else called acceptor on_connection client

    welcomed-Posts :
        (acceptor : JsValueRef) (x : ℕ) (on_connection : JsValueRef)
        → Posts waiting acceptor (welcomed acceptor x on_connection)
    welcomed-Posts acceptor x on_connection =
        if-Posts waiting acceptor (on_connection == nullptr) (pure (tt {0})) _ (λ s same. inl same)
          (bind-Posts waiting acceptor (new_client js asio class_of tcp_acceptor_t x)
            (λ client.
              if client == nullptr then pure (tt {0}) else called acceptor on_connection client)
            (λ s same. same)
            (λ client.
              if-Posts waiting acceptor (client == nullptr) (pure (tt {0}))
                (called acceptor on_connection client) (λ s same. inl same)
                (called-Posts acceptor on_connection client)))

    abbrev answered : Accept → ℕ → Exec (Net E P S) (Unit {0})
    unfolding alloc_property_id Object.get_property
    answered a x = do
      pid ← on_host js (alloc_property_id js "onConnection")
      v ← on_engine js (call js (λ e. Object.get_property js e a.acceptor pid))
      on_connection ← on_engine js (function js v)
      welcomed a.acceptor x on_connection

    answered-Posts : (a : Accept) (x : ℕ) → Posts waiting a.acceptor (answered a x)
    unfolding answered
    answered-Posts a x =
        bind-Posts waiting a.acceptor (on_host js (alloc_property_id js "onConnection"))
          (λ pid. do
            v ← on_engine js (call js (λ e. Object.get_property js e a.acceptor pid))
            on_connection ← on_engine js (function js v)
            welcomed a.acceptor x on_connection)
          (λ s same. same)
          (λ pid.
            bind-Posts waiting a.acceptor
              (on_engine js (call js (λ e. Object.get_property js e a.acceptor pid)))
              (λ v. do
                on_connection ← on_engine js (function js v)
                welcomed a.acceptor x on_connection)
              (λ s same. same)
              (λ v.
                bind-Posts waiting a.acceptor (on_engine js (function js v)) (welcomed a.acceptor x)
                  (λ s same. same) (welcomed-Posts a.acceptor x)))

    connect-OneMore :
        (a : Accept) (x : ℕ) (ec : ℤ) (s : Net E P S)
        → SameAccepts waiting s
        → OneMore waiting a.acceptor (connect js asio class_of tcp_acceptor_t script a x ec s).1
    unfolding connect answered
    connect-OneMore a x ec s same =
        if-holds (λ (r : Outcome (Unit {0}) × Net E P S). OneMore waiting a.acceptor r.1)
          (not (asio.is_open s.sockets a.object) || not (no_error ec)) (returned tt, s)
          (answered a x s) (inl same) (answered-Posts a x s same)

    connect_closed :
        (a : Accept) (x : ℕ) (ec : ℤ) (s : Net E P S)
        → (not (asio.is_open s.sockets a.object) || not (no_error ec)) ≡ true
        → (connect js asio class_of tcp_acceptor_t script a x ec s).1 ≡ s
    unfolding connect
    connect_closed a x ec s closed = rw closed refl

module _ {E P S : Type 0} (js : Jsrt E) (asio : Asio S) (class_of : ℕ → JxxClass)
    (tcp_acceptor_t : ℕ) (script : JsValueRef → List JsValueRef → Net E P S → Net E P S) where
  -- Where the scripts that callbacks run leave the accepts that wait: the end of an accept,
  -- whatever fails or throws on the way, leaves them too, or posts one more for the same acceptor.
  -- It posts none where the acceptor is closed or the accept has failed.
  pub complete_accept-OneMore :
      (a : Accept) (x : ℕ) (ec : ℤ) (s : Net E P S)
      → ((f : JsValueRef) (args : List JsValueRef) (t : Net E P S)
          → (script f args t).accepts ≡ t.accepts)
      → let s' = (complete_accept js asio class_of tcp_acceptor_t script a x ec s).1 in
        OneMore s.accepts a.acceptor s'
        × ((asio.is_open s.sockets a.object && no_error ec) ≡ true ⊎ (s'.accepts ≡ s.accepts))
  unfolding complete_accept
  complete_accept-OneMore a x ec s scripts = (
    connect-OneMore js asio class_of tcp_acceptor_t s.accepts script scripts a x ec s refl,
    elim (Bool-cases (asio.is_open s.sockets a.object && no_error ec)) [
      | inl open_ ↦ inl open_
      | inr closed ↦ inr (
          ap (λ (t : Net E P S). t.accepts)
            (connect_closed js asio class_of tcp_acceptor_t s.accepts script scripts a x ec s
              (not_both _ _ closed)))
    ],
  )
