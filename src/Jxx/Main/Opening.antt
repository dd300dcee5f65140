-- ===== src/Jxx/Main/Opening.antt =====
-- The start of the server posts at most one accept.
use chakra_jxx.Base.{
  String, ℕ, ◌≤◌, ◌≡◌, refl, ap, ◌∙◌, arith, true, false, Bool, List, [], Option, none, some, ◌==◌,
  ℤ, Outcome, returned, Exec, throw_if, length,
}
use chakra_jxx.Base.Preserves.{
  Preserves, Leads, Leading, first_do, last_do, lead_either, no_step, then_do, give, either_way,
}
use chakra_jxx.Js.Jsrt.{Jsrt, JsValueRef, nullptr}
use chakra_jxx.Js.Mask
use chakra_jxx.Js.Value.{as_the, base_value}
use chakra_jxx.Js.Primitive.{get_as_string, just_boolean}
use chakra_jxx.Js.Object
use chakra_jxx.Js.Function.{magic}
use chakra_jxx.Jxx.Class.{JxxClass, function}
use chakra_jxx.Jxx.Evaluate.{object, call}
use chakra_jxx.Jxx.ExtObject.{World, create, hold}
use chakra_jxx.Jxx.Tcp.{
  Net, Asio, on_engine, on_sockets, holding, create_object, current_io_context, answer, world_of,
  put_world,
}
use chakra_jxx.Jxx.Tcp.Sockets.{with_cxx, cxx_found}
use chakra_jxx.Jxx.Tcp.Acceptors.{create_acceptor, listen, do_accept}
use chakra_jxx.Jxx.Tcp.Accepting.{do_accept-Posts}
use chakra_jxx.Jxx.Main.Start.{serve, host_text, put_callback}
use chakra_jxx.Jxx.Main.Waiting.{Quiet, engine_call, quiet_check, quiet_answer, quiet_ext_object}
use chakra_jxx.Jxx.Main.Listening.{OneMore-length}

module _ {E : Type 0} (P S : Type 0) (js : Jsrt E) (asio : Asio S) (class_of : ℕ → JxxClass)
    (tcp_acceptor_t : ℕ) where
  abbrev pub NoneWaits : Net E P S → Type 0
  NoneWaits s = s.accepts ≡ []

  abbrev pub AtMostOne : Net E P S → Type 0
  AtMostOne s = length s.accepts ≤ 1

  pub weaken : (s : Net E P S) → NoneWaits s → AtMostOne s
  weaken s none_waits = omega (arith, ap length none_waits)

  throw_if-state : {T : Type 0} (code : ℤ) (b : Bool) (t : T) → (throw_if code b t).1 ≡ t
  throw_if-state code true t = refl
  throw_if-state code false t = refl

  abbrev io_context : Quiet P S js [] (Unit {0})
  unfolding current_io_context
  io_context = record {
    code = current_io_context js;
    safe = λ s same. ap (λ (t : Net E P S). t.accepts) (throw_if-state _ _ s) ∙ same;
  }

  abbrev on_asio : {A : Type 0} → Exec S A → Quiet P S js [] A
  on_asio m = record { code = on_sockets js m; safe = λ s same. same }

  created-Preserves :
      (o : Option (JsValueRef × World E)) (s : Net E P S)
      → NoneWaits s
      → NoneWaits
          (elim o as (λ x. Outcome JsValueRef × Net E P S) [
            | none ↦ (returned nullptr, s)
            | some (out, w') ↦ (returned out, put_world w' s)
          ]).1
  created-Preserves none s same = same
  created-Preserves (some (out, w)) s same = same

  abbrev quiet_create_object : ℕ → Quiet P S js [] JsValueRef
  unfolding create
  quiet_create_object x = record {
    code = create_object js x;
    safe = λ s same. created-Preserves _ s same;
  }

  abbrev quiet_holding : {A : Type 0} → ℕ → Quiet P S js [] A → Quiet P S js [] A
  quiet_holding x m = record {
    code = holding js x m.code;
    safe = λ s same. m.safe (put_world (hold js x (world_of s)) s) same;
  }

  abbrev quiet_create_acceptor : ℕ → JsValueRef → JsValueRef → Quiet P S js [] JsValueRef
  unfolding create_acceptor get_as_string create
  quiet_create_acceptor x addr port = record {
    code = create_acceptor js asio x addr port;
    safe =
        (then_do NoneWaits io_context λ u. quiet_holding x (
          either_way NoneWaits (x == 0)
            (quiet_check P S js [] class_of tcp_acceptor_t (Mask.object js.types) nullptr)
            (then_do NoneWaits (engine_call P S js [] (get_as_string js addr)) λ remote.
              then_do NoneWaits (engine_call P S js [] (get_as_string js port)) λ port'.
                then_do NoneWaits io_context λ u'.
                  then_do NoneWaits (on_asio (asio.resolve remote port')) λ endpoint.
                    then_do NoneWaits (on_asio (asio.open_acceptor x endpoint)) λ a.
                      then_do NoneWaits (on_asio (asio.reuse_address x)) λ b.
                        then_do NoneWaits (on_asio (asio.bind x endpoint)) λ c.
                          then_do NoneWaits (quiet_create_object x) λ out.
                            quiet_check P S js [] class_of tcp_acceptor_t (Mask.object js.types)
                              out))).safe;
  }

  abbrev quiet_text : String → Quiet P S js [] JsValueRef
  quiet_text text = record {
    code = host_text js asio class_of tcp_acceptor_t text;
    safe = λ s same. same;
  }

  abbrev Starting : Type 0 → Type 0
  Starting A = Leading NoneWaits AtMostOne weaken A

  cxx_found-Leads :
      {A : Type 0} (found : Option (ℕ × List ℕ)) (missing : Starting A) (f : ℕ → Starting A)
      → Leads NoneWaits AtMostOne (cxx_found js found missing.code (λ object. (f object).code))
  cxx_found-Leads none missing f = missing.leads
  cxx_found-Leads (some (object, path)) missing f = (f object).leads

  abbrev starting_with_cxx : {A : Type 0} → JsValueRef → Starting A → (ℕ → Starting A) → Starting A
  starting_with_cxx v missing f = record {
    code = with_cxx js class_of tcp_acceptor_t v missing.code (λ object. (f object).code);
    leads = λ s same. cxx_found-Leads _ missing f _ same;
  }

  abbrev starting_accept : JsValueRef → Starting Bool
  unfolding do_accept
  starting_accept acceptor = record {
    code = do_accept js asio class_of tcp_acceptor_t acceptor;
    leads = λ s same.
        OneMore-length [] acceptor (do_accept js asio class_of tcp_acceptor_t acceptor s).1
          (do_accept-Posts js asio class_of tcp_acceptor_t [] acceptor s same);
  }

  answer-Preserves : (b : Bool) → Preserves AtMostOne (answer js b)
  answer-Preserves b =
      (then_do AtMostOne (record { code = on_engine js (just_boolean js b); safe = λ s h. h })
        (λ v. record {
          code = on_engine js (λ e. (as_the js e (Mask.boolean js.types) v, e));
          safe = λ s h. h;
        })).safe

  abbrev starting_answer : Bool → Starting JsValueRef
  starting_answer b =
      no_step NoneWaits AtMostOne weaken (quiet_answer P S js [] class_of tcp_acceptor_t b)

  listen-Leads :
      (acceptor : JsValueRef)
      → Leads NoneWaits AtMostOne (listen js asio class_of tcp_acceptor_t acceptor)
  unfolding listen Object.get_property_by_name
  listen-Leads acceptor =
      (first_do NoneWaits AtMostOne weaken
        (quiet_ext_object P S js [] class_of tcp_acceptor_t acceptor)
        λ acceptor'.
          first_do NoneWaits AtMostOne weaken
            (engine_call P S js []
              (call js (λ e. Object.get_property_by_name js e acceptor' "onConnection")))
            λ v.
              first_do NoneWaits AtMostOne weaken (engine_call P S js [] (function js v))
                λ on_connection.
                  lead_either NoneWaits AtMostOne weaken (on_connection == nullptr)
                    (starting_answer false)
                    (starting_with_cxx acceptor' (starting_answer false) λ object.
                      first_do NoneWaits AtMostOne weaken (on_asio (asio.listen object)) λ u.
                        last_do NoneWaits AtMostOne weaken (starting_accept acceptor') λ done.
                          record { code = answer js done; safe = answer-Preserves done })).leads

  -- Where no accept waits: what `main` does to serve connections posts at most one, whatever fails
  -- or throws on the way.
  pub serve-Leads :
      (x stub : ℕ) → Leads NoneWaits AtMostOne (serve js asio class_of tcp_acceptor_t x stub)
  unfolding serve
  serve-Leads x stub =
      (first_do NoneWaits AtMostOne weaken (quiet_text "0.0.0.0") λ addr.
        first_do NoneWaits AtMostOne weaken (quiet_text "8080") λ port.
          first_do NoneWaits AtMostOne weaken (quiet_create_acceptor x addr port) λ made.
            first_do NoneWaits AtMostOne weaken
              (engine_call P S js []
                (λ e. (base_value js e (Mask.any_object js.types) true made, e)))
              λ server.
                first_do NoneWaits AtMostOne weaken
                  (engine_call P S js [] (call js (λ e. magic js e stub nullptr 0)))
                  λ f.
                    first_do NoneWaits AtMostOne weaken (engine_call P S js [] (function js f))
                      λ on_connection.
                        first_do NoneWaits AtMostOne weaken
                          (engine_call P S js [] (put_callback js server on_connection))
                          λ u.
                            first_do NoneWaits AtMostOne weaken
                              (quiet_check P S js [] class_of tcp_acceptor_t (Mask.object js.types)
                                server)
                              λ server'.
                                last_do NoneWaits AtMostOne weaken
                                  (record {
                                    code = listen js asio class_of tcp_acceptor_t server';
                                    leads = listen-Leads server';
                                  })
                                  (λ listening. give AtMostOne server)).leads
