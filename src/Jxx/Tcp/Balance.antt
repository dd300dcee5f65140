-- ===== src/Jxx/Tcp/Balance.antt =====
-- However reads and writes are posted and end, the references stay counted.
use chakra_jxx.Base.{
  ℕ, ◌≡◌, refl, ap, ◌∙◌, String, Bool, true, false, List, [], ◌∷◌, ◌==◌, arith, Option, none, some,
  ℤ, Exec, returned, bit_or,
}
use chakra_jxx.Js.Jsrt.{Jsrt, JsValueRef, nullptr}
use chakra_jxx.Js.Mask
use chakra_jxx.Js.Value.{base_value, as_the}
use chakra_jxx.Js.Array.{to_uint32}
use chakra_jxx.Js.Durable.Balance.{Counts}
use chakra_jxx.Js.Object
use chakra_jxx.Js.ArrayBuffer
use chakra_jxx.Js.TypedArray.{Content}
use chakra_jxx.Js.TypedArray.{Content}
use chakra_jxx.Js.Primitive.{to_int, get_as_int, just_int, just_size_t, just_boolean}
use chakra_jxx.Jxx.Class.{JxxClass, function}
use chakra_jxx.Jxx.Evaluate.{call}
use chakra_jxx.Jxx.ExtObject.{World, try_get_as}
use chakra_jxx.Jxx.Tcp.{Operation, reading, reading_on, writing, Net, world_of, put_world}
use chakra_jxx.Jxx.Tcp.Sockets.{
  with_cxx, cxx_found, async_read, async_read_ex, async_write, call_function, notify,
}
use chakra_jxx.Jxx.Tcp.Handles.{
  IsQuiet, IsFair, Fair, engine_call, give, then_do, either_way, with_durable, post_it,
}

-- The engine's calls, other than those of scripts, change no count of references.
pub record Keeps {E : Type 0} (js : Jsrt E) (refs : E → JsValueRef → ℕ) : Type 0 where
  pub keeps_property_id :
      (e : E) (name : String) (v : JsValueRef) → refs (js.create_property_id e name).2 v ≡ refs e v
  pub keeps_get_property :
      (e : E) (object pid v : JsValueRef) → refs (js.get_property e object pid).2 v ≡ refs e v
  pub keeps_int : (e : E) (i : ℤ) (v : JsValueRef) → refs (js.int_to_number e i).2 v ≡ refs e v
  pub keeps_bool :
      (e : E) (b : Bool) (v : JsValueRef) → refs (js.bool_to_boolean e b).2 v ≡ refs e v
  pub keeps_array_buffer :
      (e : E) (size : ℕ) (v : JsValueRef) → refs (js.create_array_buffer e size).2 v ≡ refs e v

module _ {E : Type 0} (js : Jsrt E) where
  try_get_as-engine :
      (class_of : ℕ → JxxClass) (clsid : ℕ) (v : JsValueRef) (w : World E)
      → (try_get_as js class_of clsid v w).1.engine ≡ w.engine
  unfolding try_get_as
  try_get_as-engine class_of clsid v w = ground arith

  module _ (refs : E → JsValueRef → ℕ) (keeps : Keeps js refs) where
    pub get_property_by_name-IsQuiet :
        (object : JsValueRef) (name : String)
        → IsQuiet js refs (call js (λ e. Object.get_property_by_name js e object name))
    unfolding Object.get_property_by_name Object.property_id Object.get_property
    get_property_by_name-IsQuiet object name e v =
        let made = js.create_property_id e name in
        keeps.keeps_get_property made.2 object made.1 v ∙ keeps.keeps_property_id e name v

module _ {E P S : Type 0} (js : Jsrt E) (refs : E → JsValueRef → ℕ) where
  cxx_found-IsFair :
      {A : Type 0} (found : Option (ℕ × List ℕ)) (missing : Exec (Net E P S) A)
      (f : ℕ → Exec (Net E P S) A)
      → IsFair js refs missing
      → ((object : ℕ) → IsFair js refs (f object))
      → IsFair js refs (cxx_found js found missing f)
  cxx_found-IsFair none missing f first second others s c = first others s c
  cxx_found-IsFair (some (object, path)) missing f first second others s c =
      second object others s c

  module _ (class_of : ℕ → JxxClass) where
    with_cxx-IsFair :
        {A : Type 0} (clsid : ℕ) (v : JsValueRef) (missing : Exec (Net E P S) A)
        (f : ℕ → Exec (Net E P S) A)
        → IsFair js refs missing
        → ((object : ℕ) → IsFair js refs (f object))
        → IsFair js refs (with_cxx js class_of clsid v missing f)
    with_cxx-IsFair clsid v missing f first second others s c =
        let r = try_get_as js class_of clsid v (world_of s) in
        cxx_found-IsFair r.0 missing f first second others (put_world r.1 s) (λ u n.
          ap (λ (e : E). refs e u) (try_get_as-engine js class_of clsid v (world_of s)) ∙ c u n)

    abbrev find_cxx :
        {A : Type 0}
        → ℕ
        → JsValueRef
        → Fair P S js refs A
        → (ℕ → Fair P S js refs A)
        → Fair P S js refs A
    find_cxx clsid v p f = record {
      code = with_cxx js class_of clsid v p.code (λ object. (f object).code);
      fair =
          with_cxx-IsFair clsid v p.code (λ object. (f object).code) p.fair
            (λ object. (f object).fair);
    }

module _ {E P S : Type 0} (js : Jsrt E) (refs : E → JsValueRef → ℕ) (keeps : Keeps js refs) where
  abbrev fair_answer : Bool → Fair P S js refs JsValueRef
  unfolding just_boolean
  fair_answer b =
      then_do P S js refs
        (engine_call P S js refs (just_boolean js b) (λ e v. keeps.keeps_bool e b v))
        (λ v.
          engine_call P S js refs (λ e. (as_the js e (Mask.boolean js.types) v, e)) (λ e u. refl))

  abbrev fair_content : JsValueRef → Fair P S js refs Content
  fair_content buffer =
      engine_call P S js refs (λ e. (ArrayBuffer.get_content js e buffer, e)) (λ e u. refl)

  abbrev fair_object : JsValueRef → Fair P S js refs JsValueRef
  fair_object v =
      engine_call P S js refs (λ e. (base_value js e (Mask.object js.types) true v, e))
        (λ e u. refl)

  module _ (script : JsValueRef → List JsValueRef → Net E P S → Net E P S)
      (scripts : (f : JsValueRef) (args : List JsValueRef)
        → IsFair {P = P} {S = S} js refs (λ s. (returned (tt {0}), script f args s))) where
    abbrev run_script : JsValueRef → List JsValueRef → Fair P S js refs (Unit {0})
    run_script f args = record { code = λ s. (returned tt, script f args s); fair = scripts f args }

    abbrev fair_call : JsValueRef → JsValueRef → List JsValueRef → Fair P S js refs (Unit {0})
    fair_call callback this args =
        then_do P S js refs
          (engine_call P S js refs
            (λ e. (as_the js e (bit_or (Mask.any_object js.types) (Mask.nothing js.types)) this, e))
            (λ e u. refl))
          (λ this'. run_script callback (this' ∷ args))

    abbrev fair_notify :
        JsValueRef
        → String
        → JsValueRef
        → ℤ
        → ℕ
        → Fair P S js refs (Unit {0})
        → Fair P S js refs (Unit {0})
    unfolding just_int just_size_t
    fair_notify socket name buffer ec n after =
        then_do P S js refs
          (engine_call P S js refs (call js (λ e. Object.get_property_by_name js e socket name))
            (get_property_by_name-IsQuiet js refs keeps socket name))
          λ v.
            then_do P S js refs (engine_call P S js refs (function js v) (λ e u. refl)) λ callback.
              either_way P S js refs (callback == nullptr) (give P S js refs tt) (
                then_do P S js refs
                  (engine_call P S js refs (just_int js ec) (λ e u. keeps.keeps_int e ec u))
                  λ code.
                    then_do P S js refs
                      (engine_call P S js refs (just_size_t js n)
                        (λ e u. keeps.keeps_int e (to_int n) u))
                      λ count.
                        then_do P S js refs (fair_call callback socket (code ∷ count ∷ buffer ∷ []))
                          (λ done. after))

    pub notify-IsFair :
        (socket : JsValueRef) (name : String) (buffer : JsValueRef) (ec : ℤ) (n : ℕ)
        (after : Fair P S js refs (Unit {0}))
        → IsFair {P = P} {S = S} js refs (notify js script socket name buffer ec n after.code)
    unfolding notify call_function fair_notify
    notify-IsFair socket name buffer ec n after = (fair_notify socket name buffer ec n after).fair

  module _ (counts : Counts js refs) (class_of : ℕ → JxxClass) (tcp_socket_t : ℕ) where
    abbrev fair_socket :
        {A : Type 0}
        → JsValueRef
        → Fair P S js refs A
        → Fair P S js refs A
        → (JsValueRef → Fair P S js refs A)
        → Fair P S js refs A
    fair_socket socket refused missing f = then_do P S js refs (fair_object socket) λ socket'.
        with_durable P S js refs counts socket' (
          either_way P S js refs (socket' == nullptr) refused
            (find_cxx js refs class_of tcp_socket_t socket' missing (λ object. f socket')))

    abbrev fair_post : Operation → Fair P S js refs JsValueRef
    unfolding fair_answer
    fair_post op = then_do P S js refs (post_it P S js refs counts op) (λ done. fair_answer true)

    pub async_read-IsFair :
        (socket buffer : JsValueRef)
        → IsFair {P = P} {S = S} js refs (async_read js class_of tcp_socket_t socket buffer)
    unfolding async_read fair_answer fair_post
    async_read-IsFair socket buffer =
        (fair_socket socket (fair_answer false) (fair_answer false) (λ socket'.
          with_durable P S js refs counts buffer (
            then_do P S js refs (fair_content buffer)
              (λ content. fair_post (reading socket' buffer content))))).fair

    abbrev fair_read_ex : JsValueRef → JsValueRef → Fair P S js refs JsValueRef
    unfolding fair_answer fair_post get_as_int ArrayBuffer.alloc
    fair_read_ex socket buffer_size =
        fair_socket socket (fair_answer false) (fair_answer false) λ socket'.
          then_do P S js refs (engine_call P S js refs (get_as_int js buffer_size) (λ e u. refl))
            λ size.
              then_do P S js refs
                (engine_call P S js refs (call js (λ e. ArrayBuffer.alloc js e (to_uint32 size)))
                  (λ e u. keeps.keeps_array_buffer e (to_uint32 size) u))
                λ made.
                  then_do P S js refs
                    (engine_call P S js refs
                      (λ e. (base_value js e (Mask.buffer js.types) true made, e)) (λ e u. refl))
                    λ buffer. with_durable P S js refs counts buffer (
                      either_way P S js refs (buffer == nullptr) (fair_answer false) (
                        then_do P S js refs (fair_content buffer)
                          (λ content. fair_post (reading_on socket' buffer content buffer_size))))

    pub async_read_ex-IsFair :
        (socket buffer_size : JsValueRef)
        → IsFair {P = P} {S = S} js refs (async_read_ex js class_of tcp_socket_t socket buffer_size)
    unfolding async_read_ex fair_read_ex
    async_read_ex-IsFair socket buffer_size = (fair_read_ex socket buffer_size).fair

    pub async_write-IsFair :
        (socket buffer : JsValueRef)
        → IsFair {P = P} {S = S} js refs (async_write js class_of tcp_socket_t socket buffer)
    unfolding async_write fair_answer fair_post
    async_write-IsFair socket buffer =
        (fair_socket socket
          (then_do P S js refs (fair_answer false) (λ v. give P S js refs (some v)))
          (then_do P S js refs (fair_content buffer) (λ content. give P S js refs none))
          (λ socket'. then_do P S js refs (fair_content buffer) λ content.
            with_durable P S js refs counts buffer (
              then_do P S js refs (post_it P S js refs counts (writing socket' buffer content))
                λ done.
                  then_do P S js refs (fair_answer true) (λ v. give P S js refs (some v))))).fair
