-- ===== src/Jxx/Tcp.antt =====
-- jxx.asio.tcp.h: the asynchronous sockets. asio is a parameter: what a call of it does, and which
-- of the operations that wait ends next, and how.
pub mod Sockets
pub mod Accepting
pub mod Acceptors
pub mod Handles
pub mod Balance
pub mod Steps
use chakra_jxx.Base.{
  ℕ, zero, suc, ◌^◌, String, Bool, true, false, not, List, [], ◌∷◌, ◌++◌, Option, none, some, ◌==◌,
  ◌||◌, if◌then◌else◌, ℤ, pos, negsuc, bit_or, Outcome, returned, thrown, Exec, ◌>>=◌, ◌>>◌, pure,
  throw_if, lift,
}
use chakra_jxx.Js.Jsrt.{Jsrt, JsValueRef, nullptr}
use chakra_jxx.Js.Mask
use chakra_jxx.Js.Value.{as_the, base_value}
use chakra_jxx.Js.Durable
use chakra_jxx.Js.Object
use chakra_jxx.Js.Array.{to_uint32}
use chakra_jxx.Js.ArrayBuffer
use chakra_jxx.Js.Primitive.{get_as_int, get_as_string, just_int, just_size_t, just_boolean}
use chakra_jxx.Js.TypedArray.{Content}
use chakra_jxx.Jxx.Api.{Host, get_current_runtime, alloc_property_id}
use chakra_jxx.Jxx.Class.{JxxClass, function}
use chakra_jxx.Jxx.Evaluate.{call}
use chakra_jxx.Jxx.ExtObject.{World, hold, drop_ref, try_get_as, create, as_new}

abbrev pub error_asio_error : ℤ
error_asio_error = negsuc 4

-- A read or a write that asio has to end, with what its callback has captured.
pub data Operation : Type 0 where
  -- The socket, the buffer, and its content.
  reading : JsValueRef → JsValueRef → Content → Operation
  -- And the size of the buffer.
  reading_on : JsValueRef → JsValueRef → Content → JsValueRef → Operation
  writing : JsValueRef → JsValueRef → Content → Operation

-- An accept: the acceptor, and the object that it stands for.
pub record Accept : Type 0 where
  pub acceptor : JsValueRef
  pub object : ℕ

pub record Net (E P S : Type 0) : Type 0 where
  pub host : Host E P
  pub sockets : S
  pub pending : List Operation
  pub accepts : List Accept

-- The calls of asio on sockets and acceptors, by the address of their object.
pub record Asio (S : Type 0) : Type 0 where
  pub is_open : S → ℕ → Bool
  -- The socket of a new connection moves into an object.
  pub adopt : ℕ → S → S
  -- The error code.
  pub open_socket : S → ℕ → ℕ → ℕ × S
  pub listen : ℕ → Exec S (Unit {0})
  pub resolve : String → String → Exec S ℕ
  pub open_acceptor : ℕ → ℕ → Exec S (Unit {0})
  pub reuse_address : ℕ → Exec S (Unit {0})
  pub bind : ℕ → ℕ → Exec S (Unit {0})

-- `!ec`.
abbrev pub no_error : ℤ → Bool
no_error (pos n) = n == 0
no_error (negsuc n) = false

module _ {E P S : Type 0} where
  abbrev pub world_of : Net E P S → World E
  world_of s = record { engine = s.host.engine; objects = s.host.objects }

  abbrev pub put_world : World E → Net E P S → Net E P S
  put_world w s = record s { host = record s.host { engine = w.engine; objects = w.objects } }

module _ {E P S : Type 0} (js : Jsrt E) where
  abbrev pub on_engine : {A : Type 0} → Exec E A → Exec (Net E P S) A
  on_engine m s =
      let (o, e') = m s.host.engine in (o, record s { host = record s.host { engine = e' } })

  abbrev pub on_host : {A : Type 0} → Exec (Host E P) A → Exec (Net E P S) A
  on_host m s = let (o, h') = m s.host in (o, record s { host = h' })

  abbrev pub on_sockets : {A : Type 0} → Exec S A → Exec (Net E P S) A
  on_sockets m s = let (o, t') = m s.sockets in (o, record s { sockets = t' })

  -- `AddRef` and `Release` of the value in a `Durable`.
  abbrev pub hold_value : JsValueRef → Net E P S → Net E P S
  hold_value v s = record s {
    host = record s.host { engine = (Durable.add_ref js s.host.engine v).1 };
  }

  abbrev pub drop_value : JsValueRef → Net E P S → Net E P S
  drop_value v s = record s {
    host = record s.host { engine = (Durable.release js s.host.engine v).1 };
  }

  -- A block that ends with a release of `v`, whether it returns or throws.
  abbrev pub releasing : {A : Type 0} → JsValueRef → Exec (Net E P S) A → Exec (Net E P S) A
  releasing v m s = let (o, s') = m s in (o, drop_value v s')

  -- The life of a `Durable` that is made from `v`.
  abbrev pub durable : {A : Type 0} → JsValueRef → Exec (Net E P S) A → Exec (Net E P S) A
  durable v m s = releasing v m (hold_value v s)

  -- The life of a `JxxObjectPtr` that holds the object `x`.
  abbrev pub holding : {A : Type 0} → ℕ → Exec (Net E P S) A → Exec (Net E P S) A
  holding x m s =
      let (o, s') = m (put_world (hold js x (world_of s)) s) in
      (o, put_world (drop_ref js x (world_of s')) s')

  -- `Just(b)`, as an `_as_the<_Boolean>`.
  abbrev pub answer : Bool → Exec (Net E P S) JsValueRef
  answer b = do
    v ← on_engine (just_boolean js b)
    on_engine (λ e. (as_the js e (Mask.boolean js.types) v, e))

  -- A value, as an `_as_the<_Object>`.
  abbrev pub as_object : JsValueRef → Exec (Net E P S) JsValueRef
  as_object v = on_engine (λ e. (as_the js e (Mask.object js.types) v, e))

  -- The constructor of `ExtObject`.
  abbrev pub ext_object : JsValueRef → Exec (Net E P S) JsValueRef
  ext_object v = on_engine (λ e. (base_value js e (Mask.object js.types) true v, e))

  -- `ExtObject::Create` of an object, which is no null pointer.
  abbrev pub create_object : ℕ → Exec (Net E P S) JsValueRef
  create_object x s = elim (create js x nullptr (world_of s)) [
    | none ↦ (returned nullptr, s)
    | some (out, w') ↦ (returned out, put_world w' s)
  ]

  -- `current_io_context`.
  unfoldable pub current_io_context : Exec (Net E P S) (Unit {0})
  unfolding get_current_runtime
  current_io_context s =
      throw_if (pos js.error_invalid_context) (get_current_runtime js s.host.engine == 0) s
