-- ===== src/Jxx/ValueCache.antt =====
-- jxx.cc.h: `ValueCache`, the strings, prototypes, symbols and property identifiers that a runtime
-- keeps by their text.
pub mod Counted
pub mod Entries
pub mod Interning
pub mod Requests
use chakra_jxx.Base.{
  string_eq, ℕ, String, List, [], ◌∷◌, Option, none, some, ◌==◌, not, if◌then◌else◌, returned, Exec,
  ◌>>=◌, ◌>>◌, pure,
}
use chakra_jxx.Base.Dict
use chakra_jxx.Base.Dict.{Dict}
use chakra_jxx.Js.Jsrt.{Jsrt, JsValueRef, nullptr}
use chakra_jxx.Js.Durable
use chakra_jxx.Js.Object
use chakra_jxx.Js.Primitive.{just_string}
use chakra_jxx.Jxx.Evaluate.{value}

-- The engine, and the maps. Each value in a map counts as a reference.
pub record ValueCache (E : Type 0) : Type 0 where
  pub engine : E
  pub strings : Dict String JsValueRef
  pub protos : Dict String JsValueRef
  pub symbols : Dict String JsValueRef
  pub propids : Dict String JsValueRef

abbrev pub on_engine : {E A : Type 0} → Exec E A → Exec (ValueCache E) A
on_engine m s = let (o, e') = m s.engine in (o, record s { engine = e' })

module _ {E : Type 0} (js : Jsrt E) where
  -- What a handle held before no longer counts.
  abbrev pub drop_old : Option JsValueRef → E → E
  drop_old none e = e
  drop_old (some old) e = (Durable.release js e old).1

  -- The counts at `map[key] = v`.
  abbrev pub counted : Option JsValueRef → JsValueRef → E → E
  counted old v e = drop_old old (Durable.add_ref js e v).1

  abbrev pub drop_all : Dict String JsValueRef → E → E
  drop_all [] e = e
  drop_all ((key, v) ∷ m) e = drop_all m (drop_old (some v) e)

  abbrev pub put_string : String → JsValueRef → Exec (ValueCache E) (Unit {0})
  put_string key v s = (
    returned tt,
    record s {
      engine = counted (Dict.find key s.strings) v s.engine;
      strings = Dict.insert key v s.strings;
    },
  )

  abbrev pub put_symbol : String → JsValueRef → Exec (ValueCache E) (Unit {0})
  put_symbol key v s = (
    returned tt,
    record s {
      engine = counted (Dict.find key s.symbols) v s.engine;
      symbols = Dict.insert key v s.symbols;
    },
  )

  abbrev pub put_propid : String → JsValueRef → Exec (ValueCache E) (Unit {0})
  put_propid key v s = (
    returned tt,
    record s {
      engine = counted (Dict.find key s.propids) v s.engine;
      propids = Dict.insert key v s.propids;
    },
  )

  -- What is in a map, or else what makes it.
  abbrev pub cached :
      Option JsValueRef → Exec (ValueCache E) JsValueRef → Exec (ValueCache E) JsValueRef
  cached none make = make
  cached (some v) make = pure v

  unfoldable pub get_string : String → Exec (ValueCache E) JsValueRef
  unfolding just_string value Durable.add_ref Durable.release
  get_string pstr s =
      cached (Dict.find pstr s.strings)
        (do
          text ← on_engine (just_string js pstr)
          js_str ← on_engine (value js text)
          if js_str == nullptr then pure js_str else do put_string pstr js_str; pure js_str)
        s

  unfoldable pub get_propid : String → Exec (ValueCache E) JsValueRef
  unfolding Object.property_id Durable.add_ref Durable.release
  get_propid pstr s =
      cached (Dict.find pstr s.propids)
        (do
          propid ← on_engine (λ e. let (v, e') = Object.property_id js e pstr in (returned v, e'))
          if propid == nullptr then pure propid else do put_propid pstr propid; pure propid)
        s

  -- A default `Object` is null.
  unfoldable pub get_proto : String → ValueCache E → JsValueRef
  get_proto pstr s = elim (Dict.find pstr s.protos) [ none ↦ nullptr | some v ↦ v ]

  unfoldable pub put_proto : String → JsValueRef → ValueCache E → ValueCache E
  unfolding Durable.add_ref Durable.release
  put_proto pstr proto s =
      if proto == nullptr
      then record s {
        engine = drop_old (Dict.find pstr s.protos) s.engine;
        protos = Dict.erase pstr s.protos;
      }
      else record s {
        engine = counted (Dict.find pstr s.protos) proto s.engine;
        protos = Dict.insert pstr proto s.protos;
      }

  unfoldable pub get_symbol : String → Exec (ValueCache E) JsValueRef
  unfolding get_string
  get_symbol token s =
      cached (Dict.find token s.symbols)
        (do
          pstr ← get_string token
          if pstr == nullptr then pure nullptr else do
            made ← (λ s.
                let (err, symbol, e') = js.create_symbol s.engine pstr in
                (returned (err, symbol), record s { engine = e' }))
            let (err, symbol) = made in
                if not (err == 0) then pure symbol else do put_symbol token symbol; pure symbol)
        s

  -- The overloads that take a pointer: `strlen` and the bytes at a pointer are the C library's.
  module _ (strlen : ℕ → ℕ) (string_at : ℕ → ℕ → String) where
    unfoldable pub get_string_at : ℕ → ℕ → Exec (ValueCache E) JsValueRef
    unfolding get_string
    get_string_at pstr len =
        let len' = if len == 0 then strlen pstr else len in get_string (string_at pstr len')

    -- It answers with the string.
    unfoldable pub get_propid_at : ℕ → Exec (ValueCache E) JsValueRef
    unfolding get_string
    get_propid_at pstr = get_string (string_at pstr (strlen pstr))

    unfoldable pub get_symbol_at : ℕ → ℕ → Exec (ValueCache E) JsValueRef
    unfolding get_symbol
    get_symbol_at token len =
        let len' = if not (len == 0) then len else strlen token in get_symbol (string_at token len')

  -- The property identifiers stay.
  unfoldable pub clear : ValueCache E → ValueCache E
  unfolding Durable.release
  clear s = record s {
    engine = drop_all s.symbols (drop_all s.protos (drop_all s.strings s.engine));
    strings = [];
    protos = [];
    symbols = [];
  }
