-- ===== src/Jxx/ValueCache/Requests.antt =====
-- However the cache is asked, in any order, its values stay counted.
use chakra_jxx.Base.{
  string_eq, ℕ, String, ◌≡◌, refl, List, [], ◌∷◌, Option, none, some, ◌==◌, not, arith, Exec, ◌∙◌,
  returned,
}
use chakra_jxx.Base.Dict
use chakra_jxx.Base.Preserves.{Preserves, Safe, give, then_do, either_way}
use chakra_jxx.Js.Jsrt.{Jsrt, JsValueRef, nullptr}
use chakra_jxx.Js.Durable.Balance.{Counts}
use chakra_jxx.Js.Object
use chakra_jxx.Js.Primitive.{just_string}
use chakra_jxx.Jxx.Evaluate.{value}
use chakra_jxx.Jxx.ValueCache.{
  on_engine, cached, ValueCache, get_string, get_propid, put_proto, get_symbol, clear, put_string,
  put_symbol, put_propid, get_string_at, get_propid_at, get_symbol_at,
}
use chakra_jxx.Jxx.ValueCache.Counted.{
  Makes, IsCounted, put_string-Preserves, put_symbol-Preserves, put_propid-Preserves,
  put_proto-IsCounted, clear-IsCounted,
}

module _ {E : Type 0} (js : Jsrt E) (refs : E → JsValueRef → ℕ) (counts : Counts js refs)
    (others : JsValueRef → ℕ) (makes : Makes js refs) where
  -- A call of the engine that changes no count.
  quiet_call :
      {A : Type 0} (m : Exec E A)
      → ((e : E) (v : JsValueRef) → refs (m e).1 v ≡ refs e v)
      → Preserves (IsCounted refs others) (on_engine m)
  quiet_call m quiet s c = record {
    each_once = λ w n. quiet s.engine w ∙ c.each_once w n;
    strings_map = c.strings_map;
    protos_map = c.protos_map;
    symbols_map = c.symbols_map;
    propids_map = c.propids_map;
  }

  abbrev engine_call :
      {A : Type 0} (m : Exec E A)
      → ((e : E) (v : JsValueRef) → refs (m e).1 v ≡ refs e v)
      → Safe (IsCounted refs others) A
  engine_call m quiet = record { code = on_engine m; safe = quiet_call m quiet }

  made_string :
      (text : String) (e : E) (v : JsValueRef) → refs (just_string js text e).1 v ≡ refs e v
  unfolding just_string
  made_string text e v = grind (arith, makes.makes_string e text v)

  cached-Preserves :
      (found : Option JsValueRef) (make : Safe (IsCounted refs others) JsValueRef)
      → Preserves (IsCounted refs others) (cached js found make.code)
  cached-Preserves none make = make.safe
  cached-Preserves (some v) make = λ s c. c

  -- Either null is answered, or the value is put into a map first.
  abbrev unless_null :
      JsValueRef → Safe (IsCounted refs others) (Unit {0}) → Safe (IsCounted refs others) JsValueRef
  unless_null v put = then_do (IsCounted refs others) put (λ _. give (IsCounted refs others) v)

  abbrev fair_string : String → Safe (IsCounted refs others) JsValueRef
  unfolding value
  fair_string text =
      then_do (IsCounted refs others) (engine_call (just_string js text) (made_string text)) (λ v.
        then_do (IsCounted refs others) (engine_call (value js v) (λ e w. refl)) (λ str.
          either_way (IsCounted refs others) (str == nullptr) (give (IsCounted refs others) str) (
            unless_null str (record {
              code = put_string js text str;
              safe = put_string-Preserves js refs counts others text str;
            }))))

  get_string-Preserves : (text : String) → Preserves (IsCounted refs others) (get_string js text)
  unfolding get_string
  get_string-Preserves text s c = cached-Preserves (Dict.find text s.strings) (fair_string text) s c

  abbrev fair_propid : String → Safe (IsCounted refs others) JsValueRef
  unfolding Object.property_id
  fair_propid name =
      then_do (IsCounted refs others)
        (engine_call (λ e. let (v, e') = Object.property_id js e name in (returned v, e'))
          (λ e v. makes.makes_property_id e name v))
        (λ propid.
          either_way (IsCounted refs others) (propid == nullptr)
            (give (IsCounted refs others) propid)
            (unless_null propid (record {
              code = put_propid js name propid;
              safe = put_propid-Preserves js refs counts others name propid;
            })))

  get_propid-Preserves : (name : String) → Preserves (IsCounted refs others) (get_propid js name)
  unfolding get_propid
  get_propid-Preserves name s c = cached-Preserves (Dict.find name s.propids) (fair_propid name) s c

  abbrev new_symbol : JsValueRef → Exec E (ℕ × JsValueRef)
  new_symbol pstr e =
      let (err, symbol, e') = js.create_symbol e pstr in (returned (err, symbol), e')

  abbrev fair_symbol : String → Safe (IsCounted refs others) JsValueRef
  fair_symbol token =
      then_do (IsCounted refs others)
        (record { code = get_string js token; safe = get_string-Preserves token })
        (λ pstr.
          either_way (IsCounted refs others) (pstr == nullptr)
            (give (IsCounted refs others) nullptr)
            (then_do (IsCounted refs others)
              (engine_call (new_symbol pstr) (λ e v. makes.makes_symbol e pstr v))
              (λ made.
                either_way (IsCounted refs others) (not (made.0 == 0))
                  (give (IsCounted refs others) made.1)
                  (unless_null made.1 (record {
                    code = put_symbol js token made.1;
                    safe = put_symbol-Preserves js refs counts others token made.1;
                  })))))

  get_symbol-Preserves : (token : String) → Preserves (IsCounted refs others) (get_symbol js token)
  unfolding get_symbol
  get_symbol-Preserves token s c =
      cached-Preserves (Dict.find token s.symbols) (fair_symbol token) s c

-- What the program asks of the cache.
pub data Request : Type 0 where
  asks_string : String → Request
  asks_string_at : ℕ → ℕ → Request
  asks_propid : String → Request
  asks_propid_at : ℕ → Request
  asks_symbol : String → Request
  asks_symbol_at : ℕ → ℕ → Request
  puts_proto : String → JsValueRef → Request
  clears : Request

module _ {E : Type 0} (js : Jsrt E) (strlen : ℕ → ℕ) (string_at : ℕ → ℕ → String) where
  unfoldable pub after : Request → ValueCache E → ValueCache E
  unfolding get_string get_propid get_symbol put_proto clear
  after (asks_string text) s = (get_string js text s).1
  after (asks_string_at pstr len) s = (get_string_at js strlen string_at pstr len s).1
  after (asks_propid name) s = (get_propid js name s).1
  after (asks_propid_at pstr) s = (get_propid_at js strlen string_at pstr s).1
  after (asks_symbol token) s = (get_symbol js token s).1
  after (asks_symbol_at token len) s = (get_symbol_at js strlen string_at token len s).1
  after (puts_proto name proto) s = put_proto js name proto s
  after clears s = clear js s

  unfoldable pub afters : List Request → ValueCache E → ValueCache E
  unfolding after
  afters [] s = s
  afters (r ∷ rs) s = afters rs (after r s)

  module _ (refs : E → JsValueRef → ℕ) (counts : Counts js refs) (makes : Makes js refs)
      (others : JsValueRef → ℕ) where
    after-IsCounted :
        (r : Request) (s : ValueCache E)
        → IsCounted refs others s
        → IsCounted refs others (after r s)
    unfolding after get_string_at get_propid_at get_symbol_at
    after-IsCounted (asks_string text) s c =
        get_string-Preserves js refs counts others makes text s c
    after-IsCounted (asks_string_at pstr len) s c =
        get_string-Preserves js refs counts others makes _ s c
    after-IsCounted (asks_propid_at pstr) s c =
        get_string-Preserves js refs counts others makes _ s c
    after-IsCounted (asks_propid name) s c =
        get_propid-Preserves js refs counts others makes name s c
    after-IsCounted (asks_symbol token) s c =
        get_symbol-Preserves js refs counts others makes token s c
    after-IsCounted (asks_symbol_at token len) s c =
        get_symbol-Preserves js refs counts others makes _ s c
    after-IsCounted (puts_proto name proto) s c =
        put_proto-IsCounted js refs counts others name proto s c
    after-IsCounted clears s c = clear-IsCounted js refs counts others s c

    -- Where `JsAddRef` and `JsRelease` change a count by one and the making of strings, symbols and
    -- property identifiers changes none, every run of requests, in any order, failed ones included,
    -- keeps the engine's count of each value equal to the number of entries of the four maps that
    -- hold it and the references of others, and no map has a key twice.
    pub afters-IsCounted :
        (rs : List Request) (s : ValueCache E)
        → IsCounted refs others s
        → IsCounted refs others (afters rs s)
    unfolding afters
    afters-IsCounted [] s c = c
    afters-IsCounted (r ∷ rs) s c = afters-IsCounted rs (after r s) (after-IsCounted r s c)
