-- ===== src/Jxx/ValueCache/Interning.antt =====
-- A text has one value: what a call made is what every later call answers with.
use chakra_jxx.Base.{String, ◌≡◌, ◌≢◌, false, some, if◌then◌else◌, arith, returned, string_eq}
use chakra_jxx.Base.Dict
use chakra_jxx.Js.Jsrt.{Jsrt, JsValueRef, nullptr}
use chakra_jxx.Jxx.ValueCache.{ValueCache, get_string, get_proto, put_proto}

module _ {E : Type 0} (js : Jsrt E) where
  get_string_found :
      (s : ValueCache E) (text : String) (v : JsValueRef)
      → Dict.find text s.strings ≡ some v
      → get_string js text s ≡ (returned v, s)
  unfolding get_string
  get_string_found s text v found = ground (arith, found)

  get_string_listed :
      (s : ValueCache E) (text : String) (v : JsValueRef)
      → (get_string js text s).0 ≡ returned v
      → v ≢ nullptr
      → Dict.find text (get_string js text s).1.strings ≡ some v
  unfolding get_string
  get_string_listed s text v done n =
      grind (
        arith,
        Dict.find-insert_self {K = String} {V = JsValueRef} ⦃e = string_eq⦄ text v s.strings,
      )

  get_string_others :
      (s : ValueCache E) (text other : String)
      → string_eq.beq text other ≡ false
      → Dict.find other (get_string js text s).1.strings ≡ Dict.find other s.strings
  unfolding get_string
  get_string_others s text other apart =
      grind (arith, Dict.find-insert {K = String} {V = JsValueRef} ⦃e = string_eq⦄ text other)

  -- A string that a call answered with, and that is not null, is in the map from then on: the next
  -- call for the text answers with the same, and neither the engine nor a map changes. What the map
  -- had for other texts it still has.
  pub get_string_twice :
      (s : ValueCache E) (text : String) (v : JsValueRef)
      → (get_string js text s).0 ≡ returned v
      → v ≢ nullptr
      → let s' = (get_string js text s).1 in
        (get_string js text s' ≡ (returned v, s'))
        × ((other : String)
            → string_eq.beq text other ≡ false
            → Dict.find other s'.strings ≡ Dict.find other s.strings)
  get_string_twice s text v done n = (
    get_string_found (get_string js text s).1 text v (get_string_listed s text v done n),
    get_string_others s text,
  )

  -- What `put_proto` is given under a name is what `get_proto` answers for it, null included, and
  -- every other name keeps its prototype.
  get_proto-put_proto :
      (s : ValueCache E) (name other : String) (proto : JsValueRef)
      → get_proto js other (put_proto js name proto s)
        ≡ (if string_eq.beq name other then proto else get_proto js other s)
  unfolding get_proto put_proto
  get_proto-put_proto s name other proto =
      ground
        (arith, Dict.find-insert name other proto s.protos, Dict.find-erase name other s.protos)
