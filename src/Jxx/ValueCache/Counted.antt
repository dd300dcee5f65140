-- ===== src/Jxx/ValueCache/Counted.antt =====
-- What the maps hold counts as references, one for each entry.
use chakra_jxx.Base.{
  string_eq, ℕ, ◌+◌, ◌-◌, String, ◌≡◌, ◌≢◌, [], ◌∷◌, Option, none, some, ◌==◌, arith,
}
use chakra_jxx.Base.Dict
use chakra_jxx.Base.Dict.{Dict}
use chakra_jxx.Base.Holders.{one_if}
use chakra_jxx.Base.Preserves.{Preserves, if-holds}
use chakra_jxx.Js.Jsrt.{Jsrt, JsValueRef, nullptr}
use chakra_jxx.Js.Durable
use chakra_jxx.Js.Durable.Balance.{Counts}
use chakra_jxx.Jxx.Tcp.Handles.{hold-refs, drop-refs}
use chakra_jxx.Jxx.ValueCache.{
  ValueCache, put_proto, clear, drop_old, counted, drop_all, put_string, put_symbol, put_propid,
}
use chakra_jxx.Jxx.ValueCache.Entries.{
  entries, IsMap, entry, entries-insert, entries-erase, insert-IsMap, erase-IsMap,
}

-- What makes the values changes no count.
pub record Makes {E : Type 0} (js : Jsrt E) (refs : E → JsValueRef → ℕ) : Type 0 where
  pub makes_string :
      (e : E) (text : String) (v : JsValueRef) → refs (js.create_string e text).2 v ≡ refs e v
  pub makes_property_id :
      (e : E) (name : String) (v : JsValueRef) → refs (js.create_property_id e name).2 v ≡ refs e v
  pub makes_symbol : (e : E) (text v : JsValueRef) → refs (js.create_symbol e text).2 v ≡ refs e v

-- `others` counts the references that belong to somebody else.
pub record IsCounted {E : Type 0} (refs : E → JsValueRef → ℕ) (others : JsValueRef → ℕ)
    (s : ValueCache E) : Type 0 where
  pub each_once :
      (v : JsValueRef)
      → v ≢ nullptr
      → refs s.engine v
        ≡ others v
          + entries v s.strings
          + entries v s.protos
          + entries v s.symbols
          + entries v s.propids
  pub strings_map : IsMap s.strings
  pub protos_map : IsMap s.protos
  pub symbols_map : IsMap s.symbols
  pub propids_map : IsMap s.propids

module _ {E : Type 0} (js : Jsrt E) (refs : E → JsValueRef → ℕ) (counts : Counts js refs) where
  drop_old-refs :
      (old : Option JsValueRef) (e : E) (w : JsValueRef)
      → w ≢ nullptr
      → refs (drop_old js old e) w ≡ refs e w - entry w old
  drop_old-refs none e w n = omega arith
  drop_old-refs (some v) e w n = drop-refs js refs counts e v w n

  counted-refs :
      (old : Option JsValueRef) (v : JsValueRef) (e : E) (w : JsValueRef)
      → w ≢ nullptr
      → refs (counted js old v e) w ≡ refs e w + one_if w v - entry w old
  counted-refs old v e w n =
      omega
        (arith, drop_old-refs old (Durable.add_ref js e v).1 w n, hold-refs js refs counts e v w n)

  drop_all-refs :
      (m : Dict String JsValueRef) (e : E) (w : JsValueRef)
      → w ≢ nullptr
      → refs (drop_all js m e) w ≡ refs e w - entries w m
  unfolding entries
  drop_all-refs [] e w n = omega arith
  drop_all-refs ((key, v) ∷ m) e w n =
      omega (arith, drop_all-refs m (drop_old js (some v) e) w n, drop-refs js refs counts e v w n)

  module _ (others : JsValueRef → ℕ) where
    pub put_string-Preserves :
        (text : String) (v : JsValueRef) → Preserves (IsCounted refs others) (put_string js text v)
    put_string-Preserves text v s c = record {
      each_once = λ w n. omega (
        arith,
        c.each_once w n,
        counted-refs (Dict.find text s.strings) v s.engine w n,
        entries-insert w text v s.strings,
      );
      strings_map = insert-IsMap text v s.strings c.strings_map;
      protos_map = c.protos_map;
      symbols_map = c.symbols_map;
      propids_map = c.propids_map;
    }

    pub put_symbol-Preserves :
        (text : String) (v : JsValueRef) → Preserves (IsCounted refs others) (put_symbol js text v)
    put_symbol-Preserves text v s c = record {
      each_once = λ w n. omega (
        arith,
        c.each_once w n,
        counted-refs (Dict.find text s.symbols) v s.engine w n,
        entries-insert w text v s.symbols,
      );
      strings_map = c.strings_map;
      protos_map = c.protos_map;
      symbols_map = insert-IsMap text v s.symbols c.symbols_map;
      propids_map = c.propids_map;
    }

    pub put_propid-Preserves :
        (text : String) (v : JsValueRef) → Preserves (IsCounted refs others) (put_propid js text v)
    put_propid-Preserves text v s c = record {
      each_once = λ w n. omega (
        arith,
        c.each_once w n,
        counted-refs (Dict.find text s.propids) v s.engine w n,
        entries-insert w text v s.propids,
      );
      strings_map = c.strings_map;
      protos_map = c.protos_map;
      symbols_map = c.symbols_map;
      propids_map = insert-IsMap text v s.propids c.propids_map;
    }

    pub put_proto-IsCounted :
        (name : String) (v : JsValueRef) (s : ValueCache E)
        → IsCounted refs others s
        → IsCounted refs others (put_proto js name v s)
    unfolding put_proto
    put_proto-IsCounted name v s c =
        if-holds (IsCounted refs others) (v == nullptr) _ _
          (record {
            each_once = λ w n. omega (
              arith,
              c.each_once w n,
              drop_old-refs (Dict.find name s.protos) s.engine w n,
              entries-erase w name s.protos c.protos_map,
            );
            strings_map = c.strings_map;
            protos_map = erase-IsMap name s.protos c.protos_map;
            symbols_map = c.symbols_map;
            propids_map = c.propids_map;
          })
          (record {
            each_once = λ w n. omega (
              arith,
              c.each_once w n,
              counted-refs (Dict.find name s.protos) v s.engine w n,
              entries-insert w name v s.protos,
            );
            strings_map = c.strings_map;
            protos_map = insert-IsMap name v s.protos c.protos_map;
            symbols_map = c.symbols_map;
            propids_map = c.propids_map;
          })

    pub clear-IsCounted :
        (s : ValueCache E) → IsCounted refs others s → IsCounted refs others (clear js s)
    unfolding clear entries IsMap
    clear-IsCounted s c = record {
      each_once = λ w n. omega (
        arith,
        c.each_once w n,
        drop_all-refs s.strings s.engine w n,
        drop_all-refs s.protos (drop_all js s.strings s.engine) w n,
        drop_all-refs s.symbols (drop_all js s.protos (drop_all js s.strings s.engine)) w n,
      );
      strings_map = tt;
      protos_map = tt;
      symbols_map = tt;
      propids_map = c.propids_map;
    }
