-- ===== src/Jxx/ValueCache/Entries.antt =====
-- The maps as they are counted: an entry is a reference to its value.
use chakra_jxx.Base.{
  string_eq, ℕ, ◌+◌, String, ◌≡◌, refl, [], ◌∷◌, Option, none, some, arith, inl, inr, subst,
  Bool-cases,
}
use chakra_jxx.Base.Dict
use chakra_jxx.Base.Dict.{Dict}
use chakra_jxx.Base.Holders.{one_if}
use chakra_jxx.Js.Jsrt.{JsValueRef}

-- How many entries of a map hold `v`.
unfoldable pub entries : ℕ → Dict String JsValueRef → ℕ
entries v [] = 0
entries v ((key, w) ∷ m) = one_if v w + entries v m

-- No key stands twice.
unfoldable pub IsMap : Dict String JsValueRef → Type 0
IsMap [] = Unit
IsMap ((key, w) ∷ m) = (Dict.find key m ≡ none) × IsMap m

abbrev pub entry : ℕ → Option JsValueRef → ℕ
entry v none = 0
entry v (some w) = one_if v w

pub entries-insert :
    (v : ℕ) (key : String) (w : JsValueRef) (m : Dict String JsValueRef)
    → entries v (Dict.insert key w m) + entry v (Dict.find key m) ≡ entries v m + one_if v w
unfolding entries Dict.insert Dict.find
entries-insert v key w [] = omega arith
entries-insert v key w ((j, u) ∷ m) = ground (arith, entries-insert v key w m)

erase-none :
    (key : String) (m : Dict String JsValueRef) → Dict.find key m ≡ none → Dict.erase key m ≡ m
unfolding Dict.erase Dict.find
erase-none key [] h = refl
erase-none key ((j, u) ∷ m) h = ground (arith, erase-none key m)

pub entries-erase :
    (v : ℕ) (key : String) (m : Dict String JsValueRef)
    → IsMap m
    → entries v (Dict.erase key m) + entry v (Dict.find key m) ≡ entries v m
unfolding entries Dict.erase Dict.find IsMap
entries-erase v key [] unique = refl
entries-erase v key ((j, u) ∷ m) unique =
    ground
      (arith, string_eq.beq_iff j key, erase-none key m, unique.0, entries-erase v key m unique.1)

pub insert-IsMap :
    (key : String) (w : JsValueRef) (m : Dict String JsValueRef)
    → IsMap m
    → IsMap (Dict.insert key w m)
unfolding IsMap Dict.insert Dict.find
insert-IsMap key w [] unique = (refl, tt)
insert-IsMap key w ((j, u) ∷ m) unique = elim (Bool-cases (string_eq.beq j key)) [
  | inl same ↦
      let same-key = (string_eq.beq_iff j key).0 same in
      rw same (subst (λ x. (Dict.find x m ≡ none) × IsMap m) same-key unique)
  | inr other ↦ rw other (
    ground (
      arith,
      string_eq.beq_iff j key,
      string_eq.beq_iff key j,
      Dict.find-insert key j w m,
      unique.0,
      other,
    ),
    insert-IsMap key w m unique.1,
  )
]

pub erase-IsMap : (key : String) (m : Dict String JsValueRef) → IsMap m → IsMap (Dict.erase key m)
unfolding IsMap Dict.erase
erase-IsMap key [] unique = tt
erase-IsMap key ((j, u) ∷ m) unique = elim (Bool-cases (string_eq.beq j key)) [
  | inl same ↦ rw same (erase-IsMap key m unique.1)
  | inr other ↦ rw other (
    ground (
      arith,
      string_eq.beq_iff j key,
      string_eq.beq_iff key j,
      Dict.find-erase key j m,
      unique.0,
      other,
    ),
    erase-IsMap key m unique.1,
  )
]
