-- ===== src/Jxx/Class/Query.antt =====
-- Which classes `QueryClass` finds in an object, and what it answers with.
use chakra_jxx.Base.{
  ℕ, suc, zero, ◌≡◌, ◌≢◌, refl, ap, Bool, true, false, ◌∙◌, List, [], ◌∷◌, ◌++◌, Option, none, some,
  ◌==◌, arith, if◌then◌else◌, All, ◌+◌,
}
use chakra_jxx.Jxx.Class.{
  Export, JxxClass, jxx_class, Parents, no_parents, parent, query_class, query_parents,
}

abbrev pub class_id : JxxClass → ℕ
class_id (jxx_class id methods functions ps) = id

abbrev mutual
  -- The part of an object at the end of a way.
  pub part_at : JxxClass → List ℕ → Option JxxClass
  part_at c [] = some c
  part_at (jxx_class id methods functions ps) (i ∷ path) = part_of_parents ps i path

  pub part_of_parents : Parents → ℕ → List ℕ → Option JxxClass
  part_of_parents no_parents i path = none
  part_of_parents (parent c ps) zero path = part_at c path
  part_of_parents (parent c ps) (suc i) path = part_of_parents ps i path

abbrev mutual
  -- The classes of an object: its own, and those of its parents.
  pub ancestors : JxxClass → List ℕ
  ancestors (jxx_class id methods functions ps) = id ∷ ancestors_of_parents ps

  pub ancestors_of_parents : Parents → List ℕ
  ancestors_of_parents no_parents = []
  ancestors_of_parents (parent c ps) = ancestors c ++ ancestors_of_parents ps

-- What an answer of `QueryClass` says.
abbrev pub Answers : JxxClass → ℕ → Option (List ℕ) → Type 0
Answers c clsid none = All (λ id. id ≢ clsid) (ancestors c)
Answers c clsid (some path) = (d : JxxClass) × (part_at c path ≡ some d) × (class_id d ≡ clsid)

-- What an answer of the loop over the parents says, from parent `i` on.
abbrev AnswersOf : Parents → ℕ → ℕ → Option (List ℕ) → Type 0
AnswersOf ps i clsid none = All (λ id. id ≢ clsid) (ancestors_of_parents ps)
AnswersOf ps i clsid (some path) =
    (k : ℕ) × (rest : List ℕ) × (d : JxxClass) × (path ≡ (i + k) ∷ rest)
    × (part_of_parents ps k rest ≡ some d)
    × (class_id d ≡ clsid)

All-append {ℓ} :
    {A : Type ℓ} (P : A → Type ℓ) (xs ys : List A) → All P xs → All P ys → All P (xs ++ ys)
All-append P [] ys h k = k
All-append P (x ∷ xs) ys h k = (h.0, All-append P xs ys h.1 k)

module _ (clsid : ℕ) where
  AnswersOf-parent :
      (c : JxxClass) (ps : Parents) (i : ℕ) (o later : Option (List ℕ))
      → Answers c clsid o
      → AnswersOf ps (suc i) clsid later
      → AnswersOf (parent c ps) i clsid (elim o [ none ↦ later | some path ↦ some (i ∷ path) ])
  AnswersOf-parent c ps i none none h k = All-append _ (ancestors c) (ancestors_of_parents ps) h k
  AnswersOf-parent c ps i none (some path) h (n, rest, d, e, at, id) =
      (suc n, rest, d, e ∙ ap (λ (m : ℕ). m ∷ rest) (omega arith), at, id)
  AnswersOf-parent c ps i (some path) later (d, at, id) k =
      (0, path, d, ap (λ (m : ℕ). m ∷ path) (omega arith), at, id)

  Answers-jxx_class :
      (id : ℕ) (methods functions : List Export) (ps : Parents) (o : Option (List ℕ)) (same : Bool)
      → (id == clsid) ≡ same
      → AnswersOf ps 0 clsid o
      → Answers (jxx_class id methods functions ps) clsid (if same then some [] else o)
  Answers-jxx_class id methods functions ps o true e h =
      (jxx_class id methods functions ps, refl, ground (arith, e))
  Answers-jxx_class id methods functions ps none false e h = ((λ eq. ground (arith, e, eq)), h)
  Answers-jxx_class id methods functions ps (some path) false e (k, rest, d, way, at, found) =
      let from_zero : 0 + k ≡ k = omega arith in
      (
        d,
        ap (part_at (jxx_class id methods functions ps)) (way ∙ ap (λ (m : ℕ). m ∷ rest) from_zero)
            ∙ at,
        found,
      )

  mutual
    unfolding query_class

    query_class-Answers_of : (c : JxxClass) → Answers c clsid (query_class c clsid)
    query_class-Answers_of (jxx_class id methods functions ps) =
        Answers-jxx_class id methods functions ps (query_parents ps 0 clsid) (id == clsid) refl
          (query_parents-AnswersOf ps 0)

    query_parents-AnswersOf :
        (ps : Parents) (i : ℕ) → AnswersOf ps i clsid (query_parents ps i clsid)
    query_parents-AnswersOf no_parents i = tt
    query_parents-AnswersOf (parent c ps) i =
        AnswersOf-parent c ps i (query_class c clsid) (query_parents ps (suc i) clsid)
          (query_class-Answers_of c) (query_parents-AnswersOf ps (suc i))

-- `QueryClass` answers null exactly of a class that neither the object nor any of its parents, at
-- whatever depth, has; else it answers with a part of the object that has the class.
pub query_class-Answers : (c : JxxClass) (clsid : ℕ) → Answers c clsid (query_class c clsid)
query_class-Answers c clsid = query_class-Answers_of clsid c
