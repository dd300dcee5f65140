-- ===== src/Js/ArrayBuffer/Released.antt =====
-- What is left of the memory of array buffers of texts, after any calls and any collections.
use chakra_jxx.Base.{
  ℕ, ◌+◌, ◌≡◌, refl, arith, List, [], ◌∷◌, Option, none, some, get_elem?, Option-cases, inl, inr,
  ap, ◌∙◌,
}
use chakra_jxx.Base.Holders.{holders}
use chakra_jxx.Js.Jsrt.{Jsrt}
use chakra_jxx.Js.ArrayBuffer.Heap.{
  Memory, drop_at, create_from_string, collect_delete, free_all, delete_all, dispose,
}
use chakra_jxx.Js.ArrayBuffer.Owned.{
  IsOwned, Fresh, MakesBuffers, holders-drop_at, delete_text-IsOwned, create_from_string-IsOwned,
}

-- A call of `CreateFrom(String)`, or a collection.
pub data Request : Type 0 where
  creates : (bytes : List ℕ) → Request
  collects : (place : ℕ) → Request

module _ {E : Type 0} (js : Jsrt E) (new_ : List ℕ → ℕ) where
  abbrev forget : {A : Type 0} → Option (A × Memory E) → Option (Memory E)
  forget none = none
  forget (some (a, m)) = some m

  unfoldable pub after : Request → Memory E → Option (Memory E)
  after (creates bytes) m = forget (create_from_string js new_ bytes m)
  after (collects place) m = collect_delete place m

  unfoldable pub afters : List Request → Memory E → Option (Memory E)
  unfolding after
  afters [] m = some m
  afters (r ∷ rs) m = elim (after r m) [ none ↦ none | some m' ↦ afters rs m' ]

  -- The requests, and then the end of the engine.
  unfoldable pub whole_life : List Request → Memory E → Option (Memory E)
  unfolding afters dispose
  whole_life rs m = elim (afters rs m) [ none ↦ none | some m' ↦ dispose m' ]

module _ {E : Type 0} (others : ℕ → ℕ) (mallocs arrays : List ℕ) where
  collect-IsOwned :
      (i : ℕ) (m : Memory E)
      → IsOwned others mallocs arrays m
      → (m' : Memory E) × (collect_delete i m ≡ some m') × IsOwned others mallocs arrays m'
  unfolding collect_delete
  collect-IsOwned i m o = elim (Option-cases (get_elem? m.deletes i)) [
    | inl nothing ↦ (m, rw (nothing, collect_delete), o)
    | inr (p, found) ↦
        let (m', deleted, o', same) =
          delete_text-IsOwned others mallocs arrays p (record m { deletes = drop_at i m.deletes })
            (record {
              owned = λ v. omega (arith, o.owned v, holders-drop_at v p i m.deletes found);
              once = o.once;
              same_mallocs = o.same_mallocs;
              same_arrays = o.same_arrays;
              no_frees = o.no_frees;
            }) in
        (m', rw (found, collect_delete, deleted), o')
  ]

  delete_all-IsOwned :
      (cookies : List ℕ) (m : Memory E)
      → m.deletes ≡ []
      → IsOwned (λ v. others v + holders v cookies) mallocs arrays m
      → (m' : Memory E) × (delete_all cookies m ≡ some m')
        × IsOwned others mallocs arrays m'
        × (m'.deletes ≡ [])
  unfolding delete_all holders
  delete_all-IsOwned [] m none_left o = (
    m,
    refl,
    record {
      owned = λ v. omega (arith, o.owned v);
      once = o.once;
      same_mallocs = o.same_mallocs;
      same_arrays = o.same_arrays;
      no_frees = o.no_frees;
    },
    none_left,
  )
  delete_all-IsOwned (p ∷ ps) m none_left o =
      let (m1, deleted, o1, same) =
        delete_text-IsOwned (λ v. others v + holders v ps) mallocs arrays p m
          (record {
            owned = λ v. omega (arith, o.owned v);
            once = o.once;
            same_mallocs = o.same_mallocs;
            same_arrays = o.same_arrays;
            no_frees = o.no_frees;
          }) in
      let (m', done, o', left) = delete_all-IsOwned ps m1 (same ∙ none_left) o1 in
      (m', rw (delete_all, deleted, done), o', left)

  dispose-texts :
      (m : Memory E)
      → IsOwned others mallocs arrays m
      → (m' : Memory E) × (dispose m ≡ some m')
        × ((p : ℕ) → holders p m'.texts ≡ others p)
        × (m'.mallocs ≡ mallocs)
        × (m'.arrays ≡ arrays)
  unfolding dispose holders free_all
  dispose-texts m o =
      let m0 = record m { frees = []; deletes = [] } in
      let (m', done, o', left) = delete_all-IsOwned m.deletes m0 refl (record {
        owned = λ v. omega (arith, o.owned v);
        once = o.once;
        same_mallocs = o.same_mallocs;
        same_arrays = o.same_arrays;
        no_frees = refl;
      }) in
      (
        m',
        rw (dispose, o.no_frees, free_all, done),
        λ p. omega (arith, o'.owned p, ap (holders p) left),
        o'.same_mallocs,
        o'.same_arrays,
      )

module _ {E : Type 0} (js : Jsrt E) (new_ : List ℕ → ℕ) (fresh : Fresh new_)
    (makes : MakesBuffers js) (others : ℕ → ℕ) (mallocs arrays : List ℕ) where
  after-IsOwned :
      (r : Request) (m : Memory E)
      → IsOwned others mallocs arrays m
      → (m' : Memory E) × (after js new_ r m ≡ some m') × IsOwned others mallocs arrays m'
  unfolding after
  after-IsOwned (creates bytes) m o =
      let ((answer, m'), made, o') =
        create_from_string-IsOwned js new_ fresh makes others mallocs arrays bytes m o in
      (m', rw made refl, o')
  after-IsOwned (collects place) m o = collect-IsOwned others mallocs arrays place m o

  afters-IsOwned :
      (rs : List Request) (m : Memory E)
      → IsOwned others mallocs arrays m
      → (m' : Memory E) × (afters js new_ rs m ≡ some m') × IsOwned others mallocs arrays m'
  unfolding afters
  afters-IsOwned [] m o = (m, refl, o)
  afters-IsOwned (r ∷ rs) m o =
      let (m1, done, o1) = after-IsOwned r m o in
      let (m', rest, o') = afters-IsOwned rs m1 o1 in (m', rw (afters, done, rest), o')

  -- Where `new` answers with free addresses, the engine makes a buffer or an error, each text has
  -- one owner before, and no buffer has the finalizer `free`: whatever buffers `CreateFrom(String)`
  -- makes or fails to make, a conversion that throws included, and whichever the engine collects in
  -- between, in any order, no text is deleted that is not allocated; and when the engine is
  -- disposed of, the texts that are left are those of others, and nothing else has been given back
  -- or allocated.
  pub whole_life-texts :
      (rs : List Request) (m : Memory E)
      → IsOwned others mallocs arrays m
      → (m' : Memory E) × (whole_life js new_ rs m ≡ some m')
        × ((p : ℕ) → holders p m'.texts ≡ others p)
        × (m'.mallocs ≡ mallocs)
        × (m'.arrays ≡ arrays)
  unfolding whole_life
  whole_life-texts rs m o =
      let (m1, done, o1) = afters-IsOwned rs m o in
      let (m', gone, left, same, same') = dispose-texts others mallocs arrays m1 o1 in
      (m', rw (whole_life, done, gone), left, same, same')
