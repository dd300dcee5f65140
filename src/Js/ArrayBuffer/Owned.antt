-- ===== src/Js/ArrayBuffer/Owned.antt =====
-- Every text that array buffers use is given back exactly once, and what becomes of the arrays that
-- they use.
use chakra_jxx.Base.{
  ℕ, zero, suc, ◌↔◌, inl, inr, Bool-cases, ◌+◌, ◌%◌, ◌^◌, ◌<◌, ◌≤◌, ◌≡◌, ◌≢◌, refl, arith, List, [],
  ◌∷◌, ◌++◌, none, some, ◌==◌, if◌then◌else◌, length, take, get_elem?, Outcome,
}
use chakra_jxx.Base.Holders.{holders, one_if}
use chakra_jxx.Js.Jsrt.{Jsrt, JsValueRef, nullptr}
use chakra_jxx.Js.ArrayBuffer.Heap.{
  Memory, drop_one, drop_at, blocks, free, delete_text, as_buffer, external_free, external_delete,
  unless_made_delete, create_from_block, create_from_string, create_from_const_view, collect_free,
}

-- A text is of somebody else, or of one external buffer, whose finalizer deletes it. No buffer has
-- the finalizer `free`, and what else is allocated is as it was.
pub record IsOwned {E : Type 0} (others : ℕ → ℕ) (mallocs arrays : List ℕ) (m : Memory E)
    : Type 0 where
  pub owned : (p : ℕ) → holders p m.texts ≡ others p + holders p m.deletes
  pub once : (p : ℕ) → holders p m.texts ≤ 1
  pub same_mallocs : m.mallocs ≡ mallocs
  pub same_arrays : m.arrays ≡ arrays
  pub no_frees : m.frees ≡ []

holders-drop_one :
    (v p : ℕ) (ps : List ℕ)
    → 0 < holders p ps
    → holders v (drop_one p ps) + one_if v p ≡ holders v ps
unfolding holders
holders-drop_one v p [] h = absurd (omega arith)
holders-drop_one v p (q ∷ qs) h = ground (arith, holders-drop_one v p qs)

pub holders-drop_at :
    (v p i : ℕ) (ps : List ℕ)
    → get_elem? ps i ≡ some p
    → holders v (drop_at i ps) + one_if v p ≡ holders v ps
unfolding holders
holders-drop_at v p i [] h = absurd (ground arith)
holders-drop_at v p zero (q ∷ qs) h = ground arith
holders-drop_at v p (suc i) (q ∷ qs) h = ground (arith, holders-drop_at v p i qs h)

holders-append : (v : ℕ) (ps qs : List ℕ) → holders v (ps ++ qs) ≡ holders v ps + holders v qs
unfolding holders
holders-append v [] qs = omega arith
holders-append v (p ∷ ps) qs = ground (arith, holders-append v ps qs)

-- `new` answers with an address where nothing is allocated.
abbrev pub Fresh : (List ℕ → ℕ) → Type 0
Fresh new_ = (allocated : List ℕ) → holders (new_ allocated) allocated ≡ 0

module _ {E : Type 0} (new_ : List ℕ → ℕ) (fresh : Fresh new_) (m : Memory E) where
  new-texts : holders (new_ (blocks m)) m.texts ≡ 0
  new-texts =
      let p = new_ (blocks m) in
      omega (
        arith,
        fresh (blocks m),
        holders-append p m.mallocs (m.arrays ++ m.texts),
        holders-append p m.arrays m.texts,
      )

  new-mallocs : holders (new_ (blocks m)) m.mallocs ≡ 0
  new-mallocs =
      omega
        (arith, fresh (blocks m), holders-append (new_ (blocks m)) m.mallocs (m.arrays ++ m.texts))

module _ {E : Type 0} (others : ℕ → ℕ) (mallocs arrays : List ℕ) where
  -- What nobody else has is deleted without a fault.
  pub delete_text-IsOwned :
      (p : ℕ) (m : Memory E)
      → IsOwned (λ v. others v + one_if v p) mallocs arrays m
      → (m' : Memory E) × (delete_text p m ≡ some m')
        × IsOwned others mallocs arrays m'
        × (m'.deletes ≡ m.deletes)
  unfolding delete_text
  delete_text-IsOwned p m o = (
    record m { texts = drop_one p m.texts },
    ground (arith, o.owned p),
    record {
      owned = λ v. ground (arith, o.owned v, holders-drop_one v p m.texts, o.owned p);
      once = λ v. ground (arith, o.once v, holders-drop_one v p m.texts, o.owned p);
      same_mallocs = o.same_mallocs;
      same_arrays = o.same_arrays;
      no_frees = o.no_frees;
    },
    refl,
  )

-- `JsCreateExternalArrayBuffer` has an error code if it makes no buffer, and only then.
abbrev pub MakesBuffers : {E : Type 0} → Jsrt E → Type 0
MakesBuffers {E} js =
    (e : E) (bytes : List ℕ)
    → let (err, out, e') = js.create_external_array_buffer e bytes in (err ≡ 0) ↔ (out ≢ nullptr)

module _ {E : Type 0} (js : Jsrt E) (new_ : List ℕ → ℕ) (fresh : Fresh new_)
    (makes : MakesBuffers js) (others : ℕ → ℕ) (mallocs arrays : List ℕ) where
  new-IsOwned :
      (m : Memory E)
      → IsOwned others mallocs arrays m
      → IsOwned
          (λ v. others v + one_if v (new_ (blocks m)))
          mallocs
          arrays
          (record m { texts = new_ (blocks m) ∷ m.texts })
  unfolding holders
  new-IsOwned m o = record {
    owned = λ v. omega (arith, o.owned v);
    once = λ v. ground (arith, o.once v, new-texts new_ fresh m);
    same_mallocs = o.same_mallocs;
    same_arrays = o.same_arrays;
    no_frees = o.no_frees;
  }

  -- The new buffer takes the text over if there is one.
  external-IsOwned :
      (bytes : List ℕ) (p : ℕ) (m : Memory E)
      → IsOwned (λ v. others v + one_if v p) mallocs arrays m
      → let (out, m') = external_delete js new_ bytes p m in
        IsOwned (λ v. others v + (if out == nullptr then one_if v p else 0)) mallocs arrays m'
  unfolding holders
  external-IsOwned bytes p m o = record {
    owned = λ v. ground (arith, o.owned v, makes m.engine bytes);
    once = o.once;
    same_mallocs = o.same_mallocs;
    same_arrays = o.same_arrays;
    no_frees = o.no_frees;
  }

  unless_made-IsOwned :
      (p : ℕ) (out : JsValueRef) (m : Memory E)
      → IsOwned (λ v. others v + (if out == nullptr then one_if v p else 0)) mallocs arrays m
      → (m' : Memory E) × (unless_made_delete js new_ p (out, m) ≡ some (out, m'))
        × IsOwned others mallocs arrays m'
  unless_made-IsOwned p out m o =
      let owned_if : (given : ℕ → ℕ)
          → ((v : ℕ) → given v ≡ (if out == nullptr then one_if v p else 0))
          → IsOwned (λ v. others v + given v) mallocs arrays m =
        λ given same. record {
          owned = λ v. omega (arith, o.owned v, same v);
          once = o.once;
          same_mallocs = o.same_mallocs;
          same_arrays = o.same_arrays;
          no_frees = o.no_frees;
        } in
      elim (Bool-cases (out == nullptr)) [
        | inl null ↦
            let (m', deleted, o', same) =
              delete_text-IsOwned others mallocs arrays p m
                (owned_if (λ v. one_if v p) (λ v. rw null refl)) in
            (m', rw (null, deleted), o')
        | inr made ↦
            let o' = owned_if (λ v. 0) (λ v. rw made refl) in
            (
              m,
              rw made,
              record {
                owned = λ v. omega (arith, o'.owned v);
                once = o.once;
                same_mallocs = o.same_mallocs;
                same_arrays = o.same_arrays;
                no_frees = o.no_frees;
              },
            )
      ]

  pub create_from_string-IsOwned :
      (bytes : List ℕ) (m : Memory E)
      → IsOwned others mallocs arrays m
      → (r : Outcome JsValueRef × Memory E) × (create_from_string js new_ bytes m ≡ some r)
        × IsOwned others mallocs arrays r.1
  unfolding create_from_string
  create_from_string-IsOwned bytes m o = elim (Bool-cases (new_ (blocks m) == 0)) [
    | inl none_left ↦ (as_buffer js new_ nullptr m, rw none_left, o)
    | inr got ↦
        let p = new_ (blocks m) in
        let m0 = record m { texts = p ∷ m.texts } in
        let sent = take (length bytes % 2 ^ 32) bytes in
        let (out, e) = external_delete js new_ sent p m0 in
        let (m', made, o') =
          unless_made-IsOwned p out e (external-IsOwned sent p m0 (new-IsOwned m o)) in
        (as_buffer js new_ out m', rw (got, made) refl, o')
  ]

-- An array is of somebody else, or of one external buffer with the finalizer `free`.
abbrev pub IsHeld : {E : Type 0} → (ℕ → ℕ) → Memory E → Type 0
IsHeld others m = (p : ℕ) → holders p m.arrays ≡ others p + holders p m.frees

module _ {E : Type 0} (js : Jsrt E) (new_ : List ℕ → ℕ) where
  -- Where `new` does not fail, and the view is shorter than 2 ^ 32 - 1 and followed by a readable
  -- byte: `CreateFrom(const StringView&)` comes back, and the array that it has allocated is of the
  -- buffer that the engine makes. If the engine makes none, the array stays, and is nobody's: no
  -- finalizer gives it back.
  pub create_from_const_view-IsHeld :
      (others : ℕ → ℕ) (memory : List ℕ) (size : ℕ) (m : Memory E)
      → new_ (blocks m) ≢ 0
      → size % 2 ^ 32 + 1 < 2 ^ 32
      → size % 2 ^ 32 < length memory
      → IsHeld others m
      → let made = js.create_external_array_buffer m.engine (take (size % 2 ^ 32) memory) in
        (r : Outcome JsValueRef × Memory E) × (create_from_const_view js new_ memory size m
          ≡ some r)
        × IsHeld (λ v. others v + (if made.0 == 0 then 0 else one_if v (new_ (blocks m)))) r.1
  unfolding create_from_const_view holders
  create_from_const_view-IsHeld others memory size m got short readable held =
      let p = new_ (blocks m) in
      let bytes = take (size % 2 ^ 32) memory in
      let (out, m') = external_free js new_ bytes p (record m { arrays = p ∷ m.arrays }) in
      (as_buffer js new_ out m', ground arith, λ v. ground (arith, held v))

  -- Where `new` answers with a free address, the view is shorter than 2 ^ 32 - 1 and followed by a
  -- readable byte, and the engine makes the buffer: `CreateFrom(StringView)` comes back, but when
  -- the engine collects the buffer, its finalizer `free` is called with an address that `malloc`
  -- has not answered with.
  pub create_from_block_mismatched :
      (memory : List ℕ) (size : ℕ) (m : Memory E)
      → Fresh new_
      → new_ (blocks m) ≢ 0
      → size % 2 ^ 32 + 1 < 2 ^ 32
      → size % 2 ^ 32 < length memory
      → (js.create_external_array_buffer m.engine (take (size % 2 ^ 32) memory)).0 ≡ 0
      → (js.create_external_array_buffer m.engine (take (size % 2 ^ 32) memory)).1 ≢ nullptr
      → (r : Outcome JsValueRef × Memory E) × (create_from_block js new_ memory size m ≡ some r)
        × (collect_free 0 r.1 ≡ none)
  unfolding create_from_block collect_free free
  create_from_block_mismatched memory size m fresh got short readable made real =
      let p = new_ (blocks m) in
      let bytes = take (size % 2 ^ 32) memory in
      let (out, m') = external_free js new_ bytes p (record m { arrays = p ∷ m.arrays }) in
      (as_buffer js new_ out m', ground arith, ground (arith, new-mallocs new_ fresh m))
