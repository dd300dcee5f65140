-- ===== src/Js/MemoryTests.antt =====
-- The memory of array buffers on the toy engine, and the theorems at concrete data.
use chakra_jxx.Base.{ℕ, suc, ◌+◌, ◌<◌, ◌≡◌, refl, arith, List, [], ◌∷◌, none, some, Outcome}
use chakra_jxx.Base.Holders.{holders, one_if}
use chakra_jxx.Js.Jsrt.{Jsrt, JsValueRef}
use chakra_jxx.Js.Toy.{Engine, engine, toy}
use chakra_jxx.Js.ArrayBuffer.Heap.{Memory, create_from_block, create_from_const_view, collect_free}
use chakra_jxx.Js.ArrayBuffer.Owned.{
  IsOwned, IsHeld, Fresh, MakesBuffers, create_from_const_view-IsHeld, create_from_block_mismatched,
}
use chakra_jxx.Js.ArrayBuffer.Released.{creates, collects, whole_life, whole_life-texts}

abbrev sum : List ℕ → ℕ
sum [] = 0
sum (x ∷ xs) = x + sum xs

-- An address behind all that are allocated.
abbrev next_address : List ℕ → ℕ
next_address blocks = suc (sum blocks)

holders-above : (v : ℕ) (blocks : List ℕ) → sum blocks < v → holders v blocks ≡ 0
unfolding holders
holders-above v [] h = refl
holders-above v (x ∷ xs) h = ground (arith, holders-above v xs)

next_address-Fresh : Fresh next_address
next_address-Fresh blocks = holders-above (suc (sum blocks)) blocks (omega arith)

toy-MakesBuffers : MakesBuffers toy
toy-MakesBuffers e bytes = ground arith

-- One text is somebody else's.
abbrev memory : Memory Engine
memory = record {
  engine = engine;
  mallocs = 2 ∷ [];
  arrays = 3 ∷ [];
  texts = 5 ∷ [];
  frees = [];
  deletes = [];
}

memory-IsOwned : IsOwned (λ p. one_if p 5) (2 ∷ []) (3 ∷ []) memory
unfolding holders
memory-IsOwned = record {
  owned = λ p. omega arith;
  once = λ p. ground arith;
  same_mallocs = refl;
  same_arrays = refl;
  no_frees = refl;
}

whole_life-texts_example :
    (m' : Memory Engine) × (whole_life toy next_address
        (creates (72 ∷ 105 ∷ []) ∷ creates (1 ∷ []) ∷ collects 1 ∷ collects 7 ∷ [])
        memory
      ≡ some m')
    × ((p : ℕ) → holders p m'.texts ≡ one_if p 5)
    × (m'.mallocs ≡ 2 ∷ [])
    × (m'.arrays ≡ 3 ∷ [])
whole_life-texts_example =
    whole_life-texts toy next_address next_address-Fresh toy-MakesBuffers (λ p. one_if p 5) (2 ∷ [])
      (3 ∷ []) (creates (72 ∷ 105 ∷ []) ∷ creates (1 ∷ []) ∷ collects 1 ∷ collects 7 ∷ []) memory
      memory-IsOwned

-- An engine that is out of memory.
abbrev full : Jsrt Engine
full = record toy { create_external_array_buffer = λ e bytes. (1, 0, e) }

-- The next address is 11.
create_from_const_view-IsHeld_example :
    (r : Outcome JsValueRef × Memory Engine) × (create_from_const_view full next_address
        (72 ∷ 105 ∷ 0 ∷ [])
        2
        memory
      ≡ some r)
    × IsHeld (λ v. one_if v 3 + one_if v 11) r.1
unfolding holders
create_from_const_view-IsHeld_example =
    create_from_const_view-IsHeld full next_address (λ v. one_if v 3) (72 ∷ 105 ∷ 0 ∷ []) 2 memory
      (omega arith) (omega arith) (omega arith) (λ p. omega arith)

create_from_block_mismatched_example :
    (r : Outcome JsValueRef × Memory Engine) × (create_from_block toy next_address
        (72 ∷ 105 ∷ 0 ∷ [])
        2
        memory
      ≡ some r)
    × (collect_free 0 r.1 ≡ none)
create_from_block_mismatched_example =
    create_from_block_mismatched toy next_address (72 ∷ 105 ∷ 0 ∷ []) 2 memory next_address-Fresh
      (omega arith) (omega arith) (omega arith) refl (omega arith)
