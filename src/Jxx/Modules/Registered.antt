-- ===== src/Jxx/Modules/Registered.antt =====
-- The registry of modules against what it promises: the first registration of a specialer wins.
use mathlib.Core.Path.{fun_ext}
use chakra_jxx.Base.{
  ℕ, String, ◌≡◌, refl, ap, ◌∙◌, List, [], ◌∷◌, Option, none, some, if◌then◌else◌, arith, string_eq,
}
use chakra_jxx.Base.Dict
use chakra_jxx.Jxx.Modules.{
  ModuleDetail, ModuleRegistry, specialer_of, register_module, query_module, jxx_error_has_existed,
}

-- The calls of a registry, and what they answer.
pub data Call : Type 0 where
  register : ModuleDetail → Call
  query : String → Call

pub data Answer : Type 0 where
  code : ℕ → Answer
  module_of : Option ModuleDetail → Answer

abbrev pub add_answer : {S : Type 0} → Answer → List Answer × S → List Answer × S
add_answer a (answers, s) = (a ∷ answers, s)

unfoldable pub run : List Call → ModuleRegistry → List Answer × ModuleRegistry
run [] r = ([], r)
run (register detail ∷ calls) r =
    let (err, r') = register_module detail r in add_answer (code err) (run calls r')
run (query specialer ∷ calls) r = add_answer (module_of (query_module specialer r)) (run calls r)

-- What a registry stands for: a module for each specialer, or none.
abbrev pub Registered : Type 0
Registered = String → Option ModuleDetail

-- A module takes its specialer if nobody has it.
abbrev pub claim : ModuleDetail → Registered → Registered
claim detail f name = elim (f (specialer_of detail)) [
  | some other ↦ f name
  | none ↦ if string_eq.beq (specialer_of detail) name then some detail else f name
]

abbrev pub claim_code : ModuleDetail → Registered → ℕ
claim_code detail f = elim (f (specialer_of detail)) [
  | some other ↦ jxx_error_has_existed
  | none ↦ 0
]

pub replay : List Call → Registered → List Answer × Registered
replay [] f = ([], f)
replay (register detail ∷ calls) f =
    add_answer (code (claim_code detail f)) (replay calls (claim detail f))
replay (query specialer ∷ calls) f = add_answer (module_of (f specialer)) (replay calls f)

-- What a registry holds, as a function.
abbrev pub view : ModuleRegistry → Registered
view r name = query_module name r

view-register_module :
    (detail : ModuleDetail) (r : ModuleRegistry)
    → view (register_module detail r).1 ≡ claim detail (view r)
unfolding register_module query_module
view-register_module detail r = fun_ext λ name. ground (
  arith,
  Dict.find-insert {K = String} {V = ModuleDetail} ⦃e = string_eq⦄ (specialer_of detail) name detail
      r,
)

register_module-claim_code :
    (detail : ModuleDetail) (r : ModuleRegistry)
    → (register_module detail r).0 ≡ claim_code detail (view r)
unfolding register_module query_module
register_module-claim_code detail r = ground arith

abbrev pub viewed : List Answer × ModuleRegistry → List Answer × Registered
viewed (answers, r) = (answers, view r)

-- Any sequence of calls answers as the function from specialers to modules does on which a first
-- registration wins, and leaves a registry that reads as that function.
pub run_refines :
    (calls : List Call) (r : ModuleRegistry) → viewed (run calls r) ≡ replay calls (view r)
unfolding run replay
run_refines [] r = refl
run_refines (register detail ∷ calls) r =
    let (err, r') = register_module detail r in
    ap (add_answer (code err)) (run_refines calls r')
    ∙ ap (λ f. add_answer (code err) (replay calls f)) (view-register_module detail r)
    ∙ ap (λ (c : ℕ). add_answer (code c) (replay calls (claim detail (view r))))
        (register_module-claim_code detail r)
run_refines (query specialer ∷ calls) r =
    ap (add_answer (module_of (query_module specialer r))) (run_refines calls r)
