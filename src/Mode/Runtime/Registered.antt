-- ===== src/Mode/Runtime/Registered.antt =====
-- The modules that `mode::Runtime` has registered.
use chakra_jxx.Base.{
  ℕ, String, ◌≡◌, refl, ap, ◌∙◌, arith, not, ◌&&◌, List, [], ◌∷◌, ◌==◌, if◌then◌else◌, Option, none,
  some, string_eq, Bool, true, inl, inr, Option-cases, false, returned, thrown, Outcome,
}
use chakra_jxx.Base.Dict
use chakra_jxx.Base.Dict.{Dict, find-insert}
use chakra_jxx.Js.Jsrt.{Jsrt, JsValueRef, nullptr}
use chakra_jxx.Js.Guarded.{answer_or, if_exception_return}
use chakra_jxx.Jxx.FileSystem.{FileSystem}
use chakra_jxx.Mode.Runtime.{
  Headers, BiModuleDesc, ModuleRecord, Runtime, record_of, put_module, register_module,
  register_global_template, create_context, create_context_of,
}
use chakra_jxx.Mode.Runtime.Init.{registered, make_modules, install, init_my_runtime}

abbrev pub found_in : {E P : Type 0} → Runtime E P → String → Option (ModuleRecord P)
found_in rt name = Dict.find ⦃e = string_eq⦄ name rt.buildin_modules_

module _ {E S P : Type 0} (js : Jsrt E) (headers : Headers E S) (fs : FileSystem P)
    (concat : P → String → P) where
  abbrev has_name : Option String → String → Bool
  has_name none name = false
  has_name (some other) name = string_eq.beq other name

  -- A description is of a module if it has a name and exports.
  abbrev names : BiModuleDesc → String → Bool
  names desc name = has_name desc.name name && not (desc.exports == nullptr)

  -- The module of the first description with the name.
  abbrev pub first_of : String → List BiModuleDesc → Option (ModuleRecord P)
  first_of name [] = none
  first_of name (desc ∷ descs) =
      let rest = first_of name descs in
      if names desc name then some (record_of js headers fs concat desc name) else rest

  abbrev pub or_else : Option (ModuleRecord P) → Option (ModuleRecord P) → Option (ModuleRecord P)
  or_else none o = o
  or_else (some r) o = some r

  found_in-put_module :
      (desc : BiModuleDesc) (other : String) (rt : Runtime E P) (name : String)
      → found_in (put_module js headers fs concat desc other rt).1 name
        ≡ or_else (found_in rt name) (
            if string_eq.beq other name
            then some (record_of js headers fs concat desc name)
            else none)
  found_in-put_module desc other rt name = ground (
    arith,
    string_eq.beq_iff other name,
    find-insert ⦃e = string_eq⦄ other name (record_of js headers fs concat desc other)
        rt.buildin_modules_,
  )

  answer_or-state : {A T : Type 0} (d : A) (r : Outcome A × T) → (answer_or d r).1 ≡ r.1
  answer_or-state d (returned a, t) = refl
  answer_or-state d (thrown code, t) = refl

  found_in-register_module :
      (desc : BiModuleDesc) (rt : Runtime E P) (name : String)
      → found_in (register_module js headers fs concat desc rt).1 name
        ≡ or_else (found_in rt name) (first_of name (desc ∷ []))
  unfolding register_module if_exception_return
  found_in-register_module desc rt name = elim (Option-cases desc.name) [
    | inl unnamed ↦ ground (arith, unnamed)
    | inr (other, named) ↦ ground (
      arith,
      named,
      found_in-put_module desc other rt name,
      answer_or-state js.error_invalid_argument (put_module js headers fs concat desc other rt),
    )
  ]

  -- Whatever descriptions are registered in turn: the module that is found under a name is the one
  -- that was there before, or else that of the first description with this name and with exports.
  pub found_in-registered :
      (descs : List BiModuleDesc) (rt : Runtime E P) (name : String)
      → found_in (registered js headers fs concat descs rt) name
        ≡ or_else (found_in rt name) (first_of name descs)
  unfolding registered
  found_in-registered [] rt name = ground arith
  found_in-registered (desc ∷ descs) rt name = ground (
    arith,
    found_in-register_module desc rt name,
    found_in-registered descs (register_module js headers fs concat desc rt).1 name,
  )

  register_global_template-modules :
      (v : JsValueRef) (rt : Runtime E P)
      → (register_global_template js headers fs concat v rt).1.buildin_modules_
        ≡ rt.buildin_modules_
  unfolding register_global_template if_exception_return
  register_global_template-modules v rt = ground arith

  register_module-runtime_ :
      (desc : BiModuleDesc) (rt : Runtime E P)
      → (register_module js headers fs concat desc rt).1.runtime_ ≡ rt.runtime_
  unfolding register_module if_exception_return
  register_module-runtime_ desc rt = elim (Option-cases desc.name) [
    | inl unnamed ↦ ground (arith, unnamed)
    | inr (other, named) ↦ ground (
      arith,
      named,
      answer_or-state js.error_invalid_argument (put_module js headers fs concat desc other rt),
    )
  ]

  registered-runtime_ :
      (descs : List BiModuleDesc) (rt : Runtime E P)
      → (registered js headers fs concat descs rt).runtime_ ≡ rt.runtime_
  unfolding registered
  registered-runtime_ [] rt = refl
  registered-runtime_ (desc ∷ descs) rt =
      registered-runtime_ descs (register_module js headers fs concat desc rt).1
      ∙ register_module-runtime_ desc rt

  register_global_template-runtime_ :
      (v : JsValueRef) (rt : Runtime E P)
      → (register_global_template js headers fs concat v rt).1.runtime_ ≡ rt.runtime_
  unfolding register_global_template if_exception_return
  register_global_template-runtime_ v rt = ground arith

  create_context_of-modules :
      (this : ℕ) (handle : JsValueRef) (use_template : Bool) (rt : Runtime E P)
      → (create_context_of js headers fs concat this handle use_template rt).1.buildin_modules_
        ≡ rt.buildin_modules_
  unfolding create_context_of
  create_context_of-modules this handle use_template rt = ground arith

  module _ (new_module : String → E → JsValueRef × E) where
    found_in-install :
        (rt : Runtime E P) (name : String)
        → found_in rt name ≡ none
        → found_in (install js headers fs concat new_module rt) name
          ≡ first_of name (make_modules js headers fs concat new_module rt).0.2
    unfolding install make_modules
    found_in-install rt name empty =
        let ((console, process, descs), rt') = make_modules js headers fs concat new_module rt in
        ap (λ modules. Dict.find ⦃e = string_eq⦄ name modules)
          (register_global_template-modules _ _)
        ∙ found_in-registered descs rt' name
        ∙ ap (λ o. or_else o (first_of name descs)) empty

    install-runtime_ :
        (rt : Runtime E P) → (install js headers fs concat new_module rt).runtime_ ≡ rt.runtime_
    unfolding install make_modules
    install-runtime_ rt =
        let ((console, process, descs), rt') = make_modules js headers fs concat new_module rt in
        register_global_template-runtime_ _ _ ∙ registered-runtime_ descs rt'

    -- The runtime in which `InitMyRuntime` makes its modules: the first context is entered.
    abbrev pub begun : Runtime E P → Runtime E P
    begun rt = record rt { engine = (headers.enter rt.engine rt.genesis_context_).1 }

    -- Of a runtime that has a handle and no modules yet: `InitMyRuntime` leaves it with the modules
    -- of its five descriptions, under every name the first that has exports, and with no others.
    pub init_my_runtime-modules :
        (this : ℕ) (rt : Runtime E P) (handle : JsValueRef)
        → rt.runtime_ ≡ some handle
        → rt.buildin_modules_ ≡ []
        → (main : JsValueRef) × (rt' : Runtime E P) × (init_my_runtime js headers fs concat
              new_module this rt
            ≡ some (main, rt'))
          × ((name : String)
              → found_in rt' name
                ≡ first_of name (make_modules js headers fs concat new_module (begun rt)).0.2)
    unfolding init_my_runtime create_context
    init_my_runtime-modules this rt handle live empty =
        let done = install js headers fs concat new_module (begun rt) in
        let (scope, e1) = headers.enter rt.engine rt.genesis_context_ in
        let left : Runtime E P = record done { engine = headers.leave done.engine scope } in
        let (main, rt') = create_context_of js headers fs concat this handle true left in
        let known : done.runtime_ ≡ some handle = install-runtime_ (begun rt) ∙ live in
        (
          main,
          rt',
          ground (arith, known),
          λ name.
              ap (λ modules. Dict.find ⦃e = string_eq⦄ name modules)
                (create_context_of-modules this handle true left)
              ∙ found_in-install (begun rt) name
                  (ap (λ modules. Dict.find ⦃e = string_eq⦄ name modules) empty),
        )
