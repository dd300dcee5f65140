-- ===== src/Jxx/Modules/Builtin.antt =====
-- Loading a module that is built in.
use chakra_jxx.Base.{
  ℕ, String, ◌≡◌, ◌≢◌, ◌∙◌, false, inl, inr, List, [], ◌∷◌, some, none, arith, returned, bit_or,
  Exec, Bool-cases, refl, string_eq, ◌||◌,
}
use chakra_jxx.Js.Jsrt.{Jsrt, JsValueRef}
use chakra_jxx.Jxx.ErrorCode.{eo_module, ec_none, ec_has_existed}
use chakra_jxx.Jxx.FileSystem.{FileSystem}
use chakra_jxx.Base.Preserves.{then_do, either_way}
use chakra_jxx.Jxx.Evaluate.{call, read_file_bytes, read_file_content}
use chakra_jxx.Jxx.Loader.{
  Runtime, on_engine, find_module, load_source_module, load_json_module, load_native_module,
  load_file_as_module,
}
use chakra_jxx.Jxx.Loader.Running.{
  set_running-others, set_running_returns, set_running_self, load_source_module-others,
  load_json_module-others, load_native_module-others, load_file_as_module-others, locate-running,
}
use chakra_jxx.Jxx.Modules
use chakra_jxx.Jxx.Modules.{
  ModuleDetail, ModuleRegistry, query_module, load_buildin_module, load_by_extension, load_file,
  load_module,
}

module _ {E P : Type 0} (js : Jsrt E) (fs : FileSystem P)
    (native : ModuleDetail → Exec (Runtime E P) (ℕ × JsValueRef)) (registry : ModuleRegistry) where
  -- What the instance is made by leaves the table of running modules alone.
  abbrev pub KeepsRunning : Type 0
  KeepsRunning =
      (d : ModuleDetail) (s : Runtime E P) → (native d s).1.running_modules ≡ s.running_modules

  load_module_running :
      (specialer : String) (exports v : JsValueRef) (s : Runtime E P)
      → find_module js fs (fs.path specialer) s ≡ some v
      → load_module js fs native registry specialer exports s
        ≡ (returned (bit_or eo_module ec_has_existed, v), s)
  unfolding load_module
  load_module_running specialer exports v s running = ground (arith, running)

  load_module_new :
      (specialer : String) (exports : JsValueRef) (factory : ModuleDetail) (s : Runtime E P)
      → query_module specialer registry ≡ some factory
      → find_module js fs (fs.path specialer) s ≡ none
      → load_module js fs native registry specialer exports s
        ≡ load_buildin_module js fs native registry (fs.path specialer) factory exports s
  unfolding load_module
  load_module_new specialer exports factory s known new = ground (arith, known, new)

  load_buildin_module_listed :
      (key : P) (factory : ModuleDetail) (exports v : JsValueRef) (s : Runtime E P)
      → find_module js fs key s ≡ none
      → (load_buildin_module js fs native registry key factory exports s).0 ≡ returned (ec_none, v)
      → find_module js fs key (load_buildin_module js fs native registry key factory exports s).1
        ≡ some v
  unfolding load_buildin_module
  load_buildin_module_listed key factory exports v s new done =
      grind (arith, set_running_self js fs key)

  load_buildin_module_failed :
      (key : P) (factory : ModuleDetail) (exports v : JsValueRef) (code : ℕ) (s : Runtime E P)
      → KeepsRunning
      → find_module js fs key s ≡ none
      → (load_buildin_module js fs native registry key factory exports s).0 ≡ returned (code, v)
      → code ≢ ec_none
      → (load_buildin_module js fs native registry key factory exports s).1.running_modules
        ≡ s.running_modules
  unfolding load_buildin_module
  load_buildin_module_failed key factory exports v code s keeps new done wrong =
      ground (arith, keeps factory s)

  buildin-others :
      (key : P) (factory : ModuleDetail) (exports : JsValueRef) (s : Runtime E P) (q : P)
      → KeepsRunning
      → fs.same_path.beq key q ≡ false
      → find_module js fs q (load_buildin_module js fs native registry key factory exports s).1
        ≡ find_module js fs q s
  unfolding load_buildin_module
  buildin-others key factory exports s q keeps other =
      grind (arith, set_running-others, set_running_returns, keeps factory s)

  extension-others :
      (resolved : P) (exports : JsValueRef) (s : Runtime E P) (q : P)
      → fs.same_path.beq resolved q ≡ false
      → find_module js fs q (load_by_extension js fs native registry resolved exports s).1
        ≡ find_module js fs q s
  unfolding load_by_extension Modules.load_source_module load_source_module Modules.load_json_module
      load_json_module Modules.load_native_module load_native_module Modules.load_file_as_module
      load_file_as_module
  extension-others resolved exports s q other =
      let Same : Runtime E P → Type 0 = λ t. find_module js fs q t ≡ find_module js fs q s in
      (either_way Same
          (string_eq.beq (fs.extension resolved) "js"
            || string_eq.beq (fs.extension resolved) "cjs")
          (then_do Same
            (record {
              code = on_engine (call js (read_file_bytes js (fs.bytes resolved)));
              safe = λ t h. h;
            })
            λ code. record {
              code = load_source_module js fs resolved code exports;
              safe = λ t h. load_source_module-others js fs resolved code exports t q other ∙ h;
            })
          (either_way Same (string_eq.beq (fs.extension resolved) "json")
            (then_do Same
              (record {
                code = on_engine (call js (read_file_content js (fs.contents resolved)));
                safe = λ t h. h;
              })
              λ text. record {
                code = load_json_module js fs resolved text exports;
                safe = λ t h. load_json_module-others js fs resolved text exports t q other ∙ h;
              })
            (either_way Same (string_eq.beq (fs.extension resolved) "jsxm")
              (record {
                code = load_native_module js fs resolved exports;
                safe = λ t h. load_native_module-others js fs resolved exports t q other ∙ h;
              })
              (record {
                code = load_file_as_module js fs resolved exports;
                safe = λ t h. load_file_as_module-others js fs resolved exports t q other ∙ h;
              })))).safe
        s refl

  extension-running :
      (resolved : P) (exports v : JsValueRef) (s : Runtime E P)
      → find_module js fs resolved s ≡ some v
      → (load_by_extension js fs native registry resolved exports s).1.running_modules
        ≡ s.running_modules
  unfolding load_by_extension load_source_module load_json_module load_native_module
      load_file_as_module
  extension-running resolved exports v s running = ground (arith, running)

  extension-kept :
      (resolved : P) (exports : JsValueRef) (s : Runtime E P) (q : P) (v : JsValueRef)
      → find_module js fs q s ≡ some v
      → find_module js fs q (load_by_extension js fs native registry resolved exports s).1 ≡ some v
  extension-kept resolved exports s q v h = elim (Bool-cases (fs.same_path.beq resolved q)) [
    | inl same ↦
        let e = (fs.same_path.beq_iff resolved q).0 same in
        rw (extension-running resolved exports v s (rw e h)) h
    | inr other ↦ extension-others resolved exports s q other ∙ h
  ]

  file-kept :
      (key resolved : P) (exports : JsValueRef) (s : Runtime E P) (q : P) (v : JsValueRef)
      → find_module js fs q s ≡ some v
      → find_module js fs q (load_file js fs native registry key resolved exports s).1 ≡ some v
  unfolding load_file
  file-kept key resolved exports s q v h =
      ground (arith, h, extension-kept resolved exports s q v h)

  buildin-kept :
      (key : P) (factory : ModuleDetail) (exports : JsValueRef) (s : Runtime E P) (q : P)
      (v : JsValueRef)
      → KeepsRunning
      → find_module js fs q s ≡ some v
      → find_module js fs q (load_buildin_module js fs native registry key factory exports s).1
        ≡ some v
  unfolding load_buildin_module
  buildin-kept key factory exports s q v keeps h = elim (Bool-cases (fs.same_path.beq key q)) [
    | inl same ↦
        let e = (fs.same_path.beq_iff key q).0 same in
        let running : find_module js fs key s ≡ some v = rw e h in ground (arith, running, h)
    | inr other ↦ buildin-others key factory exports s q keeps other ∙ h
  ]

  module-kept :
      (specialer : String) (exports : JsValueRef) (s : Runtime E P) (q : P) (v : JsValueRef)
      → KeepsRunning
      → find_module js fs q s ≡ some v
      → find_module js fs q (load_module js fs native registry specialer exports s).1 ≡ some v
  unfolding load_module
  module-kept specialer exports s q v keeps h =
      grind (arith, buildin-kept, file-kept, locate-running)

  -- The state after some loads, each with what `exports` holds.
  abbrev pub after_loads : List (String × JsValueRef) → Runtime E P → Runtime E P
  after_loads [] s = s
  after_loads ((specialer, exports) ∷ loads) s =
      after_loads loads (load_module js fs native registry specialer exports s).1

  loads-kept :
      (loads : List (String × JsValueRef)) (s : Runtime E P) (q : P) (v : JsValueRef)
      → KeepsRunning
      → find_module js fs q s ≡ some v
      → find_module js fs q (after_loads loads s) ≡ some v
  loads-kept [] s q v keeps h = h
  loads-kept ((specialer, exports) ∷ loads) s q v keeps h =
      loads-kept loads (load_module js fs native registry specialer exports s).1 q v keeps
        (module-kept specialer exports s q v keeps h)

  -- Where what makes an instance leaves the table of running modules alone: a load of a registered
  -- specialer that does not run, if it succeeds, puts the exports on the table, whatever files
  -- there are. After any loads that follow, of whatever specialers and with whatever outcomes,
  -- exceptions included, a load of the specialer answers with those exports and the code of a
  -- module that has existed, and changes nothing.
  pub load_module-buildin :
      (specialer : String) (exports later v : JsValueRef) (factory : ModuleDetail) (s : Runtime E P)
      (loads : List (String × JsValueRef))
      → KeepsRunning
      → query_module specialer registry ≡ some factory
      → find_module js fs (fs.path specialer) s ≡ none
      → (load_module js fs native registry specialer exports s).0 ≡ returned (ec_none, v)
      → let s' = (load_module js fs native registry specialer exports s).1 in
        (find_module js fs (fs.path specialer) s' ≡ some v)
        × (load_module js fs native registry specialer later (after_loads loads s')
            ≡ (returned (bit_or eo_module ec_has_existed, v), after_loads loads s'))
  load_module-buildin specialer exports later v factory s loads keeps known new done =
      let key = fs.path specialer in
      let same = load_module_new specialer exports factory s known new in
      let s' = (load_module js fs native registry specialer exports s).1 in
      let listed : find_module js fs key s' ≡ some v =
        rw same (load_buildin_module_listed key factory exports v s new (rw same at done)) in
      (
        listed,
        load_module_running specialer later v (after_loads loads s')
            (loads-kept loads s' key v keeps listed),
      )

  -- A load of a registered specialer that fails leaves the table of running modules as it was,
  -- where what makes the instance does.
  pub load_module-buildin_failed :
      (specialer : String) (exports v : JsValueRef) (code : ℕ) (factory : ModuleDetail)
      (s : Runtime E P)
      → KeepsRunning
      → query_module specialer registry ≡ some factory
      → find_module js fs (fs.path specialer) s ≡ none
      → (load_module js fs native registry specialer exports s).0 ≡ returned (code, v)
      → code ≢ ec_none
      → (load_module js fs native registry specialer exports s).1.running_modules
        ≡ s.running_modules
  load_module-buildin_failed specialer exports v code factory s keeps known new done wrong =
      let same = load_module_new specialer exports factory s known new in
      rw same (
        load_buildin_module_failed (fs.path specialer) factory exports v code s keeps new
          (rw same at done) wrong)
