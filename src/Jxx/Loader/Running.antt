-- ===== src/Jxx/Loader/Running.antt =====
-- The table of running modules: what a load may change in it, and what it leaves there.
use chakra_jxx.Base.{
  String, ◌≡◌, refl, ap, ◌∙◌, false, some, arith, returned, inl, inr, bit_or, Bool-cases,
}
use chakra_jxx.Base.Dict
use chakra_jxx.Js.Jsrt.{Jsrt, JsValueRef}
use chakra_jxx.Jxx.ErrorCode.{eo_module, ec_none, ec_has_existed}
use chakra_jxx.Jxx.FileSystem.{FileSystem}
use chakra_jxx.Jxx.Loader.{
  Runtime, find_module, set_running, load_source_module, load_json_module, load_native_module,
  load_file_as_module, found, main_of_package, jxx_json_parse, locate, load_located, load_module,
}

module _ {E P : Type 0} (js : Jsrt E) (fs : FileSystem P) where
  pub set_running-others :
      (key : P) (v : JsValueRef) (s : Runtime E P) (q : P)
      → fs.same_path.beq key q ≡ false
      → find_module js fs q (set_running js fs key v s).1 ≡ find_module js fs q s
  unfolding set_running
  set_running-others key v s q n =
      rw (Dict.find-insert ⦃e = fs.same_path⦄ key q v s.running_modules, n)

  pub set_running_returns :
      (key : P) (v : JsValueRef) (s : Runtime E P) → (set_running js fs key v s).0 ≡ returned tt
  unfolding set_running
  set_running_returns key v s = refl

  pub load_source_module-others :
      (resolved : P) (code exports : JsValueRef) (s : Runtime E P) (q : P)
      → fs.same_path.beq resolved q ≡ false
      → find_module js fs q (load_source_module js fs resolved code exports s).1
        ≡ find_module js fs q s
  unfolding load_source_module
  load_source_module-others resolved code exports s q n =
      grind (arith, set_running-others, set_running_returns)

  pub load_json_module-others :
      (resolved : P) (code exports : JsValueRef) (s : Runtime E P) (q : P)
      → fs.same_path.beq resolved q ≡ false
      → find_module js fs q (load_json_module js fs resolved code exports s).1
        ≡ find_module js fs q s
  unfolding load_json_module
  load_json_module-others resolved code exports s q n =
      grind (arith, set_running-others, set_running_returns)

  pub load_native_module-others :
      (resolved : P) (exports : JsValueRef) (s : Runtime E P) (q : P)
      → fs.same_path.beq resolved q ≡ false
      → find_module js fs q (load_native_module js fs resolved exports s).1 ≡ find_module js fs q s
  unfolding load_native_module
  load_native_module-others resolved exports s q n =
      grind (arith, set_running-others, set_running_returns)

  pub load_file_as_module-others :
      (resolved : P) (exports : JsValueRef) (s : Runtime E P) (q : P)
      → fs.same_path.beq resolved q ≡ false
      → find_module js fs q (load_file_as_module js fs resolved exports s).1 ≡ find_module js fs q s
  unfolding load_file_as_module
  load_file_as_module-others resolved exports s q n =
      grind (arith, set_running-others, set_running_returns)

  load_located-others :
      (resolved : P) (exports : JsValueRef) (s : Runtime E P) (q : P)
      → fs.same_path.beq resolved q ≡ false
      → find_module js fs q (load_located js fs resolved exports s).1 ≡ find_module js fs q s
  unfolding load_located
  load_located-others resolved exports s q n = grind (
    arith, load_source_module-others, load_json_module-others, load_native_module-others,
    load_file_as_module-others,
  )

  load_located_running :
      (resolved : P) (exports v : JsValueRef) (s : Runtime E P)
      → find_module js fs resolved s ≡ some v
      → load_located js fs resolved exports s ≡ (returned (bit_or eo_module ec_has_existed, v), s)
  unfolding load_located
  load_located_running resolved exports v s h = ground arith

  jxx_json_parse-running :
      (text : JsValueRef) (s : Runtime E P)
      → (jxx_json_parse js fs text s).1.running_modules ≡ s.running_modules
  unfolding jxx_json_parse
  jxx_json_parse-running text s = ground arith

  main_of_package-running :
      (p : P) (s : Runtime E P) → (main_of_package js fs p s).1.running_modules ≡ s.running_modules
  unfolding main_of_package
  main_of_package-running p s = grind (arith, jxx_json_parse-running)

  pub locate-running :
      (specialer : String) (s : Runtime E P)
      → (locate js fs specialer s).1.running_modules ≡ s.running_modules
  unfolding locate
  locate-running specialer s = grind (arith, main_of_package-running)

  kept :
      (p q : P) (exports v : JsValueRef) (s : Runtime E P)
      → find_module js fs q s ≡ some v
      → find_module js fs q (load_located js fs p exports s).1 ≡ some v
  kept p q exports v s h = elim (Bool-cases (fs.same_path.beq p q)) [
    | inl same ↦
        let e = (fs.same_path.beq_iff p q).0 same in
        rw (load_located_running p exports v s (rw e h)) h
    | inr other ↦ load_located-others p exports s q other ∙ h
  ]

  -- No load, of whatever module and with whatever outcome, an exception included, takes a running
  -- module off the table or gives it other exports.
  pub load_module_keeps :
      (specialer : String) (exports : JsValueRef) (s : Runtime E P) (q : P) (v : JsValueRef)
      → find_module js fs q s ≡ some v
      → find_module js fs q (load_module js fs specialer exports s).1 ≡ some v
  unfolding load_module
  load_module_keeps specialer exports s q v h = grind (arith, kept, locate-running)

  pub set_running_self :
      (key : P) (v : JsValueRef) (s : Runtime E P)
      → find_module js fs key (set_running js fs key v s).1 ≡ some v
  unfolding set_running
  set_running_self key v s = Dict.find-insert_self ⦃e = fs.same_path⦄ key v s.running_modules

  load_source_module_listed :
      (p : P) (code exports : JsValueRef) (s : Runtime E P) {v : JsValueRef}
      → (load_source_module js fs p code exports s).0 ≡ returned (ec_none, v)
      → find_module js fs p (load_source_module js fs p code exports s).1 ≡ some v
  unfolding load_source_module
  load_source_module_listed p code exports s h =
      grind (arith, set_running_self, set_running_returns)

  load_json_module_listed :
      (p : P) (code exports : JsValueRef) (s : Runtime E P) {v : JsValueRef}
      → (load_json_module js fs p code exports s).0 ≡ returned (ec_none, v)
      → find_module js fs p (load_json_module js fs p code exports s).1 ≡ some v
  unfolding load_json_module
  load_json_module_listed p code exports s h = grind (arith, set_running_self, set_running_returns)

  load_native_module_listed :
      (p : P) (exports : JsValueRef) (s : Runtime E P) {v : JsValueRef}
      → (load_native_module js fs p exports s).0 ≡ returned (ec_none, v)
      → find_module js fs p (load_native_module js fs p exports s).1 ≡ some v
  unfolding load_native_module
  load_native_module_listed p exports s h = grind (arith, set_running_self, set_running_returns)

  load_file_as_module_listed :
      (p : P) (exports : JsValueRef) (s : Runtime E P) {v : JsValueRef}
      → (load_file_as_module js fs p exports s).0 ≡ returned (ec_none, v)
      → find_module js fs p (load_file_as_module js fs p exports s).1 ≡ some v
  unfolding load_file_as_module
  load_file_as_module_listed p exports s h = grind (arith, set_running_self, set_running_returns)

  load_located_listed :
      (p : P) (exports : JsValueRef) (s : Runtime E P) {v : JsValueRef}
      → (load_located js fs p exports s).0 ≡ returned (ec_none, v)
      → find_module js fs p (load_located js fs p exports s).1 ≡ some v
  unfolding load_located
  load_located_listed p exports s h = grind (
    arith, load_source_module_listed, load_json_module_listed, load_native_module_listed,
    load_file_as_module_listed,
  )

  pub load_module_at :
      (specialer : String) (exports : JsValueRef) (s : Runtime E P) (p : P)
      → (locate js fs specialer s).0 ≡ returned (found p)
      → load_module js fs specialer exports s
        ≡ load_located js fs p exports (locate js fs specialer s).1
  unfolding load_module
  load_module_at specialer exports s p at = ground arith

  -- A load that succeeds has put the exports that it answers with on the table, under the file that
  -- it settled on. A later load that settles on the same file answers with the same exports and the
  -- code of a module that has existed, and changes no table.
  pub load_module_twice :
      (specialer other : String) (exports exports' v : JsValueRef) (s : Runtime E P) (p : P)
      → (locate js fs specialer s).0 ≡ returned (found p)
      → (load_module js fs specialer exports s).0 ≡ returned (ec_none, v)
      → (locate js fs other (load_module js fs specialer exports s).1).0 ≡ returned (found p)
      → let s' = (load_module js fs specialer exports s).1 in
        (find_module js fs p s' ≡ some v)
        × ((load_module js fs other exports' s').0 ≡ returned (bit_or eo_module ec_has_existed, v))
        × ((load_module js fs other exports' s').1.running_modules ≡ s'.running_modules)
  load_module_twice specialer other exports exports' v s p at done again =
      let first = load_module_at specialer exports s p at in
      let s' = (load_module js fs specialer exports s).1 in
      let listed : find_module js fs p s' ≡ some v =
        rw first (load_located_listed p exports (locate js fs specialer s).1 (rw first at done)) in
      let same = locate-running other s' in
      let second =
        load_module_at other exports' s' p again
        ∙ load_located_running p exports' v (locate js fs other s').1
            (ap (λ (m : Dict.Dict P JsValueRef). Dict.find ⦃e = fs.same_path⦄ p m) same ∙ listed) in
      (listed, ap (λ r. r.0) second, ap (λ r. r.1.running_modules) second ∙ same)
