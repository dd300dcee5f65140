-- ===== src/Jxx/ExtObject/Ownership.antt =====
-- The reference that an external JavaScript object has to its C++ object.
use chakra_jxx.Base.{ℕ, ◌+◌, ◌-◌, ◌<◌, ◌≡◌, ◌≢◌, ◌==◌, false, not, ◌⊎◌, if◌then◌else◌, arith}
use chakra_jxx.Base.Holders.{one_if}
use chakra_jxx.Js.Jsrt.{Jsrt, JsValueRef}
use chakra_jxx.Jxx.ObjectPtr.Lifetime.{total, IsSound, HasRoom, IsAlive}
use chakra_jxx.Jxx.ExtObject.{World, assign_jxx_object, as_new, jxx_release}

-- A reference to the object, or a null pointer.
abbrev pub Owned : (ℕ → ℕ) → ℕ → Type 0
Owned others o = (o ≡ 0) ⊎ (0 < others o)

module _ {E : Type 0} (js : Jsrt E) where
  -- Where the counts are right and none is about to wrap, and the object that `self` stood for is
  -- counted once for it: `AssignJxxObject` keeps the counts right, with the reference of `self` on
  -- the new object where the engine accepted it, and on the old one where not.
  pub assign_jxx_object-IsSound :
      (others : ℕ → ℕ) (self : JsValueRef) (xobj : ℕ) (w : World E)
      → IsSound others w.objects
      → HasRoom w.objects
      → IsAlive w.objects xobj
      → Owned others (js.get_external_data w.engine self).1
      → let (code, w') = assign_jxx_object js self xobj w in
        let old = (js.get_external_data w.engine self).1 in
        IsSound
          (λ o. if code == 0 then others o + one_if o xobj - one_if o old else others o)
          w'.objects
  unfolding assign_jxx_object
  assign_jxx_object-IsSound others self xobj w s room alive owned o n =
      ground (arith, s o n, room o, alive, owned)

  -- Where the counts are right and none is about to wrap: an object that was made for `As<>::New`,
  -- and that nothing refers to yet, is left with one reference, that of the new JavaScript object;
  -- and it is deleted where the engine has made none.
  pub as_new-IsSound :
      (others : ℕ → ℕ) (x : ℕ) (proto : JsValueRef) (w : World E)
      → IsSound others w.objects
      → HasRoom w.objects
      → x ≢ 0
      → total others w.objects x ≡ 0
      → w.objects.deleted x ≡ false
      → let (out, w') = as_new js x proto w in
        let made = (js.create_external_object w.engine x proto).0 == 0 in
        IsSound (λ o. if made then others o + one_if o x else others o) w'.objects
        × (w'.objects.deleted x ≡ not made)
  unfolding as_new
  as_new-IsSound others x proto w s room new fresh alive = (
    λ o n. ground (arith, s o n, room o, fresh, alive),
    ground (arith, s x new, room x, fresh, alive),
  )

  -- Where the counts are right, none is about to wrap and the engine's reference is counted: the
  -- engine's call of `JxxRelease` gives that reference up, and the counts stay right.
  pub jxx_release-IsSound :
      (others : ℕ → ℕ) (p : ℕ) (w : World E)
      → IsSound others w.objects
      → HasRoom w.objects
      → Owned others p
      → IsSound (λ o. others o - one_if o p) (jxx_release js p w).objects
  unfolding jxx_release
  jxx_release-IsSound others p w s room owned o n = ground (arith, s o n, room o, owned)
