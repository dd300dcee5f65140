-- ===== src/Jxx/JxxRuntime/Life.antt =====
-- How long a runtime lives.
use chakra_jxx.Base.{ℕ, ◌≡◌, ◌≢◌, refl, true, false, arith, some}
use chakra_jxx.Js.Jsrt.{Jsrt}
use chakra_jxx.Jxx.FileSystem.{FileSystem}
use chakra_jxx.Jxx.Api.{Host}
use chakra_jxx.Jxx.ObjectPtr.{add_ref}
use chakra_jxx.Jxx.JxxRuntime.{construct, destroy, before_collect, create_runtime}

module _ {E P : Type 0} (js : Jsrt E) (fs : FileSystem P) where
  construct-objects : (rt attr : ℕ) (h : Host E P) → (construct js fs rt attr h).objects ≡ h.objects
  unfolding construct
  construct-objects rt attr h = refl

  destroy-objects : (rt : ℕ) (h : Host E P) → (destroy js rt h).objects ≡ h.objects
  unfolding destroy
  destroy-objects rt h = refl

  -- Where the callback `init` leaves the counts of objects alone: the first collection of the
  -- engine destroys a runtime that `JxxCreateRuntime` has answered with, which was not destroyed
  -- before. The runtime has one reference, and the collection releases it.
  pub create_runtime-before_collect :
      (rt attr : ℕ) (init : ℕ → Host E P → ℕ × Host E P) (h : Host E P)
      → rt ≢ 0
      → h.objects.ref_count rt ≡ 0
      → h.objects.deleted rt ≡ false
      → ((h' : Host E P) → (init rt h').1.objects ≡ h'.objects)
      → (create_runtime js fs rt attr (some init) h).0 ≢ 0
      → ((create_runtime js fs rt attr (some init) h).1.objects.deleted rt ≡ false)
        × ((before_collect js rt (create_runtime js fs rt attr (some init) h).1).objects.deleted rt
            ≡ true)
  unfolding create_runtime before_collect
  create_runtime-before_collect rt attr init h real new alive quiet answered =
      let made = construct js fs rt attr h in
      let held : Host E P = record made { objects = add_ref made.objects rt } in
      let set = js.set_runtime_before_collect_callback held.engine (held.members rt).handle rt in
      ground (arith, quiet (record held { engine = set.1 }))
