-- ===== src/Js/Object/Properties.antt =====
-- What the two forms of `SetProperty` answer.
use chakra_jxx.Base.{String, ◌≡◌, not, arith}
use chakra_jxx.Js.Jsrt.{Jsrt, JsValueRef}
use chakra_jxx.Js.Object.{property_id, set_property, set_property_by_name}

module _ {E : Type 0} (js : Jsrt E) where
  -- By name, the answer is the opposite of the one by property identifier: true where the engine
  -- failed to set the property, and false where it set it. What is done to the engine is the same.
  set_property_by_name-not :
      (e : E) (object : JsValueRef) (name : String) (v : JsValueRef)
      → let (pid, e') = property_id js e name in
        let (done, e'') = set_property js e' object pid v in
        set_property_by_name js e object name v ≡ (not done, e'')
  unfolding set_property_by_name
  set_property_by_name-not e object name v = ground arith
