-- ===== src/Jxx/ExtObject/Methods.antt =====
-- When the stub calls the method, on which object, and with what.
use chakra_jxx.Base.{
  ℕ, suc, ◌≡◌, Bool, true, ◌&&◌, not, List, ◌∷◌, none, some, arith, ◌==◌, if◌then◌else◌, bit_and,
  length, Outcome,
}
use chakra_jxx.Base.Bits.{test_bit}
use chakra_jxx.Js.Jsrt.{Jsrt, JsValueRef, nullptr}
use chakra_jxx.Js.Mask
use chakra_jxx.Js.Value.{type_id}
use chakra_jxx.Js.Value.Types.{ReportsTypes}
use chakra_jxx.Js.Value.Checks.{base_value-test_bit}
use chakra_jxx.Js.Function.{ParamKind, deny_new, deny_normal, throw_js_exception}
use chakra_jxx.Js.Function.Stub.{finish, call_of, accepts_all, bound_all, convert_all_lem}
use chakra_jxx.Jxx.Class.{JxxClass, query_class}
use chakra_jxx.Jxx.ExtObject.{
  World, NativeMethod, hold, drop_ref, get_jxx_object, call_on_object, stub_of_magic_method_of,
}

module _ {E : Type 0} (js : Jsrt E) (class_of : ℕ → JxxClass) where
  -- The end of a call, once the object is let go of.
  abbrev pub finish_on : ℕ → Outcome JsValueRef × World E → JsValueRef × World E
  finish_on p (o, w) = finish (o, drop_ref js p w)

  -- What a call on an object of the wrong class, or with an argument that is not accepted, or of a
  -- method, comes to.
  abbrev pub on_object :
      List ParamKind
      → NativeMethod js
      → ℕ
      → JsValueRef
      → Bool
      → JsValueRef
      → List JsValueRef
      → ℕ
      → World E
      → JsValueRef × World E
  on_object kinds method object callee is_new this args clsid w =
      elim (query_class (class_of object) clsid) [
        | none ↦ (nullptr, drop_ref js object (hold js object w))
        | some path ↦
            if accepts_all js w.engine kinds 0 args
            then (let info = call_of callee is_new this args clsid in
                finish_on object
                  (method object path info (bound_all info 0 kinds) (hold js object w)))
            else (nullptr, drop_ref js object (hold js object w))
      ]

  call_on_object_lem :
      (w : World E) (kinds : List ParamKind) (method : NativeMethod js) (object : ℕ)
      (callee : JsValueRef) (is_new : Bool) (this : JsValueRef) (args : List JsValueRef) (clsid : ℕ)
      → ReportsTypes js w.engine
      → throw_js_exception
          (call_on_object js class_of kinds method object (call_of callee is_new this args clsid) w)
        ≡ some (on_object kinds method object callee is_new this args clsid w)
  unfolding call_on_object throw_js_exception
  call_on_object_lem w kinds method object callee is_new this args clsid reports =
      ground
        (arith, convert_all_lem js w.engine reports kinds (call_of callee is_new this args clsid) 0)

  some_args :
      (w : World E) (kinds : List ParamKind) (method : NativeMethod js) (deny : ℕ)
      (callee : JsValueRef) (is_new : Bool) (this : JsValueRef) (args : List JsValueRef) (clsid : ℕ)
      → ReportsTypes js w.engine
      → stub_of_magic_method_of js class_of kinds method deny callee is_new
          (this ∷ args)
          (suc (length args))
          clsid
          w
        ≡ some (
            if (bit_and (if is_new then deny_new else deny_normal) deny == 0
                && test_bit (Mask.object js.types) (type_id js w.engine this))
              && (not (this == nullptr) && not (get_jxx_object js w.engine this == 0))
            then on_object kinds method
                (get_jxx_object js w.engine this)
                callee
                is_new
                this
                args
                clsid
                w
            else (nullptr, w))
  unfolding stub_of_magic_method_of
  some_args w kinds method deny callee is_new this args clsid reports = ground (
    arith,
    base_value-test_bit js w.engine reports (Mask.object js.types) true this,
    call_on_object_lem w kinds method (get_jxx_object js w.engine this) callee is_new this args
        clsid reports,
  )

  no_args :
      (w : World E) (kinds : List ParamKind) (method : NativeMethod js) (deny : ℕ)
      (callee : JsValueRef) (is_new : Bool) (arguments : List JsValueRef) (clsid : ℕ)
      → stub_of_magic_method_of js class_of kinds method deny callee is_new arguments 0 clsid w
        ≡ some (nullptr, w)
  unfolding stub_of_magic_method_of
  no_args w kinds method deny callee is_new arguments clsid = ground arith

  -- Where the engine's type numbers are small: no call reads anything outside its arguments. With
  -- at least its `this`, in a mode that the method does not deny, on a JavaScript object that
  -- stands for a C++ object of the class or of one that derives from it, and with an argument that
  -- each declared parameter accepts, it has the result of the method on that object and those
  -- arguments, null if it throws; the object is held before its class is asked for, and let go at
  -- the end. Otherwise the call answers null and changes nothing else. A call with no argument at
  -- all, not even `this`, answers null and changes nothing, whatever lies where its arguments would
  -- be.
  pub stub_of_magic_method_of_lem :
      (w : World E) (kinds : List ParamKind) (method : NativeMethod js) (deny : ℕ)
      (callee : JsValueRef) (is_new : Bool) (this : JsValueRef) (args elsewhere : List JsValueRef)
      (clsid : ℕ)
      → ReportsTypes js w.engine
      → (stub_of_magic_method_of js class_of kinds method deny callee is_new
            (this ∷ args)
            (suc (length args))
            clsid
            w
          ≡ some (
              if (bit_and (if is_new then deny_new else deny_normal) deny == 0
                  && test_bit (Mask.object js.types) (type_id js w.engine this))
                && (not (this == nullptr) && not (get_jxx_object js w.engine this == 0))
              then on_object kinds method
                  (get_jxx_object js w.engine this)
                  callee
                  is_new
                  this
                  args
                  clsid
                  w
              else (nullptr, w)))
        × (stub_of_magic_method_of js class_of kinds method deny callee is_new elsewhere 0 clsid w
            ≡ some (nullptr, w))
  stub_of_magic_method_of_lem w kinds method deny callee is_new this args elsewhere clsid reports =
      (
        some_args w kinds method deny callee is_new this args clsid reports,
        no_args w kinds method deny callee is_new elsewhere clsid,
      )
