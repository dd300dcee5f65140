-- ===== src/Jxx/Class/Mixin.antt =====
-- What `JxxMixinObject` does to an object: one property after the other.
use chakra_jxx.Base.{
  ℕ, String, Bool, true, false, ◌≡◌, ◌≢◌, refl, ap, ◌∙◌, sym, List, [], ◌∷◌, ◌++◌, ◌==◌,
  if◌then◌else◌, arith, bit_and, pos, pure, returned,
}
use chakra_jxx.Js.Jsrt.{Jsrt, JsValueRef, nullptr}
use chakra_jxx.Js.Mask
use chakra_jxx.Js.Value.{base_value}
use chakra_jxx.Js.Primitive.{just_string}
use chakra_jxx.Js.Object.{property_id, set_property}
use chakra_jxx.Jxx.Evaluate.{object}
use chakra_jxx.Jxx.Class.{
  Export, JxxClass, jxx_class, Parents, no_parents, parent, mixin_method, mixin_function,
  mixin_exports, mixin_object, mixin_parents,
}

-- An export, and the class whose identifier its function gets.
abbrev pub Entry : Type 0
Entry = ℕ × Export

abbrev entries : ℕ → List Export → List Entry
entries id [] = []
entries id (x ∷ xs) = (id, x) ∷ entries id xs

abbrev mutual
  -- What a class and its parents export, the parents first.
  pub exports_of : JxxClass → ℕ → List Entry
  exports_of (jxx_class id methods functions ps) options =
      exports_of_parents ps options
      ++ ((if bit_and options mixin_method == 0 then [] else entries id methods)
          ++ (if bit_and options mixin_function == 0 then [] else entries id functions))

  pub exports_of_parents : Parents → ℕ → List Entry
  exports_of_parents no_parents options = []
  exports_of_parents (parent c ps) options = exports_of c options ++ exports_of_parents ps options

module _ {E : Type 0} (js : Jsrt E) (target : JsValueRef) where
  -- The property of one entry.
  abbrev pub define : Entry → E → E
  define (id, x) e =
      let (err, name, e1) = js.create_string e x.name in
      let (err', fn, e2) = js.create_named_function e1 name x.callee id in
      let (err'', pid, e3) = js.create_property_id e2 x.name in (js.set_property e3 target pid fn).1

  abbrev pub define_all : List Entry → E → E
  define_all [] e = e
  define_all (x ∷ xs) e = define_all xs (define x e)

  -- The engine has memory, its functions are functions, and the target is an object.
  pub record Works : Type 0 where
    pub is_object :
        (e : E) → base_value js e (Mask.any_object js.types) true target ≡ returned target
    pub not_null : target ≢ nullptr
    pub string : (e : E) (s : String) → (js.create_string e s).0 ≡ 0
    pub string_not_null : (e : E) (s : String) → (js.create_string e s).1 ≢ nullptr
    pub function :
        (e : E) (name callee id : ℕ)
        → (let (err, out, e') = js.create_named_function e name callee id in
            base_value js e' (Mask.function js.types) true out ≡ returned out)
    pub function_not_null :
        (e : E) (name callee id : ℕ) → (js.create_named_function e name callee id).1 ≢ nullptr

  define_all-append :
      (xs ys : List Entry) (e : E) → define_all (xs ++ ys) e ≡ define_all ys (define_all xs e)
  define_all-append [] ys e = refl
  define_all-append (x ∷ xs) ys e = define_all-append xs ys (define x e)

  module _ (works : Works) where
    mixin_exports-define :
        (id : ℕ) (xs : List Export) (e : E)
        → mixin_exports js target id xs e ≡ (returned true, define_all (entries id xs) e)
    unfolding mixin_exports just_string property_id set_property
    mixin_exports-define id [] e = refl
    mixin_exports-define id (x ∷ xs) e =
        let made = js.create_string e x.name in
        let fn = js.create_named_function made.2 made.1 x.callee id in
        ground (
          arith,
          works.string e x.name,
          works.string_not_null e x.name,
          works.function made.2 made.1 x.callee id,
          works.function_not_null made.2 made.1 x.callee id,
          mixin_exports-define id xs (define (id, x) e),
        )

    wanted-define :
        (skip : Bool) (id : ℕ) (xs : List Export) (e : E)
        → (if skip then pure true else mixin_exports js target id xs) e
          ≡ (returned true, define_all (if skip then [] else entries id xs) e)
    wanted-define true id xs e = refl
    wanted-define false id xs e = mixin_exports-define id xs e

    mixin_no_parents :
        (options : ℕ) (e : E) → mixin_parents js target no_parents options e ≡ (returned (pos 0), e)
    unfolding mixin_object
    mixin_no_parents options e = refl

    mixin_parent :
        (c : JxxClass) (ps : Parents) (options : ℕ) (e : E)
        → mixin_object js target c options e
          ≡ (returned (pos 0), define_all (exports_of c options) e)
        → mixin_parents js target ps options (define_all (exports_of c options) e) ≡ (
          returned (pos 0),
          define_all (exports_of_parents ps options) (define_all (exports_of c options) e),
        )
        → mixin_parents js target (parent c ps) options e
          ≡ (returned (pos 0), define_all (exports_of_parents (parent c ps) options) e)
    unfolding mixin_object
    mixin_parent c ps options e h later = rw h (
        later
        ∙ ap (λ (final : E). (returned (pos 0), final))
            (sym (define_all-append (exports_of c options) (exports_of_parents ps options) e)))

    mixin_object-parents :
        (id : ℕ) (methods functions : List Export) (ps : Parents) (options : ℕ) (e : E)
        → mixin_parents js target ps options e
          ≡ (returned (pos 0), define_all (exports_of_parents ps options) e)
        → mixin_object js target (jxx_class id methods functions ps) options e ≡ (
          returned (pos 0),
          define_all (exports_of (jxx_class id methods functions ps) options) e,
        )
    unfolding mixin_object object
    mixin_object-parents id methods functions ps options e h =
        let inherited = exports_of_parents ps options in
        let no_methods = bit_and options mixin_method == 0 in
        let no_functions = bit_and options mixin_function == 0 in
        let own = if no_methods then [] else entries id methods in
        let static = if no_functions then [] else entries id functions in
        let e' = define_all inherited e in
        let given : (target == nullptr) ≡ false = ground (arith, works.not_null) in
        rw (works.is_object e, given, h)
          (rw (wanted-define no_methods id methods e') (
            rw (wanted-define no_functions id functions (define_all own e')) (
              ap (λ (final : E). (returned (pos 0), final))
                (sym (
                  define_all-append inherited (own ++ static) e
                  ∙ define_all-append own static e')))))

    mutual
      mixin_object-define :
          (c : JxxClass) (options : ℕ) (e : E)
          → mixin_object js target c options e
            ≡ (returned (pos 0), define_all (exports_of c options) e)
      mixin_object-define (jxx_class id methods functions ps) options e =
          mixin_object-parents id methods functions ps options e (mixin_parents-define ps options e)

      mixin_parents-define :
          (ps : Parents) (options : ℕ) (e : E)
          → mixin_parents js target ps options e
            ≡ (returned (pos 0), define_all (exports_of_parents ps options) e)
      mixin_parents-define no_parents options e = mixin_no_parents options e
      mixin_parents-define (parent c ps) options e =
          mixin_parent c ps options e (mixin_object-define c options e)
            (mixin_parents-define ps options (define_all (exports_of c options) e))

  -- Where the engine does not fail, mixing a class in succeeds, and defines the exports of its
  -- parents, at every depth, before its own methods and then functions, as the options ask. Each
  -- function gets the identifier of the class that exports it.
  pub mixin_object_lem :
      (c : JxxClass) (options : ℕ) (e : E)
      → Works
      → mixin_object js target c options e ≡ (returned (pos 0), define_all (exports_of c options) e)
  mixin_object_lem c options e works = mixin_object-define works c options e
