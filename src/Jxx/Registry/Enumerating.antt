-- ===== src/Jxx/Registry/Enumerating.antt =====
-- Which names of a key a script's callback is called with.
use chakra_jxx.Base.{
  ℕ, suc, ◌≡◌, refl, String, true, false, List, [], ◌∷◌, length, arith, ◌>>=◌, pure, returned, ap,
  ℤ,
}
use chakra_jxx.Js.Jsrt.{Jsrt, JsValueRef, nullptr}
use chakra_jxx.Js.Array.{to_uint32}
use chakra_jxx.Js.Primitive.{Doubles, get_void_ptr, get_as_int}
use chakra_jxx.Jxx.Registry.{enum_from, reg_enum_key}
use chakra_jxx.Jxx.Registry.Enumerate.{
  KeyInfo, Names, EnumCalls, incremented, ask, enum_names, reg_enum_key_call,
}

-- The registry lists `names` from index `i` on, and is not changed by being read.
abbrev pub Lists : {R : Type 0} → Names R → ℕ → ℕ → ℕ → List String → Type 0
Lists calls h room i [] = Unit
Lists {R} calls h room i (name ∷ names) =
    ((r : R) → calls r h i room ≡ (0, name, r)) × Lists calls h room (suc i) names

module _ {E R : Type 0} (js : Jsrt E)
    (script : JsValueRef → List JsValueRef → E × R → ℕ × JsValueRef × (E × R)) where
  enum_names-Lists :
      (callback : JsValueRef) (calls : Names R) (h room i : ℕ) (names : List String)
      → Lists calls h room i names
      → enum_names js script callback calls h room (length names) i
        ≡ enum_from (ask js script callback) i names
  unfolding enum_names enum_from
  enum_names-Lists callback calls h room i [] lists = refl
  enum_names-Lists callback calls h room i (name ∷ names) lists =
      let rest = enum_names-Lists callback calls h room (suc i) names lists.1 in
      let step : (s : E × R)
          → enum_names js script callback calls h room (suc (length names)) i s
            ≡ enum_from (ask js script callback) i (name ∷ names) s =
        λ s. rw (lists.0 s.1) (
          ap
            (λ rest.
              (ask js script callback i name >>= (λ b. elim b [ true ↦ pure tt | false ↦ rest ])) s)
            rest) in
      λ k s. step s k

  enum_names-counted :
      (callback : JsValueRef) (calls : Names R) (h room n : ℕ) (names : List String)
      → n ≡ length names
      → Lists calls h room 0 names
      → enum_names js script callback calls h room n 0 ≡ enum_from (ask js script callback) 0 names
  enum_names-counted callback calls h room n names same lists =
      rw same (enum_names-Lists callback calls h room 0 names lists)

  -- The key has `subkeys` and `values`, whatever the callback has done.
  pub record HasNames (calls : EnumCalls R) (h : ℕ) (subkeys values : List String) : Type 0 where
    pub info : KeyInfo
    pub informs : (r : R) → calls.reg_query_info_key_a r h ≡ (0, info, r)
    pub sub_keys_length : info.sub_keys ≡ length subkeys
    pub values_length : info.values ≡ length values
    pub lists_subkeys : Lists calls.reg_enum_key_a h (incremented info.max_sub_key_len) 0 subkeys
    pub lists_values : Lists calls.reg_enum_value_a h (incremented info.max_value_name_len) 0 values

  module _ (d : Doubles) (calls : EnumCalls R) where
    -- Where the registry lists the names that it counts, and neither reading them nor the callback
    -- changes them, `_RegEnumKey` is the loops over those names: it asks the callback for each name
    -- with its index, in order, the subkeys for bit 0 of the mode and the values for bit 1, until
    -- an answer that is true as a boolean, and answers null.
    pub reg_enum_key_call_lem :
        (hkey mode callback h : JsValueRef) (mode_ : ℤ) (subkeys values : List String) (e : E)
        (r : R)
        → (get_void_ptr js d hkey e).0 ≡ returned h
        → (get_as_int js mode e).0 ≡ returned mode_
        → HasNames calls h subkeys values
        → reg_enum_key_call js script d calls hkey mode callback (e, r)
          ≡ (reg_enum_key (ask js script callback) (to_uint32 mode_) subkeys values
                >>= (λ _. pure nullptr))
              (e, r)
    unfolding reg_enum_key_call reg_enum_key
    reg_enum_key_call_lem hkey mode callback h mode_ subkeys values e r handle asked has = grind (
      arith,
      handle,
      asked,
      has.informs r,
      enum_names-counted callback calls.reg_enum_key_a h (incremented has.info.max_sub_key_len)
          has.info.sub_keys subkeys has.sub_keys_length has.lists_subkeys,
      enum_names-counted callback calls.reg_enum_value_a h (incremented has.info.max_value_name_len)
          has.info.values values has.values_length has.lists_values,
    )
