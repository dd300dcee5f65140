-- ===== src/Jxx/Registry/Closing.antt =====
-- The handle that a script closes is the one that it was given.
use chakra_jxx.Base.{◌^◌, ◌≤◌, ◌≡◌, ◌==◌, if◌then◌else◌, returned, thrown, arith, String}
use chakra_jxx.Js.Jsrt.{Jsrt, JsValueRef, nullptr}
use chakra_jxx.Js.Primitive.{Doubles, get_void_ptr, get_as_string, void_ptr}
use chakra_jxx.Js.Primitive.Pointers.{Exact}
use chakra_jxx.Jxx.Registry.Keys.{RegCalls, error_syscall, reg_create_key, reg_close}

module _ {E R : Type 0} (js : Jsrt E) (d : Doubles) (calls : RegCalls R) where
  -- Where a `double` holds whole numbers up to 2 ^ 53, the engine reads back the numbers that it
  -- makes, and Windows gives handles up to that bound: `_RegClose` of the value that
  -- `_RegCreateKey` answered with closes the key that was made, and throws if Windows refuses it.
  pub reg_close-reg_create_key :
      (hkey subkey v h : JsValueRef) (path : String) (e : E) (r : R)
      → Exact js d
      → (get_void_ptr js d hkey e).0 ≡ returned h
      → (get_as_string js subkey e).0 ≡ returned path
      → (calls.reg_create_key_a r h path).1 ≤ 2 ^ 53
      → (reg_create_key js d calls hkey subkey (e, r)).0 ≡ returned v
      → let (err, out, r') = calls.reg_create_key_a r h path in
        let s' = (reg_create_key js d calls hkey subkey (e, r)).1 in
        let (err', r'') = calls.reg_close_key r' out in
        reg_close js d calls v s'
        ≡ (if err' == 0 then returned nullptr else thrown error_syscall, (s'.0, r''))
  unfolding reg_create_key reg_close get_void_ptr get_as_string void_ptr
  reg_close-reg_create_key hkey subkey v h path e r exact handle text small made =
      let out = (calls.reg_create_key_a r h path).1 in
      ground (
        arith,
        exact.exact out small,
        exact.made e (d.of_intptr out),
        exact.read e (d.of_intptr out),
      )
