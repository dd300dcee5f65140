-- ===== src/Base/Exceptions.antt =====
-- C++ exceptions as values: `js::exception_t` carries an `error_t`, a signed `int`.
use Prim.Native.Nat.{ℕ, zero, suc}
use mathlib.Core.Bool.{Bool, true, false}

-- `negsuc n` is -(n + 1).
pub data ℤ : Type 0 where
  pos : ℕ → ℤ
  negsuc : ℕ → ℤ

pub data Outcome {ℓ} (A : Type ℓ) : Type ℓ where
  returned : A → Outcome A
  thrown : ℤ → Outcome A

-- `CXX_EXCEPTION_IF(code, cond)`, before the code that follows it.
abbrev pub cxx_exception_if {ℓ} : {A : Type ℓ} → ℤ → Bool → Outcome A → Outcome A
cxx_exception_if code true rest = thrown code
cxx_exception_if code false rest = rest

-- Code that may throw, and that changes a state whether it throws or not.
abbrev pub Exec : Type 0 → Type 0 → Type 0
Exec S A = S → Outcome A × S

abbrev pub bind_outcome : {S A B : Type 0} → Outcome A × S → (A → Exec S B) → Outcome B × S
bind_outcome (returned a, s) f = f a s
bind_outcome (thrown code, s) f = (thrown code, s)

infixl 5 ◌>>=◌ ◌>>◌
abbrev pub ◌>>=◌ : {S A B : Type 0} → Exec S A → (A → Exec S B) → Exec S B
◌>>=◌ m f s = bind_outcome (m s) f

abbrev pub ◌>>◌ : {S B : Type 0} → Exec S (Unit {0}) → Exec S B → Exec S B
m >> k = m >>= λ _. k

abbrev pub pure : {S A : Type 0} → A → Exec S A
pure a s = (returned a, s)

-- `CXX_EXCEPTION_IF(code, cond)`.
abbrev pub throw_if : {S : Type 0} → ℤ → Bool → Exec S (Unit {0})
throw_if code true s = (thrown code, s)
throw_if code false s = (returned tt, s)

-- `JSERR_TO_EXCEPTION(err)`.
abbrev pub jserr_to_exception : {S : Type 0} → ℕ → Exec S (Unit {0})
jserr_to_exception zero s = (returned tt, s)
jserr_to_exception (suc err) s = (thrown (pos (suc err)), s)

-- A check that neither reads nor changes the state.
abbrev pub lift : {S A : Type 0} → Outcome A → Exec S A
lift o s = (o, s)
