-- ===== src/Base/Yields.antt =====
-- What code answers with, where it returns.
use mathlib.Core.Path.{◌≡◌, refl, ap, subst}
use native.Mathlib.Omega.{arith}
use chakra_jxx.Base.Exceptions.{Outcome, returned, thrown, Exec, bind_outcome, ◌>>=◌, pure}

pub returned_injective : {A : Type 0} (a b : A) → returned a ≡ returned b → a ≡ b
returned_injective a b h = ap (λ o. elim o [ returned x ↦ x | thrown code ↦ a ]) h

module _ {S : Type 0} where
  abbrev pub Yields : {A : Type 0} → (A → Type 0) → Exec S A → Type 0
  Yields Q m = (s : S) (a : _) → (m s).0 ≡ returned a → Q a

  pub pure-Yields : {A : Type 0} (Q : A → Type 0) (a : A) → Q a → Yields Q (pure a)
  pure-Yields Q a q s b h = subst Q (returned_injective a b h) q

  continued-Yields :
      {A B : Type 0} (P : A → Type 0) (Q : B → Type 0) (o : Outcome A) (s : S) (f : A → Exec S B)
      → ((a : A) → o ≡ returned a → P a)
      → ((a : A) → P a → Yields Q (f a))
      → (b : B) → (bind_outcome (o, s) f).0 ≡ returned b
      → Q b
  continued-Yields P Q (returned a) s f p q b h = q a (p a refl) s b h
  continued-Yields P Q (thrown code) s f p q b h = absurd (ground arith)

  pub bind-Yields :
      {A B : Type 0} (P : A → Type 0) (Q : B → Type 0) (m : Exec S A) (f : A → Exec S B)
      → Yields P m
      → ((a : A) → P a → Yields Q (f a))
      → Yields Q (m >>= f)
  bind-Yields P Q m f p q s b h = continued-Yields P Q (m s).0 (m s).1 f (p s) q b h
