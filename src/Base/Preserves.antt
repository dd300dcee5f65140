-- ===== src/Base/Preserves.antt =====
-- What code leaves as it is: a property of the state that holds before a block holds after it,
-- whether the block returns or throws.
use mathlib.Core.Bool.{Bool, true, false}
use chakra_jxx.Base.Tests.{if◌then◌else◌}
use chakra_jxx.Base.Exceptions.{Outcome, returned, thrown, Exec, bind_outcome, ◌>>=◌, pure}

module _ {S : Type 0} (P : S → Type 0) where
  abbrev pub Preserves : {A : Type 0} → Exec S A → Type 0
  Preserves m = (s : S) → P s → P (m s).1

  continued-Preserves :
      {A B : Type 0} (o : Outcome A) (s : S) (f : A → Exec S B)
      → ((a : A) → Preserves (f a))
      → P s
      → P (bind_outcome (o, s) f).1
  continued-Preserves (returned a) s f preserves p = preserves a s p
  continued-Preserves (thrown code) s f preserves p = p

  pub bind-Preserves :
      {A B : Type 0} (m : Exec S A) (f : A → Exec S B)
      → Preserves m
      → ((a : A) → Preserves (f a))
      → Preserves (m >>= f)
  bind-Preserves m f first then' s p = continued-Preserves (m s).0 (m s).1 f then' (first s p)

  pub if-holds : (b : Bool) (s t : S) → P s → P t → P (if b then s else t)
  if-holds true s t p q = p
  if-holds false s t p q = q

  pub if-Preserves :
      {A : Type 0} (b : Bool) (m k : Exec S A)
      → Preserves m
      → Preserves k
      → Preserves (if b then m else k)
  if-Preserves true m k first second = first
  if-Preserves false m k first second = second

-- Code that starts where `P` holds, and ends where `Q` does.
module _ {S : Type 0} (P Q : S → Type 0) where
  abbrev pub Leads : {A : Type 0} → Exec S A → Type 0
  Leads m = (s : S) → P s → Q (m s).1

  continued-Leads :
      {A B : Type 0} (o : Outcome A) (s : S) (f : A → Exec S B)
      → ((t : S) → P t → Q t)
      → ((a : A) → Leads (f a))
      → P s
      → Q (bind_outcome (o, s) f).1
  continued-Leads (returned a) s f weaken leads p = leads a s p
  continued-Leads (thrown code) s f weaken leads p = weaken s p

  -- The first block preserves `P`, and what follows leads on.
  pub bind-Leads :
      {A B : Type 0} (m : Exec S A) (f : A → Exec S B)
      → ((t : S) → P t → Q t)
      → Preserves P m
      → ((a : A) → Leads (f a))
      → Leads (m >>= f)
  bind-Leads m f weaken first leads s p = continued-Leads (m s).0 (m s).1 f weaken leads (first s p)

  ended-Leads :
      {A B : Type 0} (o : Outcome A) (s : S) (f : A → Exec S B)
      → ((a : A) → Preserves Q (f a))
      → Q s
      → Q (bind_outcome (o, s) f).1
  ended-Leads (returned a) s f preserves q = preserves a s q
  ended-Leads (thrown code) s f preserves q = q

  -- The first block leads on, and what follows preserves `Q`.
  pub then-Leads :
      {A B : Type 0} (m : Exec S A) (f : A → Exec S B)
      → Leads m
      → ((a : A) → Preserves Q (f a))
      → Leads (m >>= f)
  then-Leads m f leads preserves s p = ended-Leads (m s).0 (m s).1 f preserves (leads s p)

  pub if-Leads :
      {A : Type 0} (b : Bool) (m k : Exec S A) → Leads m → Leads k → Leads (if b then m else k)
  if-Leads true m k first second = first
  if-Leads false m k first second = second

module _ {S : Type 0} (P : S → Type 0) where
  -- Code together with the proof that it preserves `P`, built as the code is.
  pub record Safe (A : Type 0) : Type 0 where
    pub code : Exec S A
    pub safe : Preserves P code

  abbrev pub give : {A : Type 0} → A → Safe A
  give a = record { code = pure a; safe = λ s p. p }

  abbrev pub then_do : {A B : Type 0} → Safe A → (A → Safe B) → Safe B
  then_do m f = record {
    code = m.code >>= (λ a. (f a).code);
    safe = bind-Preserves P m.code (λ a. (f a).code) m.safe (λ a. (f a).safe);
  }

  abbrev pub either_way : {A : Type 0} → Bool → Safe A → Safe A → Safe A
  either_way b m k = record {
    code = if b then m.code else k.code;
    safe = if-Preserves P b m.code k.code m.safe k.safe;
  }

-- Code together with the proof that it leads from `P` to `Q`.
module _ {S : Type 0} (P Q : S → Type 0) (weaken : (t : S) → P t → Q t) where
  pub record Leading (A : Type 0) : Type 0 where
    pub code : Exec S A
    pub leads : Leads P Q code

  abbrev pub first_do : {A B : Type 0} → Safe P A → (A → Leading B) → Leading B
  first_do m f = record {
    code = m.code >>= (λ a. (f a).code);
    leads = bind-Leads P Q m.code (λ a. (f a).code) weaken m.safe (λ a. (f a).leads);
  }

  abbrev pub last_do : {A B : Type 0} → Leading A → (A → Safe Q B) → Leading B
  last_do m f = record {
    code = m.code >>= (λ a. (f a).code);
    leads = then-Leads P Q m.code (λ a. (f a).code) m.leads (λ a. (f a).safe);
  }

  abbrev pub lead_either : {A : Type 0} → Bool → Leading A → Leading A → Leading A
  lead_either b m k = record {
    code = if b then m.code else k.code;
    leads = if-Leads P Q b m.code k.code m.leads k.leads;
  }

  abbrev pub no_step : {A : Type 0} → Safe P A → Leading A
  no_step m = record { code = m.code; leads = λ s p. weaken (m.code s).1 (m.safe s p) }
