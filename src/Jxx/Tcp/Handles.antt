-- ===== src/Jxx/Tcp/Handles.antt =====
-- Each read and each write that waits counts as a reference to its socket and to its buffer.
use chakra_jxx.Base.{
  ℕ, ◌+◌, ◌-◌, ◌≡◌, ◌≢◌, ◌∙◌, Bool, List, [], ◌∷◌, ◌++◌, if◌then◌else◌, arith, Exec, returned,
  ◌>>=◌, pure,
}
use chakra_jxx.Base.Holders.{one_if}
use chakra_jxx.Base.Preserves.{bind-Preserves, if-Preserves}
use chakra_jxx.Js.Jsrt.{Jsrt, JsValueRef, nullptr}
use chakra_jxx.Js.Durable
use chakra_jxx.Js.Durable.Balance.{Counts}
use chakra_jxx.Jxx.Tcp.{Operation, reading, reading_on, writing, Net, on_engine, releasing, durable}
use chakra_jxx.Jxx.Tcp.Sockets.{post}

-- The references that the callback of an operation has to `v`.
abbrev pub held_by : ℕ → Operation → ℕ
held_by v (reading socket buffer content) = one_if v socket + one_if v buffer
held_by v (reading_on socket buffer content size) = one_if v socket + one_if v buffer
held_by v (writing socket buffer content) = one_if v socket + one_if v buffer

unfoldable pub held : ℕ → List Operation → ℕ
held v [] = 0
held v (op ∷ ops) = held_by v op + held v ops

pub held-append :
    (v : ℕ) (ops others : List Operation) → held v (ops ++ others) ≡ held v ops + held v others
unfolding held
held-append v [] others = omega arith
held-append v (op ∷ ops) others = omega (arith, held-append v ops others)

module _ {E : Type 0} (js : Jsrt E) (refs : E → JsValueRef → ℕ) where
  -- Code that changes no count.
  abbrev pub IsQuiet : {A : Type 0} → Exec E A → Type 0
  IsQuiet m = (e : E) (v : JsValueRef) → refs (m e).1 v ≡ refs e v

  module _ (counts : Counts js refs) where
    pub hold-refs :
        (e : E) (v w : JsValueRef)
        → w ≢ nullptr
        → refs (Durable.add_ref js e v).1 w ≡ refs e w + one_if w v
    unfolding Durable.add_ref
    hold-refs e v w n = ground (arith, counts.refs_add_ref e v w)

    pub drop-refs :
        (e : E) (v w : JsValueRef)
        → w ≢ nullptr
        → refs (Durable.release js e v).1 w ≡ refs e w - one_if w v
    unfolding Durable.release
    drop-refs e v w n = ground (arith, counts.refs_release e v w)

module _ {E P S : Type 0} (js : Jsrt E) (refs : E → JsValueRef → ℕ) where
  -- `others` counts the references that belong to somebody else.
  abbrev pub IsCounted : (JsValueRef → ℕ) → Net E P S → Type 0
  IsCounted others s =
      (v : JsValueRef) → v ≢ nullptr → refs s.host.engine v ≡ others v + held v s.pending

  -- Code that keeps the counts right.
  abbrev pub IsFair : {A : Type 0} → Exec (Net E P S) A → Type 0
  IsFair m =
      (others : JsValueRef → ℕ) (s : Net E P S) → IsCounted others s → IsCounted others (m s).1

  pub on_engine-IsFair : {A : Type 0} (m : Exec E A) → IsQuiet js refs m → IsFair (on_engine js m)
  on_engine-IsFair m quiet others s c v n = quiet s.host.engine v ∙ c v n

  pub bind-IsFair :
      {A B : Type 0} (m : Exec (Net E P S) A) (f : A → Exec (Net E P S) B)
      → IsFair m
      → ((a : A) → IsFair (f a))
      → IsFair (m >>= f)
  bind-IsFair m f first then' others =
      bind-Preserves (IsCounted others) m f (first others) (λ a. then' a others)

  pub if-IsFair :
      {A : Type 0} (b : Bool) (m k : Exec (Net E P S) A)
      → IsFair m
      → IsFair k
      → IsFair (if b then m else k)
  if-IsFair b m k first second others =
      if-Preserves (IsCounted others) b m k (first others) (second others)

  module _ (counts : Counts js refs) where
    -- What a block gives up at its end is its own.
    pub releasing-IsCounted :
        {A : Type 0} (w : JsValueRef) (m : Exec (Net E P S) A) (others : JsValueRef → ℕ)
        (s : Net E P S)
        → IsFair m
        → IsCounted (λ v. others v + one_if v w) s
        → IsCounted others (releasing js w m s).1
    releasing-IsCounted w m others s fair c v n = omega (
      arith,
      drop-refs js refs counts (m s).1.host.engine w v n,
      fair (λ u. others u + one_if u w) s c v n,
    )

    pub durable-IsFair :
        {A : Type 0} (w : JsValueRef) (m : Exec (Net E P S) A) → IsFair m → IsFair (durable js w m)
    durable-IsFair w m fair others s c =
        releasing-IsCounted w m others _ fair
          λ v n. omega (arith, hold-refs js refs counts s.host.engine w v n, c v n)

    pub post-IsFair : (op : Operation) → IsFair (λ s. (returned tt, post js op s))
    unfolding held
    post-IsFair (reading socket buffer content) others s c v n = omega (
      arith,
      c v n,
      hold-refs js refs counts s.host.engine socket v n,
      hold-refs js refs counts (Durable.add_ref js s.host.engine socket).1 buffer v n,
      held-append v s.pending (reading socket buffer content ∷ []),
    )
    post-IsFair (reading_on socket buffer content size) others s c v n = omega (
      arith,
      c v n,
      hold-refs js refs counts s.host.engine socket v n,
      hold-refs js refs counts (Durable.add_ref js s.host.engine socket).1 buffer v n,
      held-append v s.pending (reading_on socket buffer content size ∷ []),
    )
    post-IsFair (writing socket buffer content) others s c v n = omega (
      arith,
      c v n,
      hold-refs js refs counts s.host.engine socket v n,
      hold-refs js refs counts (Durable.add_ref js s.host.engine socket).1 buffer v n,
      held-append v s.pending (writing socket buffer content ∷ []),
    )

module _ {E : Type 0} (P S : Type 0) (js : Jsrt E) (refs : E → JsValueRef → ℕ) where
  -- Code together with the proof that it keeps the counts right, built as the code is.
  pub record Fair (A : Type 0) : Type 0 where
    pub code : Exec (Net E P S) A
    pub fair : IsFair {P = P} {S = S} js refs code

  abbrev pub engine_call : {A : Type 0} (m : Exec E A) → IsQuiet js refs m → Fair A
  engine_call m quiet = record { code = on_engine js m; fair = on_engine-IsFair js refs m quiet }

  abbrev pub give : {A : Type 0} → A → Fair A
  give a = record { code = pure a; fair = λ others s c. c }

  abbrev pub then_do : {A B : Type 0} → Fair A → (A → Fair B) → Fair B
  then_do p f = record {
    code = p.code >>= (λ a. (f a).code);
    fair = bind-IsFair js refs p.code (λ a. (f a).code) p.fair (λ a. (f a).fair);
  }

  abbrev pub either_way : {A : Type 0} → Bool → Fair A → Fair A → Fair A
  either_way b p q = record {
    code = if b then p.code else q.code;
    fair = if-IsFair js refs b p.code q.code p.fair q.fair;
  }

  module _ (counts : Counts js refs) where
    abbrev pub with_durable : {A : Type 0} → JsValueRef → Fair A → Fair A
    with_durable w p = record {
      code = durable js w p.code;
      fair = durable-IsFair js refs counts w p.code p.fair;
    }

    abbrev pub post_it : Operation → Fair (Unit {0})
    post_it op = record {
      code = λ s. (returned tt, post js op s);
      fair = post-IsFair js refs counts op;
    }
