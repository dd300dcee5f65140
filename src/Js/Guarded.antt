-- ===== src/Js/Guarded.antt =====
-- js.base.h: `IF_EXCEPTION_RETURN`.
use chakra_jxx.Base.{Outcome, returned, thrown, Exec}

abbrev pub answer_or : {A S : Type 0} → A → Outcome A × S → A × S
answer_or d (returned a, s) = (a, s)
answer_or d (thrown code, s) = (d, s)

-- A block that answers with a default where it throws.
unfoldable pub if_exception_return : {A S : Type 0} → A → Exec S A → S → A × S
if_exception_return d block s = answer_or d (block s)
