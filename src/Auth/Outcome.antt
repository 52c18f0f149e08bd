-- ===== src/Auth/Outcome.antt =====
-- The result of a call that may fail or panic.
pub data Outcome (E A : Type 0) : Type 0 where
  done : A → Outcome E A
  failed : E → Outcome E A
  panicked : Outcome E A
