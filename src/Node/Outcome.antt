-- ===== src/Node/Outcome.antt =====
-- category's `Result<T>` with the process ends that the runners add: BOOST_OUTCOME_TRY returns the
-- error, MONAD_ASSERT and MONAD_ABORT end the process.
use monad_fork.Prelude.{none, some, Option, ℕ, Bool, true, false}

-- The errors that cmd/monad names itself; `external` is any other code of the libraries.
pub data Error : Type 0 where
  missing_sender wrong_ommers_hash wrong_merkle_root gas_above_limit : Error
  external : ℕ → Error

pub data Outcome {ℓ} (A : Type ℓ) : Type ℓ where
  ok : A → Outcome A
  err : Error → Outcome A
  abort : Outcome A

abbrev pub and_then {ℓ κ} : {A : Type ℓ} {B : Type κ} → Outcome A → (A → Outcome B) → Outcome B
and_then (ok a) f = f a
and_then (err e) f = err e
and_then abort f = abort

-- MONAD_ASSERT as an outcome
abbrev pub assert_that : Bool → Outcome (Unit {0})
assert_that true = ok tt
assert_that false = abort

-- a value that MONAD_ASSERT wants to be there
abbrev pub or_abort {ℓ} : {A : Type ℓ} → Option A → Outcome A
or_abort none = abort
or_abort (some a) = ok a
