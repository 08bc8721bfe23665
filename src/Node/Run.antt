-- ===== src/Node/Run.antt =====
-- The state monad of the runners: an action sees the history and extends it.
use monad_fork.Node.Externals.{ExecuteArgs, Executed, execute, Externals, Call, History}
use monad_fork.Prelude.{Bool, ◌∷◌}
use monad_fork.Node.Outcome.{Outcome, ok, err, abort, assert_that}

abbrev pub Run {ℓ} : Type ℓ → Type ℓ
Run A = History → Outcome A × History

infixl 5 ◌>>=◌ ◌>>◌
abbrev pub ◌>>=◌ {ℓ κ} : {A : Type ℓ} {B : Type κ} → Run A → (A → Run B) → Run B
◌>>=◌ m f h =
    let (r, h') = m h in elim r [ ok a ↦ f a h' | err e ↦ (err e, h') | abort ↦ (abort, h') ]

abbrev pub ◌>>◌ {ℓ} : {B : Type ℓ} → Run (Unit {0}) → Run B → Run B
m >> k = m >>= λ _. k

abbrev pub pure {ℓ} : {A : Type ℓ} → A → Run A
pure a h = (ok a, h)

-- BOOST_OUTCOME_TRY on a value that is at hand
abbrev pub try_ {ℓ} : {A : Type ℓ} → Outcome A → Run A
try_ r h = (r, h)

abbrev pub call : Call → Run (Unit {0})
call c h = (ok tt, c ∷ h)

abbrev pub asks {ℓ} : {A : Type ℓ} → (History → A) → Run A
asks f h = (ok (f h), h)

abbrev pub asserts : Bool → Run (Unit {0})
asserts b = try_ (assert_that b)

-- execute_block: the call is made, and its answer may be an error
unfoldable pub run_block : Externals → ExecuteArgs → Run Executed
run_block ext args h = (ext.execute_block args h, execute args ∷ h)
