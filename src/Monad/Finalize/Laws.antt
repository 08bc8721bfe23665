-- ===== src/Monad/Finalize/Laws.antt =====
-- The blocks of to_finalize are finalized in their order.
use monad_fork.Prelude.{◌≡◌, refl, [], ◌∷◌, arith, ℕ, List}
use monad_fork.Monad.Reading.{ToFinalize}
use monad_fork.Monad.Finalize.{finalize_one, finalize_all}
use monad_fork.Node.Views.{finalized_numbers}
use monad_fork.Node.Externals.{History, Externals}
use monad_fork.Node.Outcome.{ok}

abbrev pub blocks : List ToFinalize → List ℕ
blocks [] = []
blocks (t ∷ rest) = t.block ∷ blocks rest

-- One after the other in front.
abbrev pub rev_onto : List ℕ → List ℕ → List ℕ
rev_onto [] acc = acc
rev_onto (n ∷ rest) acc = rev_onto rest (n ∷ acc)

abbrev pub last_or : ℕ → List ℕ → ℕ
last_or n [] = n
last_or n (m ∷ rest) = last_or m rest

finalize_one_lem :
    (ext : Externals) (t : ToFinalize) (h : History)
    → (finalized_numbers (finalize_one ext t h).1 ≡ t.block ∷ finalized_numbers h)
      × ((finalize_one ext t h).0 ≡ ok tt)
unfolding finalize_one finalized_numbers
finalize_one_lem ext t h = (ground arith, ground arith)

-- Finalizing cannot fail; it finalizes every block of the list, in its order, and leaves the number
-- of the last one.
pub finalize_all_lem :
    (ext : Externals) (ts : List ToFinalize) (n : ℕ) (h : History)
    → (finalized_numbers (finalize_all ext ts n h).1 ≡ rev_onto (blocks ts) (finalized_numbers h))
      × ((finalize_all ext ts n h).0 ≡ ok (last_or n (blocks ts)))
unfolding finalize_all
finalize_all_lem ext [] n h = (refl, refl)
finalize_all_lem ext (t ∷ rest) n h =
    let one = finalize_one_lem ext t h in
    let more = finalize_all_lem ext rest t.block (finalize_one ext t h).1 in
    (ground (arith, one, more), ground (arith, one, more))
