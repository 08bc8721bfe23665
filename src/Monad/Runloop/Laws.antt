-- ===== src/Monad/Runloop/Laws.antt =====
-- The blocks that the main loop of runloop_monad finalizes.
use monad_fork.Prelude.{◌-◌, ◌≤◌, ℕ, zero, suc, ◌+◌, ◌≡◌, refl, ◌∙◌, [], ◌∷◌, arith, ap, ap₂, List}
use monad_fork.Ledger.Range.{ascending}
use monad_fork.Monad.Finalize.Laws.{rev_onto}
use monad_fork.Node.Views.{finalized_numbers}
use monad_fork.Node.Externals.{History}

-- The next `k` numbers from `a` on, one after the other in front.
abbrev pub numbers_up : ℕ → ℕ → List ℕ → List ℕ
numbers_up zero a acc = acc
numbers_up (suc k) a acc = numbers_up k (a + 1) (a ∷ acc)

abbrev pub newest : ℕ → List ℕ → ℕ
newest first [] = first
newest first (n ∷ rest) = n

pub rev_onto-ascending :
    (k a : ℕ) (acc : List ℕ) → rev_onto (ascending k a) acc ≡ numbers_up k a acc
rev_onto-ascending zero a acc = refl
rev_onto-ascending (suc k) a acc = rev_onto-ascending k (a + 1) (a ∷ acc)

newest-numbers_up :
    (first k a : ℕ) (acc : List ℕ)
    → newest first acc ≡ a
    → newest first (numbers_up k (a + 1) acc) ≡ a + k
newest-numbers_up first zero a acc e = omega (arith, e)
newest-numbers_up first (suc k) a acc e =
    omega (arith, newest-numbers_up first k (a + 1) ((a + 1) ∷ acc) refl)

numbers_up-add :
    (k m a : ℕ) (acc : List ℕ)
    → numbers_up m (a + k) (numbers_up k a acc) ≡ numbers_up (k + m) a acc
numbers_up-add zero m a acc =
    let e : a + zero ≡ a = omega arith in let f : zero + m ≡ m = omega arith in rw (e, f)
numbers_up-add (suc k) m a acc =
    let e : a + suc k ≡ a + 1 + k = omega arith in
    let f : suc k + m ≡ suc (k + m) = omega arith in
    rw (e, f) (numbers_up-add k m (a + 1) (a ∷ acc))

-- From `h` to `h'` the next blocks were finalized, without a gap, a repetition or a step back, and
-- none beyond `end_`.
abbrev pub Extends : ℕ → ℕ → History → History → Type 0
Extends first end_ h h' =
    (k : ℕ) × (finalized_numbers h'
      ≡ numbers_up k (newest first (finalized_numbers h) + 1) (finalized_numbers h))
    × (k ≤ end_ - newest first (finalized_numbers h))

module _ (first end_ : ℕ) where
  pub Extends-same :
      (h h' : History) → finalized_numbers h' ≡ finalized_numbers h → Extends first end_ h h'
  Extends-same h h' e = (0, e, omega arith)

  pub newest-Extends :
      (h h' : History) (x : Extends first end_ h h')
      → newest first (finalized_numbers h') ≡ newest first (finalized_numbers h) + x.0
  newest-Extends h h' (k, e, b) =
      ap (newest first) e
      ∙ newest-numbers_up first k (newest first (finalized_numbers h)) (finalized_numbers h) refl

  pub Extends-trans :
      (h h' h'' : History)
      → Extends first end_ h h'
      → Extends first end_ h' h''
      → Extends first end_ h h''
  Extends-trans h h' h'' (k, e, b) (m, f, c) =
      let a : ℕ = newest first (finalized_numbers h) in
      let top = newest-Extends h h' (k, e, b) in
      let next : newest first (finalized_numbers h') + 1 ≡ a + 1 + k = omega (arith, top) in
      (
        k + m,
        f ∙ ap₂ (λ x y. numbers_up m x y) next e ∙ numbers_up-add k m (a + 1) (finalized_numbers h),
        omega (arith, top),
      )
