-- ===== src/Cli/Report/Order.antt =====
-- The order of the entries of node_stats.
use monad_fork.Prelude.{◌≡◌, refl, ◌∙◌, true, false, [], ◌∷◌, arith, ℕ, ap, ap₂, Bool, List, sym}
use monad_fork.Cli.Report.{greater_bits, greater, insert_sorted}
use monad_fork.Cli.NodeStats.{Metadata}
use mathlib.Core.List.{reverse, reverse-reverse}

greater_bits-asymm : (p q : List Bool) → greater_bits p q ≡ true → greater_bits q p ≡ false
unfolding greater_bits
greater_bits-asymm [] q e = cc
greater_bits-asymm (b ∷ p) [] e = refl
greater_bits-asymm (true ∷ p) (true ∷ q) e = greater_bits-asymm p q e
greater_bits-asymm (true ∷ p) (false ∷ q) e = refl
greater_bits-asymm (false ∷ p) (true ∷ q) e = cc
greater_bits-asymm (false ∷ p) (false ∷ q) e = greater_bits-asymm p q e

greater_bits-connected :
    (p q : List Bool) → greater_bits p q ≡ false → greater_bits q p ≡ false → p ≡ q
unfolding greater_bits
greater_bits-connected [] [] e f = refl
greater_bits-connected [] (b ∷ q) e f = cc
greater_bits-connected (b ∷ p) [] e f = cc
greater_bits-connected (true ∷ p) (true ∷ q) e f = ap (◌∷◌ true) (greater_bits-connected p q e f)
greater_bits-connected (true ∷ p) (false ∷ q) e f = cc
greater_bits-connected (false ∷ p) (true ∷ q) e f = cc
greater_bits-connected (false ∷ p) (false ∷ q) e f = ap (◌∷◌ false) (greater_bits-connected p q e f)

-- What is below one path is below every other that is not below the first.
greater_bits-below :
    (p q r : List Bool)
    → greater_bits p r ≡ true
    → greater_bits p q ≡ false
    → greater_bits q r ≡ true
unfolding greater_bits
greater_bits-below [] q r e f = cc
greater_bits-below (b ∷ p) [] r e f = cc
greater_bits-below (true ∷ p) (c ∷ q) [] e f = refl
greater_bits-below (false ∷ p) (c ∷ q) [] e f = refl
greater_bits-below (true ∷ p) (true ∷ q) (true ∷ r) e f = greater_bits-below p q r e f
greater_bits-below (true ∷ p) (true ∷ q) (false ∷ r) e f = refl
greater_bits-below (true ∷ p) (false ∷ q) (d ∷ r) e f = cc
greater_bits-below (false ∷ p) (true ∷ q) (true ∷ r) e f = cc
greater_bits-below (false ∷ p) (true ∷ q) (false ∷ r) e f = refl
greater_bits-below (false ∷ p) (false ∷ q) (true ∷ r) e f = cc
greater_bits-below (false ∷ p) (false ∷ q) (false ∷ r) e f = greater_bits-below p q r e f

abbrev pub Entry : Type 0
Entry = List Bool × ℕ

pub greater-asymm : (x y : Entry) → greater x y ≡ true → greater y x ≡ false
unfolding greater
greater-asymm (p, c) (q, d) e = ground (arith, greater_bits-asymm (reverse p) (reverse q))

greater-connected : (x y : Entry) → greater x y ≡ false → greater y x ≡ false → x ≡ y
unfolding greater
greater-connected (p, c) (q, d) e f =
    let same : c ≡ d = ground arith in
    let turned : reverse p ≡ reverse q =
      greater_bits-connected (reverse p) (reverse q) (ground arith) (ground arith) in
    let paths : p ≡ q = sym (reverse-reverse p) ∙ ap reverse turned ∙ reverse-reverse q in
    ap₂ (λ x y. (x, y)) paths same

pub greater-below : (x y z : Entry) → greater x z ≡ true → greater x y ≡ false → greater y z ≡ true
unfolding greater
greater-below (p, c) (q, d) (r, m) e f =
    ground (arith, greater_bits-below (reverse p) (reverse q) (reverse r))

pub insert_sorted_comm :
    (x y : Entry) (l : Metadata)
    → insert_sorted x (insert_sorted y l) ≡ insert_sorted y (insert_sorted x l)
unfolding insert_sorted
insert_sorted_comm x y [] = ground (arith, greater-asymm x y, greater-connected x y)
insert_sorted_comm x y (z ∷ l) = ground (
  arith,
  insert_sorted_comm x y l,
  greater-asymm x y,
  greater-connected x y,
  greater-below z x y,
  greater-below z y x,
)
