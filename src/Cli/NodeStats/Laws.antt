-- ===== src/Cli/NodeStats/Laws.antt =====
-- The statistics count every visited node once.
use monad_fork.Prelude.{
  suc, ◌+◌, ◌≡◌, refl, true, false, [], ◌∷◌, arith, if◌then◌else◌, ℕ, Bool, List,
}
use monad_fork.Cli.NodeStats.{
  Visit, down, up, clone, path_at, same_path, Metadata, increment, Traverse, visit, traverse,
  ends_in_value, totals,
}

abbrev pub downs : List Visit → ℕ
downs [] = 0
downs (down i b ∷ visits) = suc (downs visits)
downs (up i ∷ visits) = downs visits
downs (clone i ∷ visits) = downs visits

abbrev pub values : List Visit → ℕ
values [] = 0
values (down i true ∷ visits) = suc (values visits)
values (down i false ∷ visits) = values visits
values (up i ∷ visits) = values visits
values (clone i ∷ visits) = values visits

same_path-ends : (p q : List Bool) → same_path p q ≡ true → ends_in_value p ≡ ends_in_value q
unfolding same_path
same_path-ends [] [] e = refl
same_path-ends [] (b ∷ q) e = cc
same_path-ends (true ∷ p) [] e = cc
same_path-ends (false ∷ p) [] e = cc
same_path-ends (true ∷ p) (true ∷ q) e = refl
same_path-ends (true ∷ p) (false ∷ q) e = cc
same_path-ends (false ∷ p) (true ∷ q) e = cc
same_path-ends (false ∷ p) (false ∷ q) e = refl

-- One more node, at a leaf or at a branch.
totals-increment :
    (path : List Bool) (metadata : Metadata)
    → let t = totals metadata in
      totals (increment path metadata) ≡ (
        if ends_in_value path
        then record { total = t.total + 1; leaves = t.leaves + 1; branches = t.branches }
        else record { total = t.total + 1; leaves = t.leaves; branches = t.branches + 1 })
unfolding totals increment
totals-increment path [] = ground arith
totals-increment path ((key, count) ∷ metadata) =
    ground (arith, totals-increment path metadata, same_path-ends key path)

traverse-totals :
    (t : Traverse) (visits : List Visit)
    → ((totals (traverse t visits).metadata).total ≡ (totals t.metadata).total + downs visits)
      × ((totals (traverse t visits).metadata).leaves ≡ (totals t.metadata).leaves + values visits)
unfolding traverse visit
traverse-totals t [] = (omega arith, omega arith)
traverse-totals t (up i ∷ visits) = traverse-totals (visit t (up i)) visits
traverse-totals t (clone i ∷ visits) = traverse-totals (visit t (clone i)) visits
traverse-totals t (down i true ∷ visits) = ground (
  arith,
  totals-increment (true ∷ path_at i t.had_values) t.metadata,
  traverse-totals (visit t (down i true)) visits,
)
traverse-totals t (down i false ∷ visits) = ground (
  arith,
  totals-increment (false ∷ path_at i t.had_values) t.metadata,
  traverse-totals (visit t (down i false)) visits,
)

totals-add : (metadata : Metadata) → let t = totals metadata in t.total ≡ t.leaves + t.branches
unfolding totals
totals-add [] = refl
totals-add ((key, count) ∷ metadata) = ground (arith, totals-add metadata)

abbrev pub fresh : Traverse
fresh = record { metadata = []; had_values = [] ∷ [] }

-- The total is the number of nodes that the traversal went down to, the leaves are those of them that
-- have a value, and the branches are the rest: nodes on equal paths share an entry and are all counted.
pub node_stats_lem :
    (visits : List Visit)
    → let t = totals (traverse fresh visits).metadata in
      (t.total ≡ downs visits)
      × (t.leaves ≡ values visits)
      × (t.branches + values visits ≡ downs visits)
unfolding totals
node_stats_lem visits =
    let sums = traverse-totals fresh visits in
    let parts = totals-add (traverse fresh visits).metadata in
    (omega (arith, sums.0), omega (arith, sums.1), omega (arith, sums.0, sums.1, parts))
