-- ===== src/Cli/NodeStats.antt =====
-- do_node_stats of cmd/monad_cli.cpp: the Traverse machine and the totals. A path is the list of
-- has_value() from the node up to the root, so its head is had_values_.back().
pub mod Laws
use monad_fork.Prelude.{
  zero, suc, ◌++◌, ◌+◌, true, false, [], ◌∷◌, if◌then◌else◌, ℕ, Bool, List, leb,
}
use monad_fork.Cli.Machine.{has_value}

-- The calls that mpt::Db::traverse makes of its machines: of the one that it is given, number 0, and
-- of the copies that it makes of them, which are numbered in the order in which they are made.
pub data Visit : Type 0 where
  down : ℕ → Bool → Visit
  up : ℕ → Visit
  clone : ℕ → Visit

unfoldable pub same_path : List Bool → List Bool → Bool
same_path [] [] = true
same_path (true ∷ p) (true ∷ q) = same_path p q
same_path (false ∷ p) (false ∷ q) = same_path p q
same_path _ _ = false

abbrev pub Metadata : Type 0
Metadata = List (List Bool × ℕ)

-- `++metadata_[had_values_]`
unfoldable pub increment : List Bool → Metadata → Metadata
unfolding same_path
increment path [] = (path, 1) ∷ []
increment path ((key, count) ∷ metadata) =
    if same_path key path
    then (key, count + 1) ∷ metadata
    else (key, count) ∷ increment path metadata

-- The machines: they share the metadata by reference, and each has its own had_values_.
pub record Traverse : Type 0 where
  pub metadata : Metadata
  pub had_values : List (List Bool)

-- The had_values_ of a machine; the calls are of machines that there are.
unfoldable pub path_at : ℕ → List (List Bool) → List Bool
path_at i [] = []
path_at zero (path ∷ paths_) = path
path_at (suc i) (path ∷ paths_) = path_at i paths_

unfoldable pub set_path : ℕ → List Bool → List (List Bool) → List (List Bool)
set_path i new_path [] = []
set_path zero new_path (path ∷ paths_) = new_path ∷ paths_
set_path (suc i) new_path (path ∷ paths_) = path ∷ set_path i new_path paths_

abbrev pub drop_last : List Bool → List Bool
drop_last [] = []
drop_last (b ∷ path) = path

unfoldable pub visit : Traverse → Visit → Traverse
unfolding increment path_at set_path
visit t (down i has_value) =
    let path = has_value ∷ path_at i t.had_values in
    record { metadata = increment path t.metadata; had_values = set_path i path t.had_values }
visit t (up i) = record t {
  had_values = set_path i (drop_last (path_at i t.had_values)) t.had_values;
}
visit t (clone i) = record t { had_values = t.had_values ++ path_at i t.had_values ∷ [] }

unfoldable pub traverse : Traverse → List Visit → Traverse
unfolding visit
traverse t [] = t
traverse t (v ∷ visits) = traverse (visit t v) visits

pub record Totals : Type 0 where
  pub total : ℕ
  pub leaves : ℕ
  pub branches : ℕ

abbrev pub ends_in_value : List Bool → Bool
ends_in_value [] = false
ends_in_value (b ∷ path) = b

-- The loop over the map; the order of the map does not matter to the sums.
unfoldable pub totals : Metadata → Totals
totals [] = record { total = 0; leaves = 0; branches = 0 }
totals ((key, count) ∷ metadata) =
    let t = totals metadata in
    if ends_in_value key
    then record { total = t.total + count; leaves = t.leaves + count; branches = t.branches }
    else record { total = t.total + count; leaves = t.leaves; branches = t.branches + count }
