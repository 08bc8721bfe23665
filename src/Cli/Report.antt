-- ===== src/Cli/Report.antt =====
-- do_node_stats of cmd/monad_cli.cpp: the traversal of the chosen table and what is printed of it.
pub mod Order
pub mod Laws
pub mod Entries
pub mod Text
use monad_fork.Cli.Machine.{
  table_key, TrieDb, Machine, Message, finished_early, cannot_traverse, statistics, path_table,
}
use monad_fork.Cli.NodeStats.{Visit, Metadata, traverse, totals}
use monad_fork.Prelude.{
  suc, true, false, ◌&&◌, ◌||◌, none, some, [], ◌∷◌, ◌++◌, ◌==◌, if◌then◌else◌, ℕ, Bool, List, ltb,
  length,
}
use monad_fork.Text.{codes}
use monad_fork.Ledger.Fold.{total}
use monad_fork.Node.Block.{Bytes}
use monad_fork.Cli.Actions.{Decoders}
use mathlib.Core.List.{reverse}

-- `>` of two vectors of bool, the root's entry first
unfoldable pub greater_bits : List Bool → List Bool → Bool
greater_bits [] q = false
greater_bits (b ∷ p) [] = true
greater_bits (true ∷ p) (true ∷ q) = greater_bits p q
greater_bits (true ∷ p) (false ∷ q) = true
greater_bits (false ∷ p) (true ∷ q) = false
greater_bits (false ∷ p) (false ∷ q) = greater_bits p q

-- `>` of two pairs of a count and a path
unfoldable pub greater : List Bool × ℕ → List Bool × ℕ → Bool
unfolding greater_bits
greater (p, count) (q, count') =
    ltb count' count || (count == count' && greater_bits (reverse p) (reverse q))

-- std::ranges::sort(..., greater), one entry at a time into its place.
unfoldable pub insert_sorted : List Bool × ℕ → Metadata → Metadata
unfolding greater
insert_sorted entry [] = entry ∷ []
insert_sorted entry (first ∷ rest) =
    let more = insert_sorted entry rest in
    if greater first entry then first ∷ more else entry ∷ first ∷ rest

unfoldable pub sort_entries : Metadata → Metadata
unfolding insert_sorted
sort_entries [] = []
sort_entries (entry ∷ metadata) = insert_sorted entry (sort_entries metadata)

abbrev pub path_letters : List Bool → Bytes
path_letters [] = []
path_letters (true ∷ had_values) = b'L' ∷ path_letters had_values
path_letters (false ∷ had_values) = b'B' ∷ path_letters had_values

-- std::ranges::count(had_values, true)
abbrev pub count_true : List Bool → ℕ
count_true [] = 0
count_true (true ∷ had_values) = suc (count_true had_values)
count_true (false ∷ had_values) = count_true had_values

-- What a traversal leaves in the map.
abbrev pub traversed : List Visit → Metadata
traversed visits =
    let t = traverse (record { metadata = []; had_values = [] ∷ [] }) visits in t.metadata

module _ (dec : Decoders) where
  -- path,depth,leaves,count,percentage
  unfoldable pub entry_line : ℕ → List Bool × ℕ → Bytes
  entry_line total (path, count) =
      path_letters (reverse path)
      ++ (codes ","
          ++ (dec.format_count (length path)
              ++ (codes ","
                  ++ (dec.format_count (count_true path)
                      ++ (codes ","
                          ++ (dec.format_count count
                              ++ (codes ","
                                  ++ (dec.format_percentage count total ++ codes "%\n"))))))))

  unfoldable pub entry_lines : ℕ → Metadata → Bytes
  unfolding entry_line
  entry_lines total [] = []
  entry_lines total (entry ∷ entries) = entry_line total entry ++ entry_lines total entries

  unfoldable pub print_stats : Metadata → List Message
  unfolding entry_lines sort_entries totals
  print_stats metadata =
      let t = totals metadata in
      statistics t.total t.leaves t.branches
      ∷ (if ltb 0 t.total
          then path_table (entry_lines t.total (sort_entries metadata)) ∷ []
          else [])

  unfoldable pub do_node_stats : TrieDb → Machine → List Message
  unfolding print_stats traverse table_key
  do_node_stats db m = elim (db.find (table_key db m m.curr_table_id) m.curr_version) [
    | none ↦ cannot_traverse m.curr_version ∷ []
    | some cursor ↦
        if dec.traverses cursor m.curr_version
        then print_stats (traversed (dec.visits_of cursor m.curr_version))
        else finished_early m.curr_version ∷ []
  ]
