-- ===== src/Cli/Report/Laws.antt =====
-- What node_stats prints.
use monad_fork.Prelude.{List, ◌≡◌, refl, ◌∙◌, [], ◌∷◌, arith, if◌then◌else◌, ap₂, ltb}
use monad_fork.Cli.Machine.{Machine, statistics, path_table}
use monad_fork.Cli.Report.{sort_entries, insert_sorted, entry_lines, print_stats}
use monad_fork.Cli.Report.Order.{insert_sorted_comm}
use monad_fork.Cli.NodeStats.{totals, Metadata}
use monad_fork.Cli.Actions.{Decoders}
use mathlib.Core.Logic.{∥∥₁_elim}
use mathlib.Core.List.{Perm, Permᴰ}

sort_entries-Permᴰ : {l l' : Metadata} → Permᴰ l l' → sort_entries l ≡ sort_entries l'
unfolding sort_entries
sort_entries-Permᴰ Permᴰ.nil = refl
sort_entries-Permᴰ (Permᴰ.cons e d) = ap₂ insert_sorted e (sort_entries-Permᴰ d)
sort_entries-Permᴰ (Permᴰ.swap {a = a} {b = b} {l = l} e f) =
    insert_sorted_comm a b (sort_entries l)
    ∙ ap₂ (λ x y. insert_sorted x (insert_sorted y (sort_entries l))) f e
sort_entries-Permᴰ (Permᴰ.trans d d') = sort_entries-Permᴰ d ∙ sort_entries-Permᴰ d'

totals-Permᴰ : {l l' : Metadata} → Permᴰ l l' → totals l ≡ totals l'
unfolding totals
totals-Permᴰ Permᴰ.nil = refl
totals-Permᴰ (Permᴰ.cons e d) = ground (arith, e, totals-Permᴰ d)
totals-Permᴰ (Permᴰ.swap e f) = ground (arith, e, f)
totals-Permᴰ (Permᴰ.trans d d') = totals-Permᴰ d ∙ totals-Permᴰ d'

-- The map of the paths is unordered: in whatever order its entries come, node_stats prints the same.
pub print_stats-Perm :
    (dec : Decoders) (metadata metadata' : Metadata)
    → Perm metadata metadata'
    → print_stats dec metadata ≡ print_stats dec metadata'
unfolding print_stats
print_stats-Perm dec metadata metadata' same =
    let sorted : sort_entries metadata ≡ sort_entries metadata' =
      ∥∥₁_elim same (hlevel) sort_entries-Permᴰ in
    let summed : totals metadata ≡ totals metadata' = ∥∥₁_elim same (hlevel) totals-Permᴰ in
    ap₂
      (λ t l.
        statistics t.total t.leaves t.branches
        ∷ (if ltb 0 t.total then path_table (entry_lines dec t.total l) ∷ [] else []))
      summed sorted
