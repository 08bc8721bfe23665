-- ===== src/Cli/Report/Text.antt =====
-- The lines of node_stats, field by field, and the order that they stand in.
use monad_fork.Prelude.{
  ◌∙◌, ◌+◌, ◌≤◌, ◌≡◌, refl, ◌⊎◌, inl, inr, true, false, [], ◌∷◌, ◌++◌, arith, if◌then◌else◌, ap,
  ap₂, ℕ, Bool, List, length, All, map,
}
use monad_fork.Text.{codes}
use monad_fork.Node.Block.{Bytes}
use monad_fork.Cli.Actions.{Decoders}
use monad_fork.Cli.NodeStats.{Metadata}
use monad_fork.Cli.Report.{greater_bits, greater, entry_line, entry_lines, path_letters, count_true}
use monad_fork.Cli.Report.Entries.{Descending}
use monad_fork.Cli.Report.Order.{Entry}
use mathlib.Core.List.{reverse}

-- The first path is the greater one of two vectors of bool: it goes on where the other ends, or has
-- the bit set where they part.
abbrev pub Exceeds : List Bool → List Bool → Type 0
Exceeds p q =
    (common : List Bool) × (rest : List Bool) × (((b : Bool) × (p ≡ common ++ b ∷ rest)
        × (q ≡ common))
      ⊎ ((other : List Bool) × (p ≡ common ++ true ∷ rest) × (q ≡ common ++ false ∷ other)))

-- The count of an entry is at most that of one in front of it; where the two are the same, its path,
-- read from the root, does not exceed that of the other.
abbrev pub Falling : Metadata → Type 0
Falling [] = Unit
Falling (entry ∷ metadata) =
    All
      (λ later.
        (later.1 ≤ entry.1) × (later.1 ≡ entry.1 → ¬ Exceeds (reverse later.0) (reverse entry.0)))
      metadata
    × Falling metadata

greater_bits-longer :
    (common : List Bool) (b : Bool) (rest : List Bool)
    → greater_bits (common ++ b ∷ rest) common ≡ true
unfolding greater_bits
greater_bits-longer [] b rest = refl
greater_bits-longer (true ∷ common) b rest = greater_bits-longer common b rest
greater_bits-longer (false ∷ common) b rest = greater_bits-longer common b rest

greater_bits-parted :
    (common rest other : List Bool)
    → greater_bits (common ++ true ∷ rest) (common ++ false ∷ other) ≡ true
unfolding greater_bits
greater_bits-parted [] rest other = refl
greater_bits-parted (true ∷ common) rest other = greater_bits-parted common rest other
greater_bits-parted (false ∷ common) rest other = greater_bits-parted common rest other

Exceeds→greater_bits : (p q : List Bool) → Exceeds p q → greater_bits p q ≡ true
Exceeds→greater_bits p q (common, rest, inl (b, e, f)) =
    ap₂ greater_bits e f ∙ greater_bits-longer common b rest
Exceeds→greater_bits p q (common, rest, inr (other, e, f)) =
    ap₂ greater_bits e f ∙ greater_bits-parted common rest other

not_greater-Falling :
    (entry : Entry) (l : Metadata)
    → All (λ later. greater later entry ≡ false) l
    → All
        (λ later.
          (later.1 ≤ entry.1) × (later.1 ≡ entry.1 → ¬ Exceeds (reverse later.0) (reverse entry.0)))
        l
unfolding greater
not_greater-Falling entry [] all_ = tt
not_greater-Falling entry (later ∷ l) (here, all_) = (
  (
    ground arith,
    λ same more.
        let above : greater_bits (reverse later.0) (reverse entry.0) ≡ true =
          Exceeds→greater_bits (reverse later.0) (reverse entry.0) more in
        absurd (ground arith),
  ),
  not_greater-Falling entry l all_,
)

pub Descending-Falling : (l : Metadata) → Descending l → Falling l
Descending-Falling [] d = tt
Descending-Falling (entry ∷ l) (first, d) =
    (not_greater-Falling entry l first, Descending-Falling l d)

abbrev pub joined : List Bytes → Bytes
joined [] = []
joined (field ∷ []) = field
joined (field ∷ next ∷ fields) = field ++ (codes "," ++ joined (next ∷ fields))

abbrev pub leaves_of : List Bool → ℕ
leaves_of [] = 0
leaves_of (b ∷ path) = (if b then 1 else 0) + leaves_of path

-- A line: a letter for each node from the root on, L with a value and B without; how many nodes there
-- are; how many of them have a value; the count; and its share of the total.
abbrev pub fields : Decoders → ℕ → Entry → List Bytes
fields dec total (path, count) =
    map (λ b. if b then b'L' else b'B') (reverse path)
    ∷ dec.format_count (length path)
    ∷ dec.format_count (leaves_of path)
    ∷ dec.format_count count
    ∷ (dec.format_percentage count total ++ codes "%\n")
    ∷ []

abbrev pub text_of : Decoders → ℕ → Metadata → Bytes
text_of dec total [] = []
text_of dec total (entry ∷ entries) = joined (fields dec total entry) ++ text_of dec total entries

path_letters-map : (path : List Bool) → path_letters path ≡ map (λ b. if b then b'L' else b'B') path
path_letters-map [] = refl
path_letters-map (true ∷ path) = ap (◌∷◌ b'L') (path_letters-map path)
path_letters-map (false ∷ path) = ap (◌∷◌ b'B') (path_letters-map path)

count_true-leaves_of : (path : List Bool) → count_true path ≡ leaves_of path
count_true-leaves_of [] = refl
count_true-leaves_of (true ∷ path) = ground (arith, count_true-leaves_of path)
count_true-leaves_of (false ∷ path) = ground (arith, count_true-leaves_of path)

pub entry_lines-text_of :
    (dec : Decoders) (total : ℕ) (l : Metadata) → entry_lines dec total l ≡ text_of dec total l
unfolding entry_lines entry_line
entry_lines-text_of dec total [] = refl
entry_lines-text_of dec total ((path, count) ∷ l) =
    rw (path_letters-map (reverse path), count_true-leaves_of path)
      (ap (λ more. joined (fields dec total (path, count)) ++ more)
        (entry_lines-text_of dec total l))
