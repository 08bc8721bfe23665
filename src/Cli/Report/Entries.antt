-- ===== src/Cli/Report/Entries.antt =====
-- The entries that node_stats prints, against the visits of its traversal.
use monad_fork.Prelude.{
  ◌++◌, ◌+◌, ◌≡◌, refl, ◌∙◌, inl, inr, true, false, ◌||◌, [], ◌∷◌, arith, if◌then◌else◌, ℕ, ap,
  Bool, List, Bool-cases, All,
}
use monad_fork.Cli.NodeStats.{
  same_path, Visit, down, up, clone, path_at, set_path, Metadata, increment, Traverse, drop_last,
  visit, traverse,
}
use monad_fork.Cli.Report.{greater, insert_sorted, sort_entries}
use monad_fork.Cli.Report.Order.{Entry, greater-asymm, greater-below}

-- How often a traversal whose machines stand on the paths `current` goes down onto `path`.
abbrev pub times : List Bool → List (List Bool) → List Visit → ℕ
times path current [] = 0
times path current (down i b ∷ visits) =
    let onto = b ∷ path_at i current in
    (if same_path onto path then 1 else 0) + times path (set_path i onto current) visits
times path current (up i ∷ visits) =
    times path (set_path i (drop_last (path_at i current)) current) visits
times path current (clone i ∷ visits) = times path (current ++ path_at i current ∷ []) visits

-- What the entries of a path add up to.
abbrev pub count_of : List Bool → Metadata → ℕ
count_of path [] = 0
count_of path ((key, count) ∷ metadata) =
    (if same_path key path then count else 0) + count_of path metadata

abbrev pub has_path : List Bool → Metadata → Bool
has_path path [] = false
has_path path ((key, count) ∷ metadata) = same_path key path || has_path path metadata

abbrev pub Distinct : Metadata → Type 0
Distinct [] = Unit
Distinct ((key, count) ∷ metadata) = (has_path key metadata ≡ false) × Distinct metadata

-- By the comparison that sorts them, no entry is greater than one in front of it.
abbrev pub Descending : Metadata → Type 0
Descending [] = Unit
Descending (entry ∷ metadata) =
    All (λ other. greater other entry ≡ false) metadata × Descending metadata

same_path→eq : (p q : List Bool) → same_path p q ≡ true → p ≡ q
unfolding same_path
same_path→eq [] [] e = refl
same_path→eq [] (b ∷ q) e = cc
same_path→eq (true ∷ p) [] e = cc
same_path→eq (false ∷ p) [] e = cc
same_path→eq (true ∷ p) (true ∷ q) e = ap (◌∷◌ true) (same_path→eq p q e)
same_path→eq (true ∷ p) (false ∷ q) e = cc
same_path→eq (false ∷ p) (true ∷ q) e = cc
same_path→eq (false ∷ p) (false ∷ q) e = ap (◌∷◌ false) (same_path→eq p q e)

same_path_comm : (p q : List Bool) → same_path p q ≡ same_path q p
unfolding same_path
same_path_comm [] [] = refl
same_path_comm [] (true ∷ q) = refl
same_path_comm [] (false ∷ q) = refl
same_path_comm (true ∷ p) [] = refl
same_path_comm (false ∷ p) [] = refl
same_path_comm (true ∷ p) (true ∷ q) = same_path_comm p q
same_path_comm (true ∷ p) (false ∷ q) = refl
same_path_comm (false ∷ p) (true ∷ q) = refl
same_path_comm (false ∷ p) (false ∷ q) = same_path_comm p q

count_of-increment :
    (path current : List Bool) (metadata : Metadata)
    → count_of path (increment current metadata)
      ≡ count_of path metadata + (if same_path current path then 1 else 0)
unfolding increment
count_of-increment path current [] = ground arith
count_of-increment path current ((key, count) ∷ metadata) =
    elim (Bool-cases (same_path key current)) [
      | inl e ↦ let same : key ≡ current = same_path→eq key current e in ground arith
      | inr e ↦ ground (arith, count_of-increment path current metadata)
    ]

has_path-increment :
    (path current : List Bool) (metadata : Metadata)
    → has_path path (increment current metadata)
      ≡ (has_path path metadata || same_path current path)
unfolding increment
has_path-increment path current [] = ground arith
has_path-increment path current ((key, count) ∷ metadata) =
    elim (Bool-cases (same_path key current)) [
      | inl e ↦ let same : key ≡ current = same_path→eq key current e in ground arith
      | inr e ↦ ground (arith, has_path-increment path current metadata)
    ]

increment-Distinct :
    (current : List Bool) (metadata : Metadata)
    → Distinct metadata
    → Distinct (increment current metadata)
unfolding increment
increment-Distinct current [] d = (refl, tt)
increment-Distinct current ((key, count) ∷ metadata) (new_, d) =
    elim (Bool-cases (same_path key current)) [
      | inl e ↦ rw e (new_, d)
      | inr e ↦ rw e (
        ground (arith, has_path-increment key current metadata, same_path_comm key current),
        increment-Distinct current metadata d,
      )
    ]

pub traverse-count_of :
    (path : List Bool) (t : Traverse) (visits : List Visit)
    → count_of path (traverse t visits).metadata
      ≡ count_of path t.metadata + times path t.had_values visits
unfolding traverse visit
traverse-count_of path t [] = omega arith
traverse-count_of path t (up i ∷ visits) = traverse-count_of path (visit t (up i)) visits
traverse-count_of path t (clone i ∷ visits) = traverse-count_of path (visit t (clone i)) visits
traverse-count_of path t (down i b ∷ visits) = ground (
  arith,
  count_of-increment path (b ∷ path_at i t.had_values) t.metadata,
  traverse-count_of path (visit t (down i b)) visits,
)

pub traverse-Distinct :
    (t : Traverse) (visits : List Visit)
    → Distinct t.metadata
    → Distinct (traverse t visits).metadata
unfolding traverse visit
traverse-Distinct t [] d = d
traverse-Distinct t (up i ∷ visits) d = traverse-Distinct (visit t (up i)) visits d
traverse-Distinct t (clone i ∷ visits) d = traverse-Distinct (visit t (clone i)) visits d
traverse-Distinct t (down i b ∷ visits) d =
    traverse-Distinct (visit t (down i b)) visits
      (increment-Distinct (b ∷ path_at i t.had_values) t.metadata d)

module _ (entry : Entry) where
  count_of-insert_sorted :
      (path : List Bool) (l : Metadata)
      → count_of path (insert_sorted entry l) ≡ count_of path (entry ∷ l)
  unfolding insert_sorted
  count_of-insert_sorted path [] = refl
  count_of-insert_sorted path (x ∷ l) = ground (arith, count_of-insert_sorted path l)

  has_path-insert_sorted :
      (path : List Bool) (l : Metadata)
      → has_path path (insert_sorted entry l) ≡ has_path path (entry ∷ l)
  unfolding insert_sorted
  has_path-insert_sorted path [] = refl
  has_path-insert_sorted path (x ∷ l) = ground (arith, has_path-insert_sorted path l)

  insert_sorted-Distinct : (l : Metadata) → Distinct (entry ∷ l) → Distinct (insert_sorted entry l)
  unfolding insert_sorted
  insert_sorted-Distinct [] d = d
  insert_sorted-Distinct (x ∷ l) (new_, d) = elim (Bool-cases (greater x entry)) [
    | inr e ↦ rw e (new_, d)
    | inl e ↦ rw e (
      ground (arith, has_path-insert_sorted x.0 l, same_path_comm x.0 entry.0),
      insert_sorted-Distinct l (ground arith, d.1),
    )
  ]

  All-insert_sorted :
      (P : Entry → Type 0) (l : Metadata) → P entry → All P l → All P (insert_sorted entry l)
  unfolding insert_sorted
  All-insert_sorted P [] p all_ = (p, tt)
  All-insert_sorted P (x ∷ l) p all_ = elim (Bool-cases (greater x entry)) [
    | inl e ↦ rw e (all_.0, All-insert_sorted P l p all_.1)
    | inr e ↦ rw e (p, all_)
  ]

  below-All :
      (x : Entry) (l : Metadata)
      → greater x entry ≡ false
      → All (λ other. greater other x ≡ false) l
      → All (λ other. greater other entry ≡ false) l
  below-All x [] e all_ = tt
  below-All x (y ∷ l) e (here, rest) =
      (ground (arith, greater-below y x entry), below-All x l e rest)

  insert_sorted-Descending : (l : Metadata) → Descending l → Descending (insert_sorted entry l)
  unfolding insert_sorted
  insert_sorted-Descending [] f = (tt, tt)
  insert_sorted-Descending (x ∷ l) (first, f) = elim (Bool-cases (greater x entry)) [
    | inl e ↦ rw e (
      All-insert_sorted (λ other. greater other x ≡ false) l (greater-asymm x entry e) first,
      insert_sorted-Descending l f,
    )
    | inr e ↦ rw e ((e, below-All x l e first), (first, f))
  ]

pub sort_entries-count_of :
    (path : List Bool) (l : Metadata) → count_of path (sort_entries l) ≡ count_of path l
unfolding sort_entries
sort_entries-count_of path [] = refl
sort_entries-count_of path (x ∷ l) =
    ground (arith, count_of-insert_sorted x path (sort_entries l), sort_entries-count_of path l)

sort_entries-has_path :
    (path : List Bool) (l : Metadata) → has_path path (sort_entries l) ≡ has_path path l
unfolding sort_entries
sort_entries-has_path path [] = refl
sort_entries-has_path path (x ∷ l) =
    ground (arith, has_path-insert_sorted x path (sort_entries l), sort_entries-has_path path l)

pub sort_entries-Distinct : (l : Metadata) → Distinct l → Distinct (sort_entries l)
unfolding sort_entries
sort_entries-Distinct [] d = tt
sort_entries-Distinct (x ∷ l) (new_, d) =
    insert_sorted-Distinct x (sort_entries l)
      (sort_entries-has_path x.0 l ∙ new_, sort_entries-Distinct l d)

pub sort_entries-Descending : (l : Metadata) → Descending (sort_entries l)
unfolding sort_entries
sort_entries-Descending [] = tt
sort_entries-Descending (x ∷ l) =
    insert_sorted-Descending x (sort_entries l) (sort_entries-Descending l)
