-- ===== src/Wal/Laws.antt =====
-- rewind_to finds the last entry that is the wanted one.
use monad_fork.Prelude.{
  ◌≢◌, ap₂, sym, zero, suc, ◌≡◌, refl, ◌∙◌, ◌⊎◌, inl, inr, true, false, none, some, [], ◌∷◌, ◌++◌,
  arith, ap, subst, Option, List, append-nil, append_assoc, Bool-cases, length, All, ℕ,
}
use monad_fork.Wal.{settle, read_entry, WalEntry, WalReader, same_entry, search, rewind_to}

read_entry-middle :
    (xs ys : List WalEntry) (e : WalEntry) → read_entry (xs ++ e ∷ ys) (length xs) ≡ some e
unfolding read_entry
read_entry-middle [] ys e = refl
read_entry-middle (x ∷ xs) ys e = read_entry-middle xs ys e

split_last :
    (k : ℕ) (xs : List WalEntry)
    → length xs ≡ suc k
    → (before : List WalEntry) × (last : WalEntry) × (xs ≡ before ++ last ∷ [])
      × (length before ≡ k)
split_last k [] e = absurd (ground arith)
split_last zero (x ∷ []) e = ([], x, refl, refl)
split_last zero (x ∷ y ∷ xs) e = absurd (ground arith)
split_last (suc k) (x ∷ []) e = absurd (ground arith)
split_last (suc k) (x ∷ y ∷ xs) e =
    let (before, last, same, count) = split_last k (y ∷ xs) (ground arith) in
    (x ∷ before, last, ap (◌∷◌ x) same, ap suc count)

-- Where the wanted entry stands last, or that it stands nowhere.
abbrev pub Found : WalEntry → List WalEntry → Option ℕ → Type 0
Found wanted entries none = All (λ x. x ≢ wanted) entries
Found wanted entries (some n) =
    (before : List WalEntry) × (after : List WalEntry) × (entries ≡ before ++ wanted ∷ after)
    × (length before ≡ n)
    × All (λ x. x ≢ wanted) after

same_entry→eq : (a b : WalEntry) → same_entry a b ≡ true → a ≡ b
unfolding same_entry
same_entry→eq a b e =
    let same_id : a.id ≡ b.id = ground arith in
    let same_action : a.action ≡ b.action = ground arith in
    ap₂ (λ x y. record { action = x; id = y }) same_action same_id

same_entry→neq : (a b : WalEntry) → same_entry a b ≡ false → a ≢ b
unfolding same_entry
same_entry→neq a b e same =
    let same_id : a.id ≡ b.id = ap (λ x. x.id) same in
    let same_action : a.action ≡ b.action = ap (λ x. x.action) same in absurd (ground arith)

search_at :
    (k : ℕ) (wanted last : WalEntry) (before ys : List WalEntry)
    → length before ≡ k
    → All (λ x. x ≢ wanted) ys
    → (last ≢ wanted → Found wanted (before ++ last ∷ ys) (search wanted (before ++ last ∷ ys) k))
    → Found wanted (before ++ last ∷ ys) (search wanted (before ++ last ∷ ys) (suc k))
unfolding search
search_at k wanted last before ys count none_behind otherwise_at =
    let here : read_entry (before ++ last ∷ ys) k ≡ some last =
      subst (λ n. read_entry (before ++ last ∷ ys) n ≡ some last) count
        (read_entry-middle before ys last) in
    elim (Bool-cases (same_entry last wanted)) [
      | inl hit ↦
          rw (search, here, hit)
            (
              before,
              ys,
              ap (λ x. before ++ x ∷ ys) (same_entry→eq last wanted hit),
              count,
              none_behind,
            )
      | inr miss ↦ rw (search, here, miss) (otherwise_at (same_entry→neq last wanted miss))
    ]

search-Found :
    (k : ℕ) (wanted : WalEntry) (xs ys : List WalEntry)
    → length xs ≡ k
    → All (λ x. x ≢ wanted) ys
    → Found wanted (xs ++ ys) (search wanted (xs ++ ys) k)
unfolding search
search-Found zero wanted [] ys e none_behind = none_behind
search-Found zero wanted (x ∷ xs) ys e none_behind = absurd (ground arith)
search-Found (suc k) wanted xs ys e none_behind =
    let (before, last, same, count) = split_last k xs e in
    let whole : before ++ last ∷ ys ≡ xs ++ ys =
      sym (ap (λ l. l ++ ys) same ∙ append_assoc before (last ∷ []) ys) in
    subst (λ l. Found wanted l (search wanted l (suc k))) whole
      (search_at k wanted last before ys count none_behind
        λ miss. search-Found k wanted before (last ∷ ys) count (miss, none_behind))

-- What rewind_to says of the search's result.
settle_lem :
    (wanted : WalEntry) (w : WalReader) (o : Option ℕ)
    → Found wanted w.entries o
    → ((settle w o).1.entries ≡ w.entries)
      × ((((settle w o).0 ≡ true) × Found wanted w.entries (some (settle w o).1.cursor))
          ⊎ (((settle w o).0 ≡ false) × ((settle w o).1.cursor ≡ 0) × Found wanted w.entries none))
unfolding settle
settle_lem wanted w none found = (refl, inr (refl, refl, found))
settle_lem wanted w (some n) found = (refl, inl (refl, found))

-- rewind_to puts the cursor on the last entry that equals the wanted one, in its id and its action,
-- and says so; if no entry does, it says that, and the cursor is at the beginning. The entries are
-- left alone.
pub rewind_to_lem :
    (wanted : WalEntry) (w : WalReader)
    → let r = rewind_to wanted w in
      (r.1.entries ≡ w.entries)
      × (((r.0 ≡ true) × Found wanted w.entries (some r.1.cursor))
          ⊎ ((r.0 ≡ false) × (r.1.cursor ≡ 0) × Found wanted w.entries none))
unfolding rewind_to settle
rewind_to_lem wanted w =
    let nil : w.entries ++ [] ≡ w.entries = append-nil w.entries in
    let found : Found wanted w.entries (search wanted w.entries (length w.entries)) =
      subst (λ l. Found wanted l (search wanted l (length w.entries))) nil
        (search-Found (length w.entries) wanted w.entries [] refl tt) in
    settle_lem wanted w (search wanted w.entries (length w.entries)) found
