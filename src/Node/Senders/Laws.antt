-- ===== src/Node/Senders/Laws.antt =====
-- The recovered senders and the set of senders and authorities, against what they should hold.
use monad_fork.Prelude.{
  subst, append_assoc, ==_iff, replicate, Bool, Bool-cases, ap, length, set, Option, ℕ, List, suc,
  ◌≡◌, refl, ◌∙◌, inl, inr, true, false, ◌||◌, none, some, [], ◌∷◌, ◌++◌, arith, ◌==◌,
}
use monad_fork.Node.Outcome.{missing_sender, err, ok, Outcome}
use monad_fork.Node.Block.{AddressSet, Bytes}
use monad_fork.Node.Senders.{
  contains, collect_senders, fill_senders, insert, insert_all, insert_authorities, insert_present,
  senders_and_authorities,
}

-- All addresses, if every one was recovered.
unfoldable pub sequence : List (Option ℕ) → Option (List ℕ)
sequence [] = some []
sequence (none ∷ rs) = none
sequence (some a ∷ rs) = elim (sequence rs) [ none ↦ none | some s ↦ some (a ∷ s) ]

abbrev pub or_missing : List ℕ → Option (List ℕ) → Outcome (List ℕ)
or_missing before none = err missing_sender
or_missing before (some s) = ok (before ++ s)

set_middle : (xs ys : List ℕ) (b a : ℕ) → set (xs ++ b ∷ ys) (length xs) a ≡ (xs ++ a ∷ []) ++ ys
set_middle [] ys b a = refl
set_middle (x ∷ xs) ys b a = cc (set_middle xs ys b a)

length_snoc : (xs : List ℕ) (a : ℕ) → length (xs ++ a ∷ []) ≡ suc (length xs)
length_snoc [] a = refl
length_snoc (x ∷ xs) a = ap suc (length_snoc xs a)

or_missing_snoc :
    (before : List ℕ) (a : ℕ) (o : Option (List ℕ))
    → or_missing (before ++ a ∷ []) o
      ≡ or_missing before (elim o [ none ↦ none | some s ↦ some (a ∷ s) ])
or_missing_snoc before a none = refl
or_missing_snoc before a (some s) = ap ok (append_assoc before (a ∷ []) s)

fill_senders_lem :
    (rs : List (Option ℕ)) (before : List ℕ)
    → fill_senders rs (length before) (before ++ replicate (length rs) 0)
      ≡ or_missing before (sequence rs)
unfolding fill_senders sequence
fill_senders_lem [] before = refl
fill_senders_lem (none ∷ rs) before = refl
fill_senders_lem (some a ∷ rs) before =
    rw (set_middle before (replicate (length rs) 0) 0 a, ← length_snoc before a)
      (fill_senders_lem rs (before ++ a ∷ []) ∙ or_missing_snoc before a (sequence rs))

-- With one recovery result for each transaction, the senders are exactly the recovered addresses in
-- order, and the error is MissingSender exactly if one of them is missing.
pub collect_senders_lem :
    (transactions : List Bytes) (recovered : List (Option ℕ))
    → length recovered ≡ length transactions
    → collect_senders transactions recovered ≡ or_missing [] (sequence recovered)
unfolding collect_senders
collect_senders_lem transactions recovered e = rw (← e) (fill_senders_lem recovered [])

-- whether an address is among the authorities that were recovered
abbrev pub present : List (Option ℕ) → ℕ → Bool
present [] a = false
present (none ∷ xs) a = present xs a
present (some x ∷ xs) a = x == a || present xs a

abbrev pub any_present : List (List (Option ℕ)) → ℕ → Bool
any_present [] a = false
any_present (xs ∷ rest) a = present xs a || any_present rest a

contains-insert : (xs : AddressSet) (b a : ℕ) → contains (insert xs b) a ≡ (b == a || contains xs a)
unfolding insert
contains-insert xs b a = elim (Bool-cases (contains xs b)) [
  | inl old ↦ rw old (elim (Bool-cases (b == a)) [
    | inl e ↦ let e' : b ≡ a = (==_iff b a).0 e in rw e (subst (λ c. contains xs c ≡ true) e' old)
    | inr e ↦ rw e
  ])
  | inr new ↦ rw new
]

contains-insert_all :
    (xs : AddressSet) (as_ : List ℕ) (a : ℕ)
    → contains (insert_all xs as_) a ≡ (contains as_ a || contains xs a)
unfolding insert_all contains
contains-insert_all xs [] a = refl
contains-insert_all xs (b ∷ as_) a =
    ground (arith, contains-insert_all (insert xs b) as_ a, contains-insert xs b a)

contains-insert_present :
    (xs : AddressSet) (as_ : List (Option ℕ)) (a : ℕ)
    → contains (insert_present xs as_) a ≡ (present as_ a || contains xs a)
unfolding insert_present
contains-insert_present xs [] a = refl
contains-insert_present xs (none ∷ as_) a = contains-insert_present xs as_ a
contains-insert_present xs (some b ∷ as_) a =
    ground (arith, contains-insert_present (insert xs b) as_ a, contains-insert xs b a)

contains-insert_authorities :
    (xs : AddressSet) (as_ : List (List (Option ℕ))) (a : ℕ)
    → contains (insert_authorities xs as_) a ≡ (any_present as_ a || contains xs a)
unfolding insert_authorities
contains-insert_authorities xs [] a = refl
contains-insert_authorities xs (b ∷ as_) a =
    ground (
      arith,
      contains-insert_authorities (insert_present xs b) as_ a,
      contains-insert_present xs b a,
    )

-- The set holds an address exactly if it is a sender or a recovered authority of some transaction.
pub senders_and_authorities_lem :
    (senders : List ℕ) (authorities : List (List (Option ℕ))) (a : ℕ)
    → contains (senders_and_authorities senders authorities) a
      ≡ (contains senders a || any_present authorities a)
unfolding senders_and_authorities
senders_and_authorities_lem senders authorities a = ground (
  arith,
  contains-insert_authorities (insert_all [] senders) authorities a,
  contains-insert_all [] senders a,
)
