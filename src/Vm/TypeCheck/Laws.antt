-- ===== src/Vm/TypeCheck/Laws.antt =====
-- A run that succeeds has a verdict for every contract.
use monad_fork.Prelude.{
  ◌⊎◌, List-cases, refl, inl, inr, true, false, Bool-cases, Option-cases, ◌≡◌, ◌↔◌, none, some, [],
  ◌∷◌, arith, List, Bool, ℕ,
}
use monad_fork.Vm.TypeCheck.{
  check_file, usage, io_error, read_contract, check_main, Line, DirectoryEntry, Checker,
  type_check_contract, check_entries, walk_directory, Verdict, verdict, failed_check, exits, typed,
}
use monad_fork.Node.Block.{Bytes}

module _ (lib : Checker) where
  -- What the library finds about a contract.
  abbrev pub Finds : Verdict → Bytes → Type 0
  Finds failed_check contract = lib.type_check contract ≡ false
  Finds exits contract = (lib.type_check contract ≡ true) × (lib.block_kinds contract ≡ [])
  Finds (typed kind) contract =
      (lib.type_check contract ≡ true) × (rest : List ℕ) × (lib.block_kinds contract ≡ kind ∷ rest)

  -- A line that says of a file that opens and can be read to its end what the library finds.
  abbrev pub Judges : Bytes → Line → Type 0
  Judges path (verdict named found) =
      (named ≡ path)
      × (contract : Bytes) × (lib.open_file path ≡ some contract)
      × (lib.reads path ≡ true)
      × Finds found contract
  Judges path line = ⊥

  -- One line for each regular file, in the order of the walk, and nothing for the other entries.
  abbrev pub Judged : List DirectoryEntry → List Line → Type 0
  Judged [] [] = Unit
  Judged [] (line ∷ lines) = ⊥
  Judged (entry ∷ entries) lines =
      ((entry.is_regular_file ≡ false) × Judged entries lines)
      ⊎ ((entry.is_regular_file ≡ true)
          × (line : Line) × (rest : List Line) × (lines ≡ line ∷ rest)
          × Judges entry.path line
          × Judged entries rest)

  read_contract→ :
      (path contract : Bytes)
      → read_contract lib path ≡ some contract
      → (lib.open_file path ≡ some contract) × (lib.reads path ≡ true)
  unfolding read_contract
  read_contract→ path contract e = elim (Option-cases (lib.open_file path)) [
    | inl p ↦ absurd (ground arith)
    | inr (contents, p) ↦ (ground arith, ground arith)
  ]

  type_check_contract-Judges :
      (path contract : Bytes)
      → lib.open_file path ≡ some contract
      → lib.reads path ≡ true
      → Judges path (type_check_contract lib path contract)
  unfolding type_check_contract
  type_check_contract-Judges path contract opened read =
      elim (Bool-cases (lib.type_check contract)) [
        | inr p ↦ rw p (refl, contract, opened, read, p)
        | inl p ↦ elim (List-cases (lib.block_kinds contract)) [
          | inl q ↦ rw (p, q) (refl, contract, opened, read, (p, q))
          | inr (kind, rest, q) ↦ rw (p, q) (refl, contract, opened, read, (p, rest, q))
        ]
      ]

  Judges→eq :
      (path contract : Bytes) (line : Line)
      → lib.open_file path ≡ some contract
      → Judges path line
      → line ≡ type_check_contract lib path contract
  unfolding type_check_contract
  Judges→eq path contract (verdict named failed_check) opened j = ground arith
  Judges→eq path contract (verdict named exits) opened j = ground arith
  Judges→eq path contract (verdict named (typed kind)) opened j = ground arith
  Judges→eq path contract usage opened j = absurd j
  Judges→eq path contract (io_error m) opened j = absurd j

  Judges→opened :
      (path : Bytes) (line : Line)
      → Judges path line
      → (contract : Bytes) × (lib.open_file path ≡ some contract) × (lib.reads path ≡ true)
  Judges→opened path (verdict named found) (same, contract, opened, read, j) =
      (contract, opened, read)
  Judges→opened path usage j = absurd j
  Judges→opened path (io_error m) j = absurd j

  check_entries-Judged :
      (throws : Bool) (entries : List DirectoryEntry) (lines : List Line)
      → check_entries lib throws entries ≡ (lines, some 0)
      → (throws ≡ false) × Judged entries lines
  unfolding check_entries check_file
  check_entries-Judged throws [] [] e = (ground arith, tt)
  check_entries-Judged throws [] (line ∷ lines) e = absurd (ground arith)
  check_entries-Judged throws (entry ∷ entries) lines e = elim (Bool-cases entry.is_regular_file) [
    | inr p ↦
        let (quiet, j) = check_entries-Judged throws entries lines (ground arith) in
        (quiet, inl (p, j))
    | inl p ↦ elim (Option-cases (read_contract lib entry.path)) [
      | inl r ↦ absurd (ground arith)
      | inr (contract, r) ↦
          let rest = check_entries lib throws entries in
          let (opened, read) = read_contract→ entry.path contract r in
          let (quiet, j) = check_entries-Judged throws entries rest.0 (ground arith) in
          (
            quiet,
            inr (
              p,
              type_check_contract lib entry.path contract,
              rest.0,
              ground arith,
              type_check_contract-Judges entry.path contract opened read,
              j,
            ),
          )
    ]
  ]

  Judged-check_entries :
      (entries : List DirectoryEntry) (lines : List Line)
      → Judged entries lines
      → check_entries lib false entries ≡ (lines, some 0)
  unfolding check_entries check_file read_contract
  Judged-check_entries [] [] j = refl
  Judged-check_entries [] (line ∷ lines) j = absurd j
  Judged-check_entries (entry ∷ entries) lines (inl (p, j)) =
      ground (arith, Judged-check_entries entries lines j)
  Judged-check_entries (entry ∷ entries) lines (inr (p, line, rest, e, here, j)) =
      let (contract, opened, read) = Judges→opened entry.path line here in
      ground
        (arith, Judges→eq entry.path contract line opened here, Judged-check_entries entries rest j)

  -- The tool succeeds exactly if its one argument is a directory whose walk starts without an error
  -- and goes to its end without an exception, and all of whose regular files open and can be read;
  -- and then it prints for each of them, in the order of the walk, that the check failed, that there
  -- is no block, or the kind of the first block, as the library finds it for the file's contents, and
  -- nothing else.
  pub check_main_iff :
      (dir : Bytes) (lines : List Line)
      → (check_main lib (dir ∷ []) ≡ (lines, some 0)) ↔ (
          (lib.is_directory dir ≡ true)
          × (lib.walk_error dir ≡ none)
          × (lib.walk_throws dir ≡ false)
          × Judged (lib.entries dir) lines)
  unfolding check_main walk_directory
  check_main_iff dir lines = (
    λ e. elim (Bool-cases (lib.is_directory dir)) [
      | inr p ↦ absurd (ground arith)
      | inl p ↦ elim (Option-cases (lib.walk_error dir)) [
        | inr (message, q) ↦ absurd (ground arith)
        | inl q ↦
            let (quiet, j) =
              check_entries-Judged (lib.walk_throws dir) (lib.entries dir) lines (ground arith) in
            (p, q, quiet, j)
      ]
    ],
    λ (p, q, quiet, j).
        rw (p, walk_directory, q, quiet) (Judged-check_entries (lib.entries dir) lines j),
  )
