-- ===== src/Tests/Logs.antt =====
-- The theorem on the log of consensus actions, at a log of three entries.
use monad_fork.Prelude.{◌≡◌, ◌⊎◌, true, false, none, some, [], ◌∷◌, ℕ}
use monad_fork.Wal.{WalEntry, WalReader, rewind_to}
use monad_fork.Wal.Laws.{Found, rewind_to_lem}

abbrev proposal : ℕ → WalEntry
proposal id = record { action = 0; id = id }

abbrev sample_log : WalReader
sample_log = record { entries = proposal 8 ∷ proposal 9 ∷ proposal 8 ∷ []; cursor = 1 }

rewind_to_lem_example :
    let r = rewind_to (proposal 8) sample_log in
    (r.1.entries ≡ sample_log.entries)
    × (((r.0 ≡ true) × Found (proposal 8) sample_log.entries (some r.1.cursor))
        ⊎ ((r.0 ≡ false) × (r.1.cursor ≡ 0) × Found (proposal 8) sample_log.entries none))
rewind_to_lem_example = rewind_to_lem (proposal 8) sample_log
