-- ===== src/Event/Ring/Calls.antt =====
-- What a log says: the descriptors that are open, the ring that was put in place, the init file that
-- is left, and the changes made while signals could end the process.
use monad_fork.Prelude.{
  ◌+◌, true, false, ◌&&◌, ◌||◌, [], ◌∷◌, ◌==◌, if◌then◌else◌, Bool, not, List, ℕ,
}
use monad_fork.Text.{same_text}
use monad_fork.Node.Block.{Bytes}
use monad_fork.Event.Files.{
  fd, opened_readonly, opened_exclusive, unlinked, renamed, closed, blocked_signals,
  restored_signals, Log,
}

abbrev pub remove_first : ℕ → List ℕ → List ℕ
remove_first n [] = []
remove_first n (m ∷ ms) = let rest = m ∷ remove_first n ms in if m == n then ms else rest

unfoldable pub open_fds : Log → List ℕ
open_fds [] = []
open_fds (opened_readonly p (fd n) ∷ log) = n ∷ open_fds log
open_fds (opened_exclusive p (fd n) ∷ log) = n ∷ open_fds log
open_fds (closed n ∷ log) = remove_first n (open_fds log)
open_fds (_ ∷ log) = open_fds log

-- The successful renames, newest first.
unfoldable pub put_in_place : Log → List (Bytes × Bytes)
put_in_place [] = []
put_in_place (renamed p q rc ∷ log) =
    let rest = put_in_place log in if rc == 0 then (p, q) ∷ rest else rest
put_in_place (_ ∷ log) = put_in_place log

unfoldable pub same_path : Bytes → Bytes → Bool
unfolding same_text
same_path p q = same_text p q

-- Whether the file of this name was created and neither renamed nor removed since.
unfoldable pub is_left : Bytes → Log → Bool
unfolding same_path
is_left p [] = false
is_left p (opened_exclusive q (fd n) ∷ log) = let rest = is_left p log in same_path p q || rest
is_left p (unlinked q ∷ log) = let rest = is_left p log in not (same_path p q) && rest
is_left p (renamed q r rc ∷ log) =
    let rest = is_left p log in not (same_path p q && rc == 0) && rest
is_left p (_ ∷ log) = is_left p log

unfoldable pub is_blocked : Log → Bool
is_blocked [] = false
is_blocked (blocked_signals ∷ log) = true
is_blocked (restored_signals ∷ log) = false
is_blocked (_ ∷ log) = is_blocked log

-- The creations, renames and removals that a signal could have interrupted.
unfoldable pub exposed : Log → ℕ
unfolding is_blocked
exposed [] = 0
exposed (opened_exclusive p o ∷ log) =
    let rest = exposed log in if is_blocked log then rest else rest + 1
exposed (unlinked p ∷ log) = let rest = exposed log in if is_blocked log then rest else rest + 1
exposed (renamed p q rc ∷ log) = let rest = exposed log in if is_blocked log then rest else rest + 1
exposed (_ ∷ log) = exposed log
