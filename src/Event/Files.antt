-- ===== src/Event/Files.antt =====
-- The calls that event.cpp makes of the operating system and of the event library. Their state is not
-- readable here, so it is the log of the calls made, newest first, each with its answer, and an
-- answer is a function of the log. An error number 0 stands for success.
use monad_fork.Prelude.{Option, Bool, List, ℕ}
use monad_fork.Node.Block.{Bytes}

-- A file descriptor, or errno.
pub data Opened : Type 0 where
  fd : ℕ → Opened
  failed_open : ℕ → Opened

pub data FileCall : Type 0 where
  -- open(path, O_RDONLY), open(path, O_RDWR | O_CREAT | O_EXCL)
  opened_readonly opened_exclusive : Bytes → Opened → FileCall
  -- flock(fd, LOCK_EX | LOCK_NB), flock(fd, LOCK_EX)
  tried_flock locked : ℕ → ℕ → FileCall
  -- monad_event_ring_init_simple of the descriptor, with the two shifts
  initialized : ℕ → ℕ → ℕ → ℕ → FileCall
  unlinked : Bytes → FileCall
  -- renameat2 with RENAME_NOREPLACE
  renamed : Bytes → Bytes → ℕ → FileCall
  closed : ℕ → FileCall
  blocked_signals restored_signals : FileCall
  -- monad_event_ring_mmap, with MAP_HUGETLB or not
  mapped : Option ℕ → Bool → ℕ → FileCall

abbrev pub Log : Type 0
Log = List FileCall

pub record System : Type 0 where
  pub getpid : ℕ
  pub open_readonly : Bytes → Log → Opened
  pub open_exclusive : Bytes → Log → Opened
  pub flock_try : ℕ → Log → ℕ
  pub flock : ℕ → Log → ℕ
  pub init_simple : ℕ → ℕ → ℕ → Log → ℕ
  pub rename_noreplace : Bytes → Bytes → Log → ℕ
  pub mmap : Option ℕ → Bool → Log → ℕ
  pub ewouldblock : ℕ
  -- monad_event_open_ring_dir_fd: an error, or the directory
  pub open_ring_dir : Log → ℕ × Bytes
  -- monad_check_path_supports_map_hugetlb: an error, and the answer
  pub supports_hugetlb : Bytes → Log → ℕ × Bool
  -- replace_filename(std::format("{}.{}", filename, pid))
  pub init_path : Bytes → ℕ → Bytes
