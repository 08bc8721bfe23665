-- ===== src/Event/Ring.antt =====
-- cmd/monad/event.cpp: creation of the ring's file. A step answers with its error number, 0 for
-- success, and with the log.
pub mod Calls
pub mod Laws
pub mod Owned
use monad_fork.Prelude.{
  true, false, ◌||◌, none, some, [], ◌∷◌, ◌++◌, ◌==◌, ◌!=◌, if◌then◌else◌, Bool, Option, ℕ,
}
use monad_fork.Event.{EventRingConfig}
use monad_fork.Event.Files.{
  mapped, Opened, fd, failed_open, opened_readonly, opened_exclusive, tried_flock, locked,
  initialized, unlinked, renamed, closed, blocked_signals, restored_signals, Log, System,
}
use monad_fork.Node.Outcome.{Outcome, ok, abort}
use monad_fork.Node.Block.{Bytes}

-- What follows the lock on a file that was there: it is a zombie, and it is destroyed.
unfoldable pub after_try : System → Bytes → ℕ → Log → ℕ × Log
after_try os ring_path rc log =
    if rc == 0
    then (0, unlinked ring_path ∷ log)
    else if rc == os.ewouldblock
    then (os.ewouldblock, log)
    else (rc, log)

-- The descriptor is closed on each return.
unfoldable pub claim_opened : System → Bytes → Opened → Log → ℕ × Log
unfolding after_try
claim_opened os ring_path (failed_open e) log = (0, log)
claim_opened os ring_path (fd n) log =
    let rc = os.flock_try n log in
    let (r, log') = after_try os ring_path rc (tried_flock n rc ∷ log) in (r, closed n ∷ log')

unfoldable pub claim_event_ring_file : System → Bytes → Log → ℕ × Log
unfolding claim_opened
claim_event_ring_file os ring_path log =
    let o = os.open_readonly ring_path log in
    claim_opened os ring_path o (opened_readonly ring_path o ∷ log)

-- The descriptor, none for -1, and the error number.
unfoldable pub allocate_opened : System → EventRingConfig → Opened → Log → Option ℕ × ℕ × Log
allocate_opened os cfg (failed_open e) log = (none, e, log)
allocate_opened os cfg (fd n) log =
    let rc = os.flock n log in
    let log' = locked n rc ∷ log in
    if rc != 0
    then (some n, rc, log')
    else (let ri = os.init_simple cfg.descriptors_shift cfg.payload_buf_shift n log' in
        (some n, ri, initialized cfg.descriptors_shift cfg.payload_buf_shift n ri ∷ log'))

unfoldable pub allocate_event_ring_file :
    System → EventRingConfig → Bytes → Log → Option ℕ × ℕ × Log
unfolding allocate_opened
allocate_event_ring_file os cfg init_path log =
    let o = os.open_exclusive init_path log in
    allocate_opened os cfg o (opened_exclusive init_path o ∷ log)

-- The rename; where it fails, the init file is removed.
unfoldable pub publish : System → Bytes → Bytes → Option ℕ → Log → Option ℕ × ℕ × Log
publish os init_path ring_path ring_fd log =
    let rc = os.rename_noreplace init_path ring_path log in
    let log' = renamed init_path ring_path rc ∷ log in
    if rc != 0 then (ring_fd, rc, unlinked init_path ∷ log') else (ring_fd, 0, log')

unfoldable pub create_owned_event_ring : System → EventRingConfig → Bytes → Log → Option ℕ × ℕ × Log
unfolding claim_event_ring_file allocate_event_ring_file publish
create_owned_event_ring os cfg ring_path log =
    let init_path = os.init_path ring_path os.getpid in
    let (claimed, log₁) = claim_event_ring_file os ring_path log in
    if claimed != 0
    then (none, claimed, log₁)
    else (let (ring_fd, rc, log₂) = allocate_event_ring_file os cfg init_path log₁ in
        if rc != 0
        then (ring_fd, rc, unlinked init_path ∷ log₂)
        else publish os init_path ring_path ring_fd log₂)

unfoldable pub create_owned_event_ring_nointr :
    System → EventRingConfig → Bytes → Log → Option ℕ × ℕ × Log
unfolding create_owned_event_ring
create_owned_event_ring_nointr os cfg ring_path log =
    let (ring_fd, rc, log') = create_owned_event_ring os cfg ring_path (blocked_signals ∷ log) in
    (ring_fd, rc, restored_signals ∷ log')

-- gnu::cleanup(cleanup_close): there is nothing to close at -1.
unfoldable pub cleanup_close : Option ℕ → Log → Log
cleanup_close none log = log
cleanup_close (some n) log = closed n ∷ log

unfoldable pub map_ring : System → Bool → Option ℕ → Log → ℕ × Log
map_ring os huge ring_fd log =
    (os.mmap ring_fd huge log, mapped ring_fd huge (os.mmap ring_fd huge log) ∷ log)

-- The part with the ring's file; the descriptor is closed when it ends, whichever way.
unfoldable pub create_and_map : System → EventRingConfig → Bool → Log → ℕ × Log
unfolding create_owned_event_ring_nointr cleanup_close map_ring
create_and_map os cfg huge log =
    let (ring_fd, rc, log') = create_owned_event_ring_nointr os cfg cfg.event_ring_spec log in
    if rc != 0
    then (rc, cleanup_close ring_fd log')
    else (let (rm, log'') = map_ring os huge ring_fd log' in (rm, cleanup_close ring_fd log''))

unfoldable pub contains_slash : Bytes → Bool
contains_slash [] = false
contains_slash (c ∷ s) = c == b'/' || contains_slash s

-- From the check of the file system on.
unfoldable pub init_at : System → EventRingConfig → Log → ℕ × Log
unfolding create_and_map
init_at os cfg log =
    let (rc, huge) = os.supports_hugetlb cfg.event_ring_spec log in
    if rc != 0 then (rc, log) else create_and_map os cfg huge log

-- Whether the recorder is there, and the return code: with 0 the recorder is made.
unfoldable pub init_execution_event_recorder :
    System → EventRingConfig → Bool → Log → Outcome (Bool × ℕ) × Log
unfolding init_at contains_slash
init_execution_event_recorder os cfg true log = (abort, log)
init_execution_event_recorder os cfg false log =
    let (rd, dir) = os.open_ring_dir log in
    if contains_slash cfg.event_ring_spec
    then (let (rc, log') = init_at os cfg log in (ok (rc == 0, rc), log'))
    else if rd != 0
    then (ok (false, rd), log)
    else (let (rc, log') =
          init_at os (record cfg { event_ring_spec = dir ++ b'/' ∷ cfg.event_ring_spec }) log in
        (ok (rc == 0, rc), log'))
