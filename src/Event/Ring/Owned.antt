-- ===== src/Event/Ring/Owned.antt =====
-- create_owned_event_ring and init_execution_event_recorder as a whole.
use monad_fork.Prelude.{
  ◌++◌, Option-cases, Option, ◌≡◌, refl, ◌≢◌, ◌⊎◌, inl, inr, true, false, none, some, ◌∷◌, arith,
  ◌==◌, if◌then◌else◌, Bool, ℕ,
}
use monad_fork.Event.Ring.{
  init_at, init_execution_event_recorder, claim_event_ring_file, allocate_opened,
  allocate_event_ring_file, publish, create_owned_event_ring, create_and_map,
}
use monad_fork.Event.Ring.Laws.{same_path_refl, claim_lem, allocate_lem, publish_lem, with_fd}
use monad_fork.Node.Block.{Bytes}
use monad_fork.Event.Files.{
  Log, Opened, fd, failed_open, opened_readonly, opened_exclusive, tried_flock, locked, initialized,
  renamed, closed, blocked_signals, System,
}
use monad_fork.Event.{EventRingConfig}
use monad_fork.Event.Ring.Calls.{open_fds, put_in_place, is_left, is_blocked, exposed}

Opened-cases : (o : Opened) → ((e : ℕ) × (o ≡ failed_open e)) ⊎ ((n : ℕ) × (o ≡ fd n))
Opened-cases (failed_open e) = inl (e, refl)
Opened-cases (fd n) = inr (n, refl)

-- A failed open sets errno, which is not 0.
abbrev pub SetsErrno : System → Type 0
SetsErrno os =
    (path : Bytes) (log : Log) (e : ℕ) → os.open_exclusive path log ≡ failed_open e → e ≢ 0

module _ (os : System) (cfg : EventRingConfig) where
  abbrev created : Bytes → Log → Option ℕ × ℕ × Log
  created ring_path log = create_owned_event_ring os cfg ring_path log

  create_lem :
      (ring_path : Bytes) (log : Log)
      → let r = created ring_path log in
        let init_path = os.init_path ring_path os.getpid in
        (open_fds r.2 ≡ with_fd r.0 (open_fds log))
        × (put_in_place r.2
            ≡ (if r.1 == 0 then (init_path, ring_path) ∷ put_in_place log else put_in_place log))
        × (is_left init_path log ≡ false → is_left init_path r.2 ≡ false)
        × (is_blocked r.2 ≡ is_blocked log)
        × (is_blocked log ≡ true → exposed r.2 ≡ exposed log)
  unfolding create_owned_event_ring open_fds put_in_place is_left exposed
  create_lem ring_path log =
      let init_path : Bytes = os.init_path ring_path os.getpid in
      let c = claim_lem os ring_path init_path log in
      let log₁ : Log = (claim_event_ring_file os ring_path log).1 in
      let a = allocate_lem os cfg init_path log₁ in
      let r : Option ℕ × ℕ × Log = allocate_event_ring_file os cfg init_path log₁ in
      let p = publish_lem os init_path ring_path r.0 r.2 in
      let same = same_path_refl init_path in
      (
        ground (arith, c.0, a.0, p.0, p.1),
        ground (arith, c.1, a.1, p.2),
        λ h. ground (arith, c.2 h, p.3, same),
        ground (arith, c.3, a.2, p.4),
        λ h. ground (arith, c.3, c.4 h, a.2, a.3, p.5),
      )

  -- Creating a ring leaves no init file behind, and hands on or closes every descriptor that it
  -- opened; and the init file is put in the ring's place, once, exactly if the return code is 0.
  pub create_owned_event_ring_lem :
      (ring_path : Bytes) (log : Log)
      → is_left (os.init_path ring_path os.getpid) log ≡ false
      → (is_left (os.init_path ring_path os.getpid) (created ring_path log).2 ≡ false)
        × (open_fds (created ring_path log).2 ≡ with_fd (created ring_path log).0 (open_fds log))
        × (put_in_place (created ring_path log).2 ≡ (
            if (created ring_path log).1 == 0
            then (os.init_path ring_path os.getpid, ring_path) ∷ put_in_place log
            else put_in_place log))
  create_owned_event_ring_lem ring_path log none_left =
      let c = create_lem ring_path log in (c.2 none_left, c.0, c.1)

  -- A ring that is put in place was created by this call, locked and initialized before, without an
  -- error in between, and nothing follows the rename.
  pub create_owned_event_ring_ok :
      (ring_path : Bytes) (log : Log) (ring_fd : Option ℕ) (log' : Log)
      → SetsErrno os
      → created ring_path log ≡ (ring_fd, 0, log')
      → (n : ℕ) × (ring_fd ≡ some n)
        × (log'
            ≡ renamed (os.init_path ring_path os.getpid) ring_path 0
              ∷ initialized cfg.descriptors_shift cfg.payload_buf_shift n 0
              ∷ locked n 0
              ∷ opened_exclusive (os.init_path ring_path os.getpid) (fd n)
              ∷ (claim_event_ring_file os ring_path log).1)
  unfolding create_owned_event_ring allocate_event_ring_file allocate_opened publish
  create_owned_event_ring_ok ring_path log ring_fd log' errno e =
      let init_path : Bytes = os.init_path ring_path os.getpid in
      let log₁ : Log = (claim_event_ring_file os ring_path log).1 in
      elim (Opened-cases (os.open_exclusive init_path log₁)) [
        | inl (x, p) ↦ absurd (ground (arith, errno init_path log₁ x p))
        | inr (n, p) ↦ (n, ground arith, ground arith)
      ]

  -- While another process holds the lock on the ring's file, the call gives that as its error, and all
  -- that it does is to open the file, to try the lock and to close it again.
  pub create_owned_event_ring_owned :
      (ring_path : Bytes) (log : Log) (n : ℕ)
      → os.open_readonly ring_path log ≡ fd n
      → os.flock_try n (opened_readonly ring_path (fd n) ∷ log) ≡ os.ewouldblock
      → os.ewouldblock ≢ 0
      → created ring_path log ≡ (
        none,
        os.ewouldblock,
        closed n ∷ tried_flock n os.ewouldblock ∷ opened_readonly ring_path (fd n) ∷ log,
      )
  unfolding create_owned_event_ring
  create_owned_event_ring_owned ring_path log n opened busy nonzero =
      rw (create_owned_event_ring, claim_event_ring_file, opened) (ground arith)

  -- A descriptor that was handed on is closed when the part with the file ends.
  create_and_map_lem :
      (huge : Bool) (log : Log)
      → let r = create_and_map os cfg huge log in
        (open_fds r.1 ≡ open_fds log) × (exposed r.1 ≡ exposed log)
  unfolding create_and_map open_fds exposed
  create_and_map_lem huge log =
      let blocked : Log = blocked_signals ∷ log in
      let c = create_lem cfg.event_ring_spec blocked in
      elim (Option-cases (created cfg.event_ring_spec blocked).0) [
        | inl p ↦ (ground (arith, c.0, p), ground (arith, c.4 refl, p))
        | inr (n, p) ↦ (ground (arith, c.0, p), ground (arith, c.4 refl, p))
      ]

  init_at_lem :
      (log : Log)
      → (open_fds (init_at os cfg log).1 ≡ open_fds log)
        × (exposed (init_at os cfg log).1 ≡ exposed log)
  unfolding init_at
  init_at_lem log =
      let c = create_and_map_lem (os.supports_hugetlb cfg.event_ring_spec log).1 log in
      (ground (arith, c.0), ground (arith, c.1))

-- Whichever way the set-up of the recorder ends, every descriptor that it opened is closed, and no
-- file was created, renamed or removed while a signal could end the process.
pub init_execution_event_recorder_lem :
    (os : System) (cfg : EventRingConfig) (is_set : Bool) (log : Log)
    → (open_fds (init_execution_event_recorder os cfg is_set log).1 ≡ open_fds log)
      × (exposed (init_execution_event_recorder os cfg is_set log).1 ≡ exposed log)
unfolding init_execution_event_recorder
init_execution_event_recorder_lem os cfg true log = (refl, refl)
init_execution_event_recorder_lem os cfg false log =
    let named = record cfg {
      event_ring_spec = (os.open_ring_dir log).1 ++ b'/' ∷ cfg.event_ring_spec;
    } in
    let a = init_at_lem os cfg log in
    let b = init_at_lem os named log in (ground (arith, a.0, b.0), ground (arith, a.1, b.1))
