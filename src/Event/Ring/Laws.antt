-- ===== src/Event/Ring/Laws.antt =====
-- Creating the ring leaks no descriptor and leaves no init file, and puts a ring in place exactly if
-- it succeeds.
use monad_fork.Prelude.{
  ◌≡◌, refl, true, false, none, some, [], ◌∷◌, arith, ◌==◌, if◌then◌else◌, Option, List, ℕ,
}
use monad_fork.Event.{EventRingConfig}
use monad_fork.Node.Block.{Bytes}
use monad_fork.Event.Ring.{
  claim_opened, claim_event_ring_file, allocate_opened, allocate_event_ring_file, publish,
}
use monad_fork.Event.Files.{Opened, fd, failed_open, opened_readonly, opened_exclusive, Log, System}
use monad_fork.Event.Ring.Calls.{open_fds, put_in_place, same_path, is_left, is_blocked, exposed}

pub same_path_refl : (p : Bytes) → same_path p p ≡ true
unfolding same_path
same_path_refl [] = refl
same_path_refl (c ∷ p) = ground (arith, same_path_refl p)

-- The descriptors that stay open behind a call that hands one on.
abbrev pub with_fd : Option ℕ → List ℕ → List ℕ
with_fd none fds = fds
with_fd (some n) fds = n ∷ fds

module _ (os : System) where
  -- Claiming the name of the ring's file.
  claim_opened_lem :
      (ring_path init_path : Bytes) (o : Opened) (log : Log)
      → let r = claim_opened os ring_path o (opened_readonly ring_path o ∷ log) in
        (open_fds r.1 ≡ open_fds log)
        × (put_in_place r.1 ≡ put_in_place log)
        × (is_left init_path log ≡ false → is_left init_path r.1 ≡ false)
        × (is_blocked r.1 ≡ is_blocked log)
        × (is_blocked log ≡ true → exposed r.1 ≡ exposed log)
  unfolding claim_opened open_fds put_in_place is_left exposed
  claim_opened_lem ring_path init_path (failed_open e) log = (refl, refl, λ h. h, refl, λ h. refl)
  claim_opened_lem ring_path init_path (fd n) log =
      (ground arith, ground arith, λ h. ground arith, ground arith, λ h. ground arith)

  pub claim_lem :
      (ring_path init_path : Bytes) (log : Log)
      → let r = claim_event_ring_file os ring_path log in
        (open_fds r.1 ≡ open_fds log)
        × (put_in_place r.1 ≡ put_in_place log)
        × (is_left init_path log ≡ false → is_left init_path r.1 ≡ false)
        × (is_blocked r.1 ≡ is_blocked log)
        × (is_blocked log ≡ true → exposed r.1 ≡ exposed log)
  unfolding claim_event_ring_file
  claim_lem ring_path init_path log =
      claim_opened_lem ring_path init_path (os.open_readonly ring_path log) log

  -- Creating the init file; it is there only if a descriptor is handed on.
  allocate_opened_lem :
      (cfg : EventRingConfig) (init_path : Bytes) (o : Opened) (log : Log)
      → let r = allocate_opened os cfg o (opened_exclusive init_path o ∷ log) in
        (open_fds r.2 ≡ with_fd r.0 (open_fds log))
        × (put_in_place r.2 ≡ put_in_place log)
        × (is_blocked r.2 ≡ is_blocked log)
        × (is_blocked log ≡ true → exposed r.2 ≡ exposed log)
  unfolding allocate_opened open_fds put_in_place exposed
  allocate_opened_lem cfg init_path (failed_open e) log = (refl, refl, refl, λ h. ground arith)
  allocate_opened_lem cfg init_path (fd n) log =
      (ground arith, ground arith, ground arith, λ h. ground arith)

  pub allocate_lem :
      (cfg : EventRingConfig) (init_path : Bytes) (log : Log)
      → let r = allocate_event_ring_file os cfg init_path log in
        (open_fds r.2 ≡ with_fd r.0 (open_fds log))
        × (put_in_place r.2 ≡ put_in_place log)
        × (is_blocked r.2 ≡ is_blocked log)
        × (is_blocked log ≡ true → exposed r.2 ≡ exposed log)
  unfolding allocate_event_ring_file
  allocate_lem cfg init_path log =
      allocate_opened_lem cfg init_path (os.open_exclusive init_path log) log

  pub publish_lem :
      (init_path ring_path : Bytes) (ring_fd : Option ℕ) (log : Log)
      → let r = publish os init_path ring_path ring_fd log in
        (r.0 ≡ ring_fd)
        × (open_fds r.2 ≡ open_fds log)
        × (put_in_place r.2
            ≡ (if r.1 == 0 then (init_path, ring_path) ∷ put_in_place log else put_in_place log))
        × (is_left init_path r.2 ≡ false)
        × (is_blocked r.2 ≡ is_blocked log)
        × (is_blocked log ≡ true → exposed r.2 ≡ exposed log)
  unfolding publish open_fds put_in_place is_left exposed
  publish_lem init_path ring_path ring_fd log =
      let same = same_path_refl init_path in
      (ground arith, ground arith, ground arith, ground arith, ground arith, λ h. ground arith)
