-- ===== src/Tests/Rings.antt =====
-- The theorems on the event ring, on a system where every call succeeds, and on one where another
-- process owns the ring.
use monad_fork.Event.Ring.{
  claim_event_ring_file, create_owned_event_ring, init_execution_event_recorder,
}
use monad_fork.Prelude.{
  ◌≡◌, refl, ◌↔◌, true, false, none, some, [], ◌∷◌, ◌++◌, arith, ◌==◌, if◌then◌else◌, ℕ,
}
use monad_fork.Text.{codes}
use monad_fork.Node.Block.{Bytes}
use monad_fork.Event.{EventRingConfig, parsed, views_split, try_parse_event_ring_config}
use monad_fork.Event.Laws.{is_parsed, IsConfig, try_parse_event_ring_config_iff}
use monad_fork.Event.Printed.{config_text, try_parse_event_ring_config-config_text}
use monad_fork.Event.Files.{fd, opened_exclusive, locked, initialized, renamed, Log, System}
use monad_fork.Event.Ring.Calls.{open_fds, put_in_place, is_left, exposed}
use monad_fork.Event.Ring.Laws.{with_fd}
use monad_fork.Event.Ring.Owned.{
  SetsErrno, create_owned_event_ring_lem, create_owned_event_ring_ok,
  init_execution_event_recorder_lem,
}

-- A zombie is there, with descriptor 4; the init file gets descriptor 3.
abbrev pub sample_system : System
sample_system = record {
  getpid = 7;
  open_readonly = λ path log. fd 4;
  open_exclusive = λ path log. fd 3;
  flock_try = λ n log. 0;
  flock = λ n log. 0;
  init_simple = λ d p n log. 0;
  rename_noreplace = λ from to log. 0;
  mmap = λ ring_fd huge log. 0;
  ewouldblock = 11;
  open_ring_dir = λ log. (0, codes "/rings");
  supports_hugetlb = λ path log. (0, true);
  init_path = λ path pid. path ++ codes ".7";
}

abbrev sample_config : EventRingConfig
sample_config = record {
  event_ring_spec = codes "/rings/exec";
  descriptors_shift = 21;
  payload_buf_shift = 29;
}

abbrev ring_path : Bytes
ring_path = codes "/rings/exec"

abbrev init_path : Bytes
init_path = codes "/rings/exec.7"

abbrev sample_log : Log
sample_log = (create_owned_event_ring sample_system sample_config ring_path []).2

sample-SetsErrno : SetsErrno sample_system
sample-SetsErrno path log e h = absurd (ground arith)

create_owned_event_ring_lem_example :
    (is_left init_path sample_log ≡ false)
    × (open_fds sample_log
        ≡ with_fd
            (create_owned_event_ring sample_system sample_config ring_path []).0
            (open_fds []))
    × (put_in_place sample_log ≡ (
        if (create_owned_event_ring sample_system sample_config ring_path []).1 == 0
        then (init_path, ring_path) ∷ put_in_place []
        else put_in_place []))
unfolding is_left
create_owned_event_ring_lem_example =
    create_owned_event_ring_lem sample_system sample_config ring_path [] refl

create_owned_event_ring_ok_example :
    (n : ℕ) × (some 3 ≡ some n)
    × (sample_log
        ≡ renamed init_path ring_path 0
          ∷ initialized 21 29 n 0
          ∷ locked n 0
          ∷ opened_exclusive init_path (fd n)
          ∷ (claim_event_ring_file sample_system ring_path []).1)
unfolding create_owned_event_ring
create_owned_event_ring_ok_example =
    create_owned_event_ring_ok sample_system sample_config ring_path [] (some 3) sample_log
      sample-SetsErrno refl

init_execution_event_recorder_lem_example :
    let log = (init_execution_event_recorder sample_system sample_config false []).1 in
    (open_fds log ≡ open_fds []) × (exposed log ≡ exposed [])
init_execution_event_recorder_lem_example =
    init_execution_event_recorder_lem sample_system sample_config false []

try_parse_event_ring_config_iff_example :
    (is_parsed (try_parse_event_ring_config (codes "exec:12:256")) ≡ true)
    ↔ IsConfig (views_split b':' (codes "exec:12:256"))
try_parse_event_ring_config_iff_example = try_parse_event_ring_config_iff (codes "exec:12:256")

try_parse_event_ring_config-config_text_example :
    try_parse_event_ring_config (config_text (codes "exec") none (some 30))
    ≡ parsed
        (record { event_ring_spec = codes "exec"; descriptors_shift = 21; payload_buf_shift = 30 })
try_parse_event_ring_config-config_text_example =
    try_parse_event_ring_config-config_text (codes "exec") none (some 30) (ground arith) tt
      (omega arith)
