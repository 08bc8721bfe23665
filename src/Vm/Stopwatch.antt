-- ===== src/Vm/Stopwatch.antt =====
-- cmd/vm/mce/src/stopwatch.hpp. A reading of the clock is in nanoseconds.
pub mod Laws
use monad_fork.Prelude.{◌+◌, ◌-◌, ◌/◌, true, false, none, some, if◌then◌else◌, Bool, Option, ℕ}
use monad_fork.Text.{codes, same_text}
use monad_fork.Node.Block.{Bytes}

pub data Timeunit : Type 0 where
  nano micro milli seconds : Timeunit

unfoldable pub short_string_of_timeunit : Timeunit → Bytes
short_string_of_timeunit nano = codes "ns"
short_string_of_timeunit micro = codes "us"
short_string_of_timeunit milli = codes "ms"
short_string_of_timeunit seconds = codes "s"

-- `none` is the exception.
unfoldable pub timeunit_of_short_string : Bytes → Option Timeunit
unfolding same_text
timeunit_of_short_string s =
    if same_text s (codes "ns")
    then some nano
    else if same_text s (codes "us")
    then some micro
    else if same_text s (codes "ms")
    then some milli
    else if same_text s (codes "s")
    then some seconds
    else none

pub record Stopwatch : Type 0 where
  pub running : Bool
  pub start_time : ℕ
  pub elapsed_time : ℕ

unfoldable pub stopped : Stopwatch
stopped = record { running = false; start_time = 0; elapsed_time = 0 }

unfoldable pub start_watch : ℕ → Stopwatch → Stopwatch
start_watch now w = if w.running then w else record w { start_time = now; running = true }

unfoldable pub pause_watch : ℕ → Stopwatch → Stopwatch
pause_watch now w =
    if w.running
    then record w { elapsed_time = w.elapsed_time + (now - w.start_time); running = false }
    else w

unfoldable pub elapsed : ℕ → Stopwatch → ℕ
elapsed now w = if w.running then w.elapsed_time + (now - w.start_time) else w.elapsed_time

-- The number that is formatted: a quotient of two durations.
unfoldable pub elapsed_in : Timeunit → ℕ → Stopwatch → ℕ
unfolding elapsed
elapsed_in nano now w = elapsed now w
elapsed_in micro now w = elapsed now w / 1000
elapsed_in milli now w = elapsed now w / 1000000
elapsed_in seconds now w = elapsed now w / 1000000000
