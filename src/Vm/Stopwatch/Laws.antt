-- ===== src/Vm/Stopwatch/Laws.antt =====
-- The names of the units, and the time that the stopwatch has measured.
use monad_fork.Text.Laws.{same_text-eq}
use monad_fork.Prelude.{
  ◌+◌, ◌-◌, ◌≤◌, ◌≡◌, ◌↔◌, true, false, some, [], ◌∷◌, arith, if◌then◌else◌, Bool, List, ℕ,
}
use monad_fork.Text.{codes}
use monad_fork.Vm.Stopwatch.{
  Timeunit, nano, micro, milli, seconds, short_string_of_timeunit, timeunit_of_short_string,
  Stopwatch, stopped, start_watch, pause_watch, elapsed,
}
use monad_fork.Node.Block.{Bytes}

named :
    (s : Bytes) (u : Timeunit)
    → timeunit_of_short_string s ≡ some u
    → s ≡ short_string_of_timeunit u
unfolding timeunit_of_short_string short_string_of_timeunit
named s u e = ground (
  arith,
  same_text-eq s (codes "ns"),
  same_text-eq s (codes "us"),
  same_text-eq s (codes "ms"),
  same_text-eq s (codes "s"),
)

-- A text is read as a unit exactly if it is that unit's short name; so each unit is read back from
-- its name, and every other text is refused.
pub timeunit_of_short_string_iff :
    (s : Bytes) (u : Timeunit)
    → (timeunit_of_short_string s ≡ some u) ↔ (s ≡ short_string_of_timeunit u)
unfolding timeunit_of_short_string short_string_of_timeunit
timeunit_of_short_string_iff s nano = (named s nano, λ e. rw e)
timeunit_of_short_string_iff s micro = (named s micro, λ e. rw e)
timeunit_of_short_string_iff s milli = (named s milli, λ e. rw e)
timeunit_of_short_string_iff s seconds = (named s seconds, λ e. rw e)

pub data Press : Type 0 where
  start pause : ℕ → Press

unfoldable pub press_all : List Press → Stopwatch → Stopwatch
press_all [] w = w
press_all (start t ∷ presses) w = press_all presses (start_watch t w)
press_all (pause t ∷ presses) w = press_all presses (pause_watch t w)

-- The readings of the clock do not go back.
abbrev pub InOrder : ℕ → List Press → ℕ → Type 0
InOrder last [] now = last ≤ now
InOrder last (start t ∷ presses) now = (last ≤ t) × InOrder t presses now
InOrder last (pause t ∷ presses) now = (last ≤ t) × InOrder t presses now

-- The time between the readings up to `now`, where the last press was a start.
abbrev pub measured : Bool → ℕ → List Press → ℕ → ℕ
measured on last [] now = if on then now - last else 0
measured on last (start t ∷ presses) now =
    (if on then t - last else 0) + measured true t presses now
measured on last (pause t ∷ presses) now =
    (if on then t - last else 0) + measured false t presses now

elapsed-measured :
    (presses : List Press) (w : Stopwatch) (last now : ℕ)
    → InOrder last presses now
    → w.start_time ≤ last
    → elapsed now (press_all presses w)
      ≡ (if w.running then w.elapsed_time + (last - w.start_time) else w.elapsed_time)
        + measured w.running last presses now
unfolding elapsed press_all start_watch pause_watch
elapsed-measured [] w last now order before = ground arith
elapsed-measured (start t ∷ presses) w last now order before =
    ground (arith, elapsed-measured presses (start_watch t w) t now order.1)
elapsed-measured (pause t ∷ presses) w last now order before =
    ground (arith, elapsed-measured presses (pause_watch t w) t now order.1)

-- On a clock that does not go back, the stopwatch shows the time that has passed behind presses of
-- start up to the next press of pause, however often either is pressed and also while it runs.
pub elapsed_lem :
    (presses : List Press) (now : ℕ)
    → InOrder 0 presses now
    → elapsed now (press_all presses stopped) ≡ measured false 0 presses now
unfolding stopped
elapsed_lem presses now order =
    omega (arith, elapsed-measured presses stopped 0 now order (omega arith))
