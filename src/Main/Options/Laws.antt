-- ===== src/Main/Options/Laws.antt =====
-- The options are checked before they are used.
-- A value that is given passes its option's check, but an empty value, which an option that needs
-- none may have, is not checked.
use monad_fork.Prelude.{
  ◌≡◌, inl, inr, true, none, some, [], ◌∷◌, arith, if◌then◌else◌, ℕ, subst, Bool, Option, List,
  Bool-cases, All,
}
use monad_fork.Text.{codes, same_text}
use monad_fork.Node.Block.{Bytes}
use monad_fork.Main.Options.{
  Paths, NodeArguments, check_event_ring, check_value, assign_option, assign_number, assign_flag,
  assign_given,
}
use monad_fork.Text.Laws.{same_text-eq}
use monad_fork.Text.Cli11.{Given, option_is, number_is, flag_is}

abbrev pub IsChecked : (Bytes → Bytes → Bool) → Given → Type 0
IsChecked check (option_is name []) = Unit
IsChecked check (option_is name (c ∷ value)) = check name (c ∷ value) ≡ true
IsChecked check (number_is name n) = Unit
IsChecked check (flag_is name on) = Unit

-- A configuration of the ring, where it is given and not empty, is accepted.
abbrev pub IsAccepted : Option Bytes → Type 0
IsAccepted none = Unit
IsAccepted (some []) = Unit
IsAccepted (some (c ∷ s)) = check_event_ring (c ∷ s) ≡ true

abbrev ring_option : Bytes
ring_option = codes "--exec-event-ring"

assign_option-ring :
    (name value : Bytes) (args : NodeArguments)
    → (assign_option name value args).exec_event_ring_config
      ≡ (if same_text name ring_option then some value else args.exec_event_ring_config)
unfolding assign_option
assign_option-ring name value args = ground arith

assign_number-ring :
    (name : Bytes) (n : ℕ) (args : NodeArguments)
    → (assign_number name n args).exec_event_ring_config ≡ args.exec_event_ring_config
unfolding assign_number
assign_number-ring name n args = ground arith

assign_flag-ring :
    (name : Bytes) (on : Bool) (args : NodeArguments)
    → (assign_flag name on args).exec_event_ring_config ≡ args.exec_event_ring_config
unfolding assign_flag
assign_flag-ring name on args = ground arith

check_value-ring :
    (paths : Paths) (value : Bytes)
    → IsChecked (check_value paths) (option_is ring_option value)
    → IsAccepted (some value)
unfolding check_value same_text
check_value-ring paths [] checked = tt
check_value-ring paths (c ∷ value) checked = checked

assign_option-IsAccepted :
    (paths : Paths) (name value : Bytes) (args : NodeArguments)
    → IsChecked (check_value paths) (option_is name value)
    → IsAccepted args.exec_event_ring_config
    → IsAccepted (assign_option name value args).exec_event_ring_config
assign_option-IsAccepted paths name value args checked held =
    elim (Bool-cases (same_text name ring_option)) [
      | inl p ↦
          rw (assign_option-ring name value args, p)
            (check_value-ring paths value (
              subst (λ n. IsChecked (check_value paths) (option_is n value))
                (same_text-eq name ring_option p) checked))
      | inr p ↦ rw (assign_option-ring name value args, p) held
    ]

pub assign_given-IsAccepted :
    (paths : Paths) (given : List Given) (args : NodeArguments)
    → All (IsChecked (check_value paths)) given
    → IsAccepted args.exec_event_ring_config
    → IsAccepted (assign_given given args).exec_event_ring_config
unfolding assign_given
assign_given-IsAccepted paths [] args checked held = held
assign_given-IsAccepted paths (option_is name value ∷ more) args (here, rest) held =
    assign_given-IsAccepted paths more (assign_option name value args) rest
      (assign_option-IsAccepted paths name value args here held)
assign_given-IsAccepted paths (number_is name n ∷ more) args (here, rest) held =
    assign_given-IsAccepted paths more (assign_number name n args) rest
      (rw (assign_number-ring name n args) held)
assign_given-IsAccepted paths (flag_is name on ∷ more) args (here, rest) held =
    assign_given-IsAccepted paths more (assign_flag name on args) rest
      (rw (assign_flag-ring name on args) held)
