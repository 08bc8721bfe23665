-- ===== src/Event/Laws.antt =====
-- Which configuration strings are accepted.
use monad_fork.Prelude.{
  ◌∙◌, ◌↔◌, sym, ap, List-cases, ◌≤◌, ◌≡◌, refl, inl, inr, true, false, [], ◌∷◌, arith, Bool, List,
  Bool-cases, All, ℕ,
}
use monad_fork.Event.{
  default_exec_ring_descriptors_shift, default_exec_ring_payload_buf_shift, not_integer, not_parsed,
  views_split, shift_token, with_payload, with_descriptors, config_of_tokens,
  try_parse_event_ring_config, IntToken, number, try_parse_int_token, ParsedConfig, parsed,
  uint8_max,
}
use monad_fork.Text.{is_digit, take_digits, drop_digits, number_of, digits_to_number}
use monad_fork.Node.Block.{Bytes}

abbrev pub IsDigits : Bytes → Type 0
IsDigits s = All (λ c. is_digit c ≡ true) s

-- A shift is left out, or it is a decimal number that fits a byte.
abbrev pub IsShift : Bytes → Type 0
IsShift [] = Unit
IsShift (c ∷ s) = IsDigits (c ∷ s) × (number_of 0 (c ∷ s) ≤ uint8_max)

abbrev pub IsConfig : List Bytes → Type 0
IsConfig [] = ⊥
IsConfig (spec ∷ []) = Unit
IsConfig (spec ∷ descriptors ∷ []) = IsShift descriptors
IsConfig (spec ∷ descriptors ∷ payload ∷ []) = IsShift descriptors × IsShift payload
IsConfig (spec ∷ descriptors ∷ payload ∷ extra ∷ more) = ⊥

abbrev pub is_parsed : ParsedConfig → Bool
is_parsed (parsed c) = true
is_parsed _ = false

abbrev is_number : IntToken → Bool
is_number (number n) = true
is_number _ = false

pub take_digits-digits : (s : Bytes) → IsDigits s → take_digits s ≡ s
unfolding take_digits
take_digits-digits [] d = refl
take_digits-digits (c ∷ s) d = ground (arith, take_digits-digits s d.1)

pub drop_digits-digits : (s : Bytes) → IsDigits s → drop_digits s ≡ []
unfolding drop_digits
drop_digits-digits [] d = refl
drop_digits-digits (c ∷ s) d = ground (arith, drop_digits-digits s d.1)

drop_digits-nil : (s : Bytes) → drop_digits s ≡ [] → IsDigits s
unfolding drop_digits
drop_digits-nil [] e = tt
drop_digits-nil (c ∷ s) e = elim (Bool-cases (is_digit c)) [
  | inl d ↦ (d, drop_digits-nil s (ground arith))
  | inr n ↦ absurd (ground arith)
]

-- A token with a character is a number exactly if it is digits and within the limit, and then it is
-- the number that the digits spell.
pub try_parse_int_token_number :
    (limit c : ℕ) (s : Bytes)
    → IsDigits (c ∷ s)
    → number_of 0 (c ∷ s) ≤ limit
    → try_parse_int_token limit (c ∷ s) ≡ number (number_of 0 (c ∷ s))
unfolding try_parse_int_token digits_to_number
try_parse_int_token_number limit c s d fits =
    rw (try_parse_int_token, take_digits-digits (c ∷ s) d, drop_digits-digits (c ∷ s) d)
      (ground arith)

try_parse_int_token-IsShift :
    (limit c : ℕ) (s : Bytes)
    → is_number (try_parse_int_token limit (c ∷ s)) ≡ true
    → IsDigits (c ∷ s) × (number_of 0 (c ∷ s) ≤ limit)
unfolding try_parse_int_token
try_parse_int_token-IsShift limit c s e = elim (List-cases (drop_digits (c ∷ s))) [
  | inr (x, xs, p) ↦ absurd (ground (arith, p))
  | inl p ↦
      let d = drop_digits-nil (c ∷ s) p in
      (d, ground (arith, take_digits-digits (c ∷ s) d, drop_digits-digits (c ∷ s) d))
]

shift_token_iff :
    (default_shift : ℕ) (s : Bytes) → (is_number (shift_token default_shift s) ≡ true) ↔ IsShift s
unfolding shift_token
shift_token_iff default_shift [] = (λ _. tt, λ _. refl)
shift_token_iff default_shift (c ∷ s) = (
  try_parse_int_token-IsShift uint8_max c s,
  λ (d, fits). ap is_number (try_parse_int_token_number uint8_max c s d fits),
)

with_payload-is_parsed :
    (spec : Bytes) (d : ℕ) (t : IntToken) → is_parsed (with_payload spec d t) ≡ is_number t
unfolding with_payload
with_payload-is_parsed spec d (number n) = refl
with_payload-is_parsed spec d not_integer = refl
with_payload-is_parsed spec d (not_parsed ec) = refl

with_descriptors-is_parsed :
    (spec payload : Bytes) (t : IntToken)
    → (is_parsed (with_descriptors spec payload t) ≡ true)
      ↔ ((is_number t ≡ true) × IsShift payload)
unfolding with_descriptors
with_descriptors-is_parsed spec payload (number d) =
    let same =
      with_payload-is_parsed spec d (shift_token default_exec_ring_payload_buf_shift payload) in
    let shift = shift_token_iff default_exec_ring_payload_buf_shift payload in
    (λ e. (refl, shift.0 (sym same ∙ e)), λ (_, p). same ∙ shift.1 p)
with_descriptors-is_parsed spec payload not_integer = (λ e. absurd (ground arith), λ (e, _). e)
with_descriptors-is_parsed spec payload (not_parsed ec) = (λ e. absurd (ground arith), λ (e, _). e)

config_of_tokens_iff :
    (tokens : List Bytes) → (is_parsed (config_of_tokens tokens) ≡ true) ↔ IsConfig tokens
unfolding config_of_tokens
config_of_tokens_iff [] = (λ e. absurd (ground arith), λ h. elim h [ ])
config_of_tokens_iff (spec ∷ []) =
    let w =
      with_descriptors-is_parsed spec [] (shift_token default_exec_ring_descriptors_shift []) in
    (λ _. tt, λ _. w.1 ((shift_token_iff default_exec_ring_descriptors_shift []).1 tt, tt))
config_of_tokens_iff (spec ∷ descriptors ∷ []) =
    let w =
      with_descriptors-is_parsed spec []
        (shift_token default_exec_ring_descriptors_shift descriptors) in
    let shift = shift_token_iff default_exec_ring_descriptors_shift descriptors in
    (λ e. shift.0 (w.0 e).0, λ d. w.1 (shift.1 d, tt))
config_of_tokens_iff (spec ∷ descriptors ∷ payload ∷ []) =
    let w =
      with_descriptors-is_parsed spec payload
        (shift_token default_exec_ring_descriptors_shift descriptors) in
    let shift = shift_token_iff default_exec_ring_descriptors_shift descriptors in
    (λ e. (shift.0 (w.0 e).0, (w.0 e).1), λ (d, p). w.1 (shift.1 d, p))
config_of_tokens_iff (spec ∷ descriptors ∷ payload ∷ extra ∷ more) =
    (λ e. absurd (ground arith), λ h. elim h [ ])

-- A configuration string is accepted exactly if it has one to three pieces between colons, and each
-- of the shifts is empty or a decimal number, nothing else behind it, of at most 255.
pub try_parse_event_ring_config_iff :
    (s : Bytes) → (is_parsed (try_parse_event_ring_config s) ≡ true) ↔ IsConfig (views_split b':' s)
unfolding try_parse_event_ring_config
try_parse_event_ring_config_iff s = config_of_tokens_iff (views_split b':' s)
