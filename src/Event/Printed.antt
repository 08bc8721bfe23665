-- ===== src/Event/Printed.antt =====
-- A configuration is read back from its text.
use monad_fork.Node.Block.{Bytes}
use monad_fork.Event.{
  views_split, default_exec_ring_descriptors_shift, default_exec_ring_payload_buf_shift, number,
  parsed, uint8_max, shift_token, with_payload, with_descriptors, config_of_tokens,
  try_parse_event_ring_config,
}
use monad_fork.Prelude.{
  ◌+◌, ◌/◌, ◌%◌, ◌≤◌, ◌≡◌, refl, ◌∙◌, ◌≢◌, false, none, some, [], ◌∷◌, ◌++◌, arith, ◌==◌,
  if◌then◌else◌, ap, Option, ltb, All, ℕ,
}
use monad_fork.Text.{number_of, split}
use monad_fork.Event.Laws.{IsDigits, try_parse_int_token_number}

-- The decimal text of a uint8_t.
abbrev pub decimal : ℕ → Bytes
decimal n =
    if ltb n 10
    then (b'0' + n) ∷ []
    else if ltb n 100
    then (b'0' + n / 10) ∷ (b'0' + n % 10) ∷ []
    else (b'0' + n / 100) ∷ (b'0' + n / 10 % 10) ∷ (b'0' + n % 10) ∷ []

abbrev pub shift_text : Option ℕ → Bytes
shift_text none = []
shift_text (some n) = decimal n

abbrev pub shift_or : ℕ → Option ℕ → ℕ
shift_or default_shift none = default_shift
shift_or default_shift (some n) = n

-- A shift is left out, or it fits a byte.
abbrev pub Fits : Option ℕ → Type 0
Fits none = Unit
Fits (some n) = n ≤ uint8_max

-- `<ring-name-or-path>:<descriptor-shift>:<buf-shift>`
abbrev pub config_text : Bytes → Option ℕ → Option ℕ → Bytes
config_text spec descriptors payload =
    spec ++ b':' ∷ (shift_text descriptors ++ b':' ∷ shift_text payload)

abbrev pub HasNo : ℕ → Bytes → Type 0
HasNo sep s = All (λ c. (c == sep) ≡ false) s

split-none : (sep : ℕ) (s : Bytes) → HasNo sep s → split sep s ≡ s ∷ []
unfolding split
split-none sep [] h = refl
split-none sep (c ∷ s) h = ground (arith, split-none sep s h.1)

split-append :
    (sep : ℕ) (s rest : Bytes) → HasNo sep s → split sep (s ++ sep ∷ rest) ≡ s ∷ split sep rest
unfolding split
split-append sep [] rest h = ground arith
split-append sep (c ∷ s) rest h = ground (arith, split-append sep s rest h.1)

views_split-cons :
    (sep : ℕ) (s rest : Bytes) → views_split sep (s ++ sep ∷ rest) ≡ split sep (s ++ sep ∷ rest)
unfolding views_split
views_split-cons sep [] rest = refl
views_split-cons sep (c ∷ s) rest = refl

decimal_lem :
    (n : ℕ)
    → n ≤ uint8_max
    → HasNo b':' (decimal n)
      × IsDigits (decimal n)
      × (decimal n ≢ [])
      × (number_of 0 (decimal n) ≡ n)
unfolding number_of
decimal_lem n fits = (ground arith, ground arith, ground arith, ground arith)

shift_text-HasNo : (o : Option ℕ) → Fits o → HasNo b':' (shift_text o)
shift_text-HasNo none fits = tt
shift_text-HasNo (some n) fits = (decimal_lem n fits).0

shift_token-digits :
    (default_shift n : ℕ) (s : Bytes)
    → IsDigits s
    → s ≢ []
    → number_of 0 s ≡ n
    → n ≤ uint8_max
    → shift_token default_shift s ≡ number n
unfolding shift_token
shift_token-digits default_shift n [] d nonempty e fits = absurd (nonempty refl)
shift_token-digits default_shift n (c ∷ s) d nonempty e fits =
    try_parse_int_token_number uint8_max c s d (omega (arith, e)) ∙ ap number e

shift_token-shift_text :
    (default_shift : ℕ) (o : Option ℕ)
    → Fits o
    → shift_token default_shift (shift_text o) ≡ number (shift_or default_shift o)
unfolding shift_token
shift_token-shift_text default_shift none fits = refl
shift_token-shift_text default_shift (some n) fits =
    let (_, digits, nonempty, value) = decimal_lem n fits in
    shift_token-digits default_shift n (decimal n) digits nonempty value fits

-- The text of a configuration, whose name has no colon and whose shifts are left out or fit a byte,
-- is read back as that configuration, with the default for a shift that was left out.
pub try_parse_event_ring_config-config_text :
    (spec : Bytes) (descriptors payload : Option ℕ)
    → HasNo b':' spec
    → Fits descriptors
    → Fits payload
    → try_parse_event_ring_config (config_text spec descriptors payload)
      ≡ parsed (record {
        event_ring_spec = spec;
        descriptors_shift = shift_or default_exec_ring_descriptors_shift descriptors;
        payload_buf_shift = shift_or default_exec_ring_payload_buf_shift payload;
      })
unfolding try_parse_event_ring_config
try_parse_event_ring_config-config_text spec descriptors payload plain small small' =
    let tail_ : Bytes = shift_text descriptors ++ b':' ∷ shift_text payload in
    let pieces : views_split b':' (config_text spec descriptors payload)
        ≡ spec ∷ shift_text descriptors ∷ shift_text payload ∷ [] =
      views_split-cons b':' spec tail_
      ∙ split-append b':' spec tail_ plain
      ∙ ap (◌∷◌ spec) (
          split-append b':' (shift_text descriptors) (shift_text payload)
            (shift_text-HasNo descriptors small)
          ∙ ap (◌∷◌ (shift_text descriptors))
              (split-none b':' (shift_text payload) (shift_text-HasNo payload small'))) in
    rw
      (
        try_parse_event_ring_config,
        pieces,
        config_of_tokens,
        shift_token-shift_text default_exec_ring_descriptors_shift descriptors small,
        with_descriptors,
        shift_token-shift_text default_exec_ring_payload_buf_shift payload small',
        with_payload,
      )
      refl
