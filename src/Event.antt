-- ===== src/Event.antt =====
-- cmd/monad/event.cpp: the execution event ring; here its configuration string.
pub mod Laws
pub mod Printed
pub mod Files
pub mod Ring
use monad_fork.Prelude.{[], ◌∷◌, List, ℕ}
use monad_fork.Text.{Errc, no_error, FromChars, from_chars, split}
use monad_fork.Node.Block.{Bytes}

pub record EventRingConfig : Type 0 where
  pub event_ring_spec : Bytes
  pub descriptors_shift : ℕ
  pub payload_buf_shift : ℕ

abbrev pub default_exec_ring_descriptors_shift : ℕ
default_exec_ring_descriptors_shift = 21

abbrev pub default_exec_ring_payload_buf_shift : ℕ
default_exec_ring_payload_buf_shift = 29

-- The number, or which of the two texts is returned.
pub data IntToken : Type 0 where
  number : ℕ → IntToken
  not_integer : IntToken
  not_parsed : Errc → IntToken

-- What from_chars left over is looked at before its error code.
unfoldable pub int_token : FromChars → IntToken
int_token r = elim r.rest [
  | _ ∷ _ ↦ not_integer
  | [] ↦ elim r.ec [ no_error ↦ number r.value | ec ↦ not_parsed ec ]
]

unfoldable pub try_parse_int_token : ℕ → Bytes → IntToken
unfolding from_chars int_token
try_parse_int_token limit s = int_token (from_chars limit s)

-- std::views::split: an empty text has no pieces, any other what `split` gives.
unfoldable pub views_split : ℕ → Bytes → List Bytes
unfolding split
views_split sep [] = []
views_split sep (c ∷ s) = split sep (c ∷ s)

-- std::expected, by the text of the error.
pub data ParsedConfig : Type 0 where
  parsed : EventRingConfig → ParsedConfig
  bad_format : ParsedConfig
  bad_descriptors_shift bad_payload_buf_shift : IntToken → ParsedConfig

abbrev pub uint8_max : ℕ
uint8_max = 255

-- An absent or empty token stands for the default.
unfoldable pub shift_token : ℕ → Bytes → IntToken
unfolding try_parse_int_token
shift_token default_shift [] = number default_shift
shift_token default_shift (c ∷ s) = try_parse_int_token uint8_max (c ∷ s)

unfoldable pub with_payload : Bytes → ℕ → IntToken → ParsedConfig
with_payload spec descriptors (number payload) = parsed (record {
  event_ring_spec = spec;
  descriptors_shift = descriptors;
  payload_buf_shift = payload;
})
with_payload spec descriptors not_integer = bad_payload_buf_shift not_integer
with_payload spec descriptors (not_parsed ec) = bad_payload_buf_shift (not_parsed ec)

unfoldable pub with_descriptors : Bytes → Bytes → IntToken → ParsedConfig
unfolding with_payload shift_token
with_descriptors spec payload (number descriptors) =
    with_payload spec descriptors (shift_token default_exec_ring_payload_buf_shift payload)
with_descriptors spec payload not_integer = bad_descriptors_shift not_integer
with_descriptors spec payload (not_parsed ec) = bad_descriptors_shift (not_parsed ec)

unfoldable pub config_of_tokens : List Bytes → ParsedConfig
unfolding with_descriptors shift_token
config_of_tokens [] = bad_format
config_of_tokens (spec ∷ []) =
    with_descriptors spec [] (shift_token default_exec_ring_descriptors_shift [])
config_of_tokens (spec ∷ descriptors ∷ []) =
    with_descriptors spec [] (shift_token default_exec_ring_descriptors_shift descriptors)
config_of_tokens (spec ∷ descriptors ∷ payload ∷ []) =
    with_descriptors spec payload (shift_token default_exec_ring_descriptors_shift descriptors)
config_of_tokens (spec ∷ descriptors ∷ payload ∷ extra ∷ more) = bad_format

unfoldable pub try_parse_event_ring_config : Bytes → ParsedConfig
unfolding views_split config_of_tokens
try_parse_event_ring_config s = config_of_tokens (views_split b':' s)
