-- ===== src/Text.antt =====
-- Text as bytes, and the parts of the standard library that cmd/ parses its input with.
pub mod Laws
pub mod Cli11
use monad_fork.Prelude.{
  ◌+◌, ◌-◌, ◌*◌, true, false, ◌&&◌, [], ◌∷◌, ◌==◌, if◌then◌else◌, ℕ, Bool, List, leb,
}
use monad_fork.Node.Block.{Bytes}
use Prim.Native.String.{String}
use Prim.Native.Char.{code}

abbrev pub codes : String → Bytes
codes String.[] = []
codes (String.◌∷◌ c s) = code c ∷ codes s

unfoldable pub same_text : Bytes → Bytes → Bool
same_text [] [] = true
same_text (a ∷ s) (b ∷ t) = a == b && same_text s t
same_text _ _ = false

abbrev pub is_digit : ℕ → Bool
is_digit c = leb b'0' c && leb c b'9'

-- std::errc, as std::from_chars sets it
pub data Errc : Type 0 where
  no_error invalid_argument result_out_of_range : Errc

-- The result of std::from_chars in base 10 for an unsigned type: the error code, the number (0 where
-- the variable is left alone), and what stands from `ptr` on.
pub record FromChars : Type 0 where
  pub ec : Errc
  pub value : ℕ
  pub rest : Bytes

unfoldable pub take_digits : Bytes → Bytes
take_digits [] = []
take_digits (c ∷ s) = let more = c ∷ take_digits s in if is_digit c then more else []

unfoldable pub drop_digits : Bytes → Bytes
drop_digits [] = []
drop_digits (c ∷ s) = let more = drop_digits s in if is_digit c then more else c ∷ s

unfoldable pub number_of : ℕ → Bytes → ℕ
number_of acc [] = acc
number_of acc (c ∷ s) = number_of (acc * 10 + (c - b'0')) s

unfoldable pub digits_to_number : ℕ → Bytes → Bytes → FromChars
unfolding number_of
digits_to_number limit [] rest = record { ec = invalid_argument; value = 0; rest = rest }
digits_to_number limit (c ∷ s) rest =
    if leb (number_of 0 (c ∷ s)) limit
    then record { ec = no_error; value = number_of 0 (c ∷ s); rest = rest }
    else record { ec = result_out_of_range; value = 0; rest = rest }

-- `limit` is the type's largest value.
unfoldable pub from_chars : ℕ → Bytes → FromChars
unfolding take_digits drop_digits digits_to_number
from_chars limit s = digits_to_number limit (take_digits s) (drop_digits s)

-- The pieces between the separators, the empty ones included: there is always one.
unfoldable pub split : ℕ → Bytes → List Bytes
split sep [] = [] ∷ []
split sep (c ∷ s) =
    if c == sep
    then [] ∷ split sep s
    else elim (split sep s) [ [] ↦ (c ∷ []) ∷ [] | piece ∷ rest ↦ (c ∷ piece) ∷ rest ]
