-- ===== src/Ledger/Walk.antt =====
-- handle_header and for_each_header of cmd/monad/runloop_monad.cpp. The callback `fn` is a function
-- on what it captures by reference.
use monad_fork.Prelude.{
  zero, suc, ◌&&◌, none, some, ◌==◌, if◌then◌else◌, ℕ, Bool, Option, ltb, leb, add64,
}
use monad_fork.Ledger.{Codec, head_pointer_to_id, header_at}
use monad_fork.Node.Block.{ConsensusHeader, Bytes}
use monad_fork.Node.Outcome.{Outcome, ok, err, abort, and_then}

-- The next id, if the walk goes on.
unfoldable pub next_id : ConsensusHeader → ℕ → Option ℕ
next_id header start_exclusive =
    if leb header.seqno (add64 start_exclusive 1) then none else some header.parent_id

unfoldable pub in_range : ConsensusHeader → ℕ → ℕ → Bool
in_range header start_exclusive end_inclusive =
    ltb start_exclusive header.seqno && leb header.seqno end_inclusive

-- `if (!keep_going) break;`
unfoldable pub continue_walk :
    {S : Type 0} → (ℕ → S → Option (Outcome S)) → Outcome (Option ℕ × S) → Option (Outcome S)
continue_walk go_on (ok (none, s)) = some (ok s)
continue_walk go_on (ok (some next, s)) = go_on next s
continue_walk go_on (err e) = some (err e)
continue_walk go_on abort = some abort

module _ {S : Type 0} (codec : Codec) (dir : ℕ → Option Bytes) (start_exclusive end_inclusive : ℕ)
    (fn : ℕ → ConsensusHeader → S → Outcome S) where
  unfoldable pub handle_header : ℕ → ConsensusHeader → S → Outcome (Option ℕ × S)
  unfolding next_id in_range
  handle_header id header s =
      and_then (if in_range header start_exclusive end_inclusive then fn id header s else ok s)
        λ s'. ok (next_id header start_exclusive, s')

  -- The while (true) loop; `none` says that the fuel ran out.
  unfoldable pub walk : ℕ → ℕ → S → Option (Outcome S)
  unfolding handle_header continue_walk
  walk zero id s = none
  walk (suc fuel) id s =
      continue_walk (walk fuel)
        (and_then (header_at codec dir id) λ header. handle_header id header s)

  -- The id of the head, and what the callback has made of the state.
  unfoldable pub for_each_header : ℕ → Option Bytes → S → Option (Outcome (ℕ × S))
  unfolding walk
  for_each_header fuel head s = elim (head_pointer_to_id codec head) [
    | err e ↦ some (err e)
    | abort ↦ some abort
    | ok head_id ↦ if head_id == 0 then some (ok (head_id, s)) else elim (walk fuel head_id s) [
      | none ↦ none
      | some r ↦ some (and_then r λ s'. ok (head_id, s'))
    ]
  ]
