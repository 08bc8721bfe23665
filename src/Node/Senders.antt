-- ===== src/Node/Senders.antt =====
-- Sender recovery, call tracers and the set of senders and authorities: the same code in
-- runloop_ethereum.cpp, runloop_monad.cpp and runloop_monad_ethblocks.cpp.
pub mod Laws
use monad_fork.Prelude.{
  ℕ, suc, Bool, false, List, [], ◌∷◌, Option, none, some, map, length, set, replicate, ◌==◌, ◌||◌,
  if◌then◌else◌,
}
use monad_fork.Node.Outcome.{Outcome, ok, err, missing_sender}
use monad_fork.Node.Block.{Bytes, CallTracer, call_tracer, noop_call_tracer, AddressSet}

-- `for (i = 0; ...) if (recovered[i]) senders[i] = ...; else return MissingSender;`
unfoldable pub fill_senders : List (Option ℕ) → ℕ → List ℕ → Outcome (List ℕ)
fill_senders [] i senders = ok senders
fill_senders (none ∷ recovered) i senders = err missing_sender
fill_senders (some a ∷ recovered) i senders = fill_senders recovered (suc i) (set senders i a)

-- A vector of the transactions' length, filled with zero addresses first.
unfoldable pub collect_senders : List Bytes → List (Option ℕ) → Outcome (List ℕ)
unfolding fill_senders
collect_senders transactions recovered =
    fill_senders recovered 0 (replicate (length transactions) 0)

unfoldable pub call_tracers : Bool → List Bytes → List CallTracer
call_tracers enable_tracing transactions =
    map (λ tx. if enable_tracing then call_tracer tx else noop_call_tracer) transactions

unfoldable pub contains : AddressSet → ℕ → Bool
contains [] a = false
contains (x ∷ xs) a = x == a || contains xs a

-- segmented_set::insert
unfoldable pub insert : AddressSet → ℕ → AddressSet
unfolding contains
insert xs a = if contains xs a then xs else a ∷ xs

unfoldable pub insert_all : AddressSet → List ℕ → AddressSet
unfolding insert
insert_all xs [] = xs
insert_all xs (a ∷ addresses) = insert_all (insert xs a) addresses

unfoldable pub insert_present : AddressSet → List (Option ℕ) → AddressSet
unfolding insert
insert_present xs [] = xs
insert_present xs (none ∷ authorities) = insert_present xs authorities
insert_present xs (some a ∷ authorities) = insert_present (insert xs a) authorities

unfoldable pub insert_authorities : AddressSet → List (List (Option ℕ)) → AddressSet
unfolding insert_present
insert_authorities xs [] = xs
insert_authorities xs (authorities ∷ rest) = insert_authorities (insert_present xs authorities) rest

unfoldable pub senders_and_authorities : List ℕ → List (List (Option ℕ)) → AddressSet
unfolding insert_all insert_authorities
senders_and_authorities senders authorities = insert_authorities (insert_all [] senders) authorities
