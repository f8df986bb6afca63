-- ===== src/Locks/Tests.antt =====
-- Runs of the write locks, and instances of the theorems about them.
use nodel_mcp.Base.{ℕ, zero, ◌<◌, ◌≡◌, ◌↔◌, refl, true, none, some, [], Text, codes, text_eq, arith}
use nodel_mcp.Locks.{running, done, Ticket, Locks, enter, ticket, set_phase, has_passed, leave}
use nodel_mcp.Locks.{Step, enters, starts, ends, idle, Reach, here, next}
use nodel_mcp.Locks.Order.{all_done}
use nodel_mcp.Locks.Runs.{runs_in_order, runs_alone, no_entry_left, can_start}

abbrev lobby : Text
lobby = codes "lobby"

-- Two calls for one key, of which the first runs.
abbrev two_calls : Locks
two_calls = enter lobby (enter lobby idle)

abbrev first_runs : Locks
first_runs = record two_calls { tickets = set_phase 0 running two_calls.tickets }

abbrev first_ended : Locks
first_ended = leave 0 lobby first_runs

abbrev second_runs : Locks
second_runs = record first_ended { tickets = set_phase 1 running first_ended.tickets }

abbrev call_of : Locks → ℕ → Ticket
call_of s i = elim (ticket i s.tickets) [
  | none ↦ record { key = []; previous = none; phase = done }
  | some t ↦ t
]

Reach-first : Reach first_runs
unfolding enter ticket set_phase has_passed
Reach-first =
    next (next (next here (enters lobby)) (enters lobby))
      (starts 0 (call_of two_calls 0) refl refl refl)

Reach-ended : Reach first_ended
unfolding enter ticket set_phase
Reach-ended = next Reach-first (ends 0 (call_of first_runs 0) refl refl)

Reach-second : Reach second_runs
unfolding enter ticket set_phase has_passed leave text_eq
Reach-second = next Reach-ended (starts 1 (call_of first_ended 1) refl refl refl)

runs_in_order_example : (call_of second_runs 0).phase ≡ done
unfolding enter ticket set_phase leave text_eq
runs_in_order_example = runs_in_order 1 0 Reach-second refl (λ e. cc) refl (omega arith) refl

runs_alone_example : zero ≡ 0
unfolding ticket set_phase enter
runs_alone_example = runs_alone 0 0 Reach-first refl refl refl refl refl

abbrev all_ended : Locks
all_ended = leave 1 lobby second_runs

Reach-all : Reach all_ended
unfolding enter ticket set_phase leave text_eq
Reach-all = next Reach-second (ends 1 (call_of second_runs 1) refl refl)

no_entry_left_example : (all_ended.pending lobby ≡ none) ↔ (all_done lobby all_ended.tickets ≡ true)
no_entry_left_example = no_entry_left lobby Reach-all

earlier_done :
    (j : ℕ) (u : Ticket)
    → ticket j first_ended.tickets ≡ some u
    → j < 1
    → u.key ≡ lobby
    → u.phase ≡ done
unfolding enter ticket set_phase leave text_eq
earlier_done j u f l k = ground arith

can_start_example : Step first_ended second_runs
unfolding enter ticket set_phase leave text_eq
can_start_example = can_start 1 Reach-ended refl refl earlier_done
