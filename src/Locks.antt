-- ===== src/Locks.antt =====
-- src/state/locks.ts: `withWriteLock`, which lets the calls for one key run one after the other.
-- A call is a ticket; its number is its place in the order of the calls. The promise `queued` of a
-- call is known by the number of the call. A task that resolves and one that rejects end alike.
pub mod Order
pub mod Entries
pub mod Runs
mod Tests
use nodel_mcp.Base.{
  ℕ, ◌≡◌, Bool, true, false, ◌&&◌, Option, none, some, List, [], ◌∷◌, Text, text_eq,
}
use nodel_mcp.Base.{◌==◌, if◌then◌else◌, length}

-- Before `await previous` returns, in `task`, and after `finally`.
pub data Phase : Type 0 where
  waiting running done : Phase

pub record Ticket : Type 0 where
  pub key : Text
  pub previous : Option ℕ
  pub phase : Phase

-- The calls so far, the last first, and the map `pending`.
pub record Locks : Type 0 where
  pub tickets : List Ticket
  pub pending : Text → Option ℕ

abbrev pub is_done : Phase → Bool
is_done done = true
is_done _ = false

abbrev pub with_entry : Text → Option ℕ → (Text → Option ℕ) → Text → Option ℕ
with_entry key entry pending k = if text_eq key k then entry else pending k

-- The call up to `await previous`; without an entry, `previous` is a promise that is resolved.
unfoldable pub enter : Text → Locks → Locks
enter key s = record {
  tickets = record { key = key; previous = s.pending key; phase = waiting } ∷ s.tickets;
  pending = with_entry key (some (length s.tickets)) s.pending;
}

unfoldable pub ticket : ℕ → List Ticket → Option Ticket
ticket i [] = none
ticket i (t ∷ ts) = if i == length ts then some t else ticket i ts

unfoldable pub set_phase : ℕ → Phase → List Ticket → List Ticket
set_phase i p [] = []
set_phase i p (t ∷ ts) =
    if i == length ts then record t { phase = p } ∷ ts else t ∷ set_phase i p ts

-- `previous.then(() => current)` has resolved: the call has released, and so did those before it.
unfoldable pub has_passed : List Ticket → Option ℕ → Bool
has_passed [] none = true
has_passed [] (some i) = false
has_passed (t ∷ ts) none = true
has_passed (t ∷ ts) (some i) = elim (i == length ts) [
  | true ↦ is_done t.phase && has_passed ts t.previous
  | false ↦ has_passed ts (some i)
]

-- `release()`, and the entry goes if it is still this call's.
abbrev pub is_entry : ℕ → Option ℕ → Bool
is_entry i none = false
is_entry i (some j) = j == i

unfoldable pub leave : ℕ → Text → Locks → Locks
unfolding set_phase
leave i key s = record {
  tickets = set_phase i done s.tickets;
  pending = if is_entry i (s.pending key) then with_entry key none s.pending else s.pending;
}

-- What the program does next: another call, a call whose `await previous` returns, or a task that ends.
pub data Step : Locks → Locks → Type 0 where
  enters : {s : Locks} (key : Text) → Step s (enter key s)
  starts :
      {s : Locks} (i : ℕ) (t : Ticket)
      → ticket i s.tickets ≡ some t
      → t.phase ≡ waiting
      → has_passed s.tickets t.previous ≡ true
      → Step s (record s { tickets = set_phase i running s.tickets })
  ends :
      {s : Locks} (i : ℕ) (t : Ticket)
      → ticket i s.tickets ≡ some t
      → t.phase ≡ running
      → Step s (leave i t.key s)

abbrev pub idle : Locks
idle = record { tickets = []; pending = λ k. none }

pub data Reach : Locks → Type 0 where
  here : Reach idle
  next : {s s' : Locks} → Reach s → Step s s' → Reach s'
