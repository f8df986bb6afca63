-- ===== src/Writes.antt =====
-- src/domain/config/writes.ts: the tools that set the parameters of a node and call its actions.
-- The host is a parameter: each request is an action on the world that returns a value or throws.
-- `encodeURIComponent`, URLSearchParams and `toLocaleLowerCase` are parameters, and so is the wait of
-- src/domain/recipes/readiness.ts, of which only `ready` counts here. The tools run under
-- withWriteLock, with the key of `write_key`.
pub mod Requests
pub mod Tools
pub mod Barred
mod Tests
use nodel_mcp.Base.{
  Bool, true, false, List, Text, Result, ok, err, Error, ◌⊎◌, inl, inr, Option, some, none,
}
use nodel_mcp.Values.{Value}
use nodel_mcp.Files.{World, Exec}
use nodel_mcp.Audit.Mutation.{
  RemoteError, Mutation, done, not_started, unrecorded, unresolved, remote_failed,
}

-- An error of the sidecar, of the host, or of a change between two audit records.
pub data Fault : Type 0 where
  refused : Error → Fault
  remote : RemoteError → Fault
  unrecorded_change : Text → Fault
  unresolved_change : Text → RemoteError → Fault
  failed_change : Text → RemoteError → Fault

abbrev pub Remote : Type 0 → Type 0
Remote A = World → (A ⊎ RemoteError) × World

abbrev pub Tool : Type 0 → Type 0
Tool A = World → (Fault ⊎ A) × World

module _ {A : Type 0} where
  abbrev pub pure : A → Tool A
  pure a w = (inr a, w)

  abbrev pub proceed : {B : Type 0} → Fault ⊎ A → (A → Tool B) → Tool B
  proceed (inl f) k w = (inl f, w)
  proceed (inr a) k w = k a w

  infixl 5 ◌>>=◌
  unfoldable pub ◌>>=◌ : {B : Type 0} → Tool A → (A → Tool B) → Tool B
  ◌>>=◌ m k w = let (r, v) = m w in proceed r k v

  abbrev pub of_result : Result A → Fault ⊎ A
  of_result (ok a) = inr a
  of_result (err e) = inl (refused e)

  abbrev pub lift : Result A → Tool A
  lift r w = (of_result r, w)

  unfoldable pub run : Exec A → Tool A
  run m w = let (r, v) = m w in (of_result r, v)

  abbrev of_answer : A ⊎ RemoteError → Fault ⊎ A
  of_answer (inl a) = inr a
  of_answer (inr e) = inl (remote e)

  unfoldable pub ask : Remote A → Tool A
  ask m w = let (r, v) = m w in (of_answer r, v)

  abbrev of_mutation : Mutation A → Fault ⊎ (Text × A)
  of_mutation (done id a) = inr (id, a)
  of_mutation (not_started e) = inl (refused e)
  of_mutation (unrecorded id) = inl (unrecorded_change id)
  of_mutation (unresolved id e) = inl (unresolved_change id e)
  of_mutation (remote_failed id e) = inl (failed_change id e)

  unfoldable pub audited : (World → Mutation A × World) → Tool (Text × A)
  audited m w = let (r, v) = m w in (of_mutation r, v)

  -- `try { m } catch { … }`: what `f` makes of the answer, if there is one.
  abbrev answered : {B : Type 0} → (A → B) → B → A ⊎ RemoteError → B
  answered f b (inl a) = f a
  answered f b (inr e) = b

  unfoldable pub try_ask : {B : Type 0} → (A → B) → B → Remote A → Tool B
  try_ask f b m w = let (r, v) = m w in (inr (answered f b r), v)
