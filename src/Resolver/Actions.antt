-- ===== src/Resolver/Actions.antt =====
-- src/nodel/resolution/resolver.ts: actions on the cache and the host, and their errors.
use nodel_mcp.Base.{ℕ, Option, none, List, Text, Result, ok, err, Error}
use nodel_mcp.Values.{Value}
use nodel_mcp.Resolution.{DiscoveredNode}
use nodel_mcp.Resolver.{Cache}

pub data Request : Type 0 where
  host_status : Request
  node_urls : Text → Request
  node_urls_for_node : Text → Request
  node_metadata : DiscoveredNode → Request

-- The world outside, of some type of states.
pub record Host (O : Type 0) : Type 0 where
  pub answer : Request → O → Result Value × O
  pub clock : O → ℕ
  pub wait : ℕ → O → O

pub data Source : Type 0 where
  local discovery cache : Source

pub record ResolvedNode : Type 0 where
  pub input : Text
  pub key : Option Text
  pub name : Text
  pub rest_path_segment : Option Text
  pub address : Option Text
  pub resolution_source : Source

-- NodeResolutionNotFoundError, NodeResolutionInconclusiveError, or another error.
pub data Failure : Type 0 where
  not_found inconclusive : Failure
  thrown : Error → Failure

pub data Outcome (A : Type 0) : Type 0 where
  fail : Failure → Outcome A
  done : A → Outcome A

-- What was found, and how many entries were rejected.
pub record Found : Type 0 where
  pub nodes : List DiscoveredNode
  pub rejected_entries : ℕ

pub record State (O : Type 0) : Type 0 where
  pub entries : Cache
  pub outside : O

abbrev pub Action : Type 0 → Type 0 → Type 0
Action O A = State O → Outcome A × State O

abbrev pub as_outcome : {A : Type 0} → Result A → Outcome A
as_outcome (err e) = fail (thrown e)
as_outcome (ok a) = done a

-- `try { m } catch { return undefined }`
abbrev pub or_none : {A : Type 0} → Outcome (Option A) → Outcome (Option A)
or_none (fail f) = done none
or_none (done o) = done o

module _ {O : Type 0} where
  abbrev pub pure : {A : Type 0} → A → Action O A
  pure a s = (done a, s)

  abbrev pub stop : {A : Type 0} → Failure → Action O A
  stop f s = (fail f, s)

  abbrev pub proceed : {A B : Type 0} → Outcome A → (A → Action O B) → Action O B
  proceed (fail f) k s = (fail f, s)
  proceed (done a) k s = k a s

  infixl 5 ◌>>=◌
  unfoldable pub ◌>>=◌ : {A B : Type 0} → Action O A → (A → Action O B) → Action O B
  ◌>>=◌ m k s = let (r, t) = m s in proceed r k t

  abbrev pub lift : {A : Type 0} → Result A → Action O A
  lift r s = (as_outcome r, s)

  unfoldable pub attempt : {A : Type 0} → Action O (Option A) → Action O (Option A)
  attempt m s = let (r, t) = m s in (or_none r, t)
