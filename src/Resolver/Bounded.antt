-- ===== src/Resolver/Bounded.antt =====
-- src/nodel/resolution/resolver.ts: actions that keep the cache bounded and return what is allowed.
use nodel_mcp.Base.{
  ℕ, suc, ◌+◌, ◌≤◌, ◌≡◌, refl, Bool, true, false, Option, none, some, List, [], ◌∷◌, ◌++◌, Text,
  arith, Bool-cases, inl, inr, length, ltb, if◌then◌else◌, Result, ok, err,
}
use nodel_mcp.Policy.{is_node_allowed, assert_node_allowed}
use nodel_mcp.Resolution.{DiscoveredNode}
use nodel_mcp.Resolver.{Cache, evict, without, remembered, cache_max_entries, cache_ttl_ms}
use nodel_mcp.Resolver.Actions.{
  ResolvedNode, Failure, Outcome, fail, done, State, Action, as_outcome, or_none, pure, stop,
  proceed, ◌>>=◌, lift, attempt,
}
use nodel_mcp.Resolver.Discovering.{now}

evict-bounds : (c : Cache) → length (evict c) ≤ cache_max_entries
unfolding evict
evict-bounds [] = omega arith
evict-bounds (e ∷ c) = elim (Bool-cases (ltb cache_max_entries (suc (length c)))) [
  | inl h ↦ rw h (evict-bounds c)
  | inr h ↦ rw h (ground arith)
]

abbrev pub IsBounded : Cache → Type 0
IsBounded c = length c ≤ cache_max_entries

pub remembered-IsBounded :
    (key : Text) (c : DiscoveredNode) (now : ℕ) (entries : Cache)
    → IsBounded (remembered key c now entries)
unfolding remembered
remembered-IsBounded key c now entries =
    evict-bounds
      (without key entries ++ (key, record { candidate = c; expires_at = now + cache_ttl_ms }) ∷ [])

module _ {A : Type 0} where
  abbrev pub IfDone : (A → Type 0) → Outcome A → Type 0
  IfDone Q (fail f) = Unit
  IfDone Q (done a) = Q a

-- From a bounded cache, the action leaves one, and a result has the property.
pub record Ensures {O A : Type 0} (m : Action O A) (Q : A → Type 0) : Type 0 where
  pub at : (s : State O) → IsBounded s.entries → IsBounded (m s).1.entries × IfDone Q (m s).0

abbrev pub Any : {A : Type 0} → A → Type 0
Any a = Unit

module _ {O A B : Type 0} {P : A → Type 0} {Q : B → Type 0} where
  proceed_lem :
      (r : Outcome A) (k : A → Action O B) (s : State O)
      → IsBounded s.entries
      → IfDone P r
      → ((a : A) → P a → Ensures (k a) Q)
      → IsBounded (proceed r k s).1.entries × IfDone Q (proceed r k s).0
  proceed_lem (fail f) k s b h t = (b, tt)
  proceed_lem (done a) k s b h t = (t a h).at s b

  pub Ensures-bind :
      {m : Action O A} {k : A → Action O B}
      → Ensures m P
      → ((a : A) → P a → Ensures (k a) Q)
      → Ensures (m >>= k) Q
  unfolding ◌>>=◌
  Ensures-bind {m} {k} tm tk = record {
    at = λ s b. let h = tm.at s b in proceed_lem (m s).0 k (m s).1 h.0 h.1 tk;
  }

module _ {O A : Type 0} {Q : A → Type 0} where
  pub Ensures-pure : (a : A) → Q a → Ensures {O = O} (pure a) Q
  Ensures-pure a h = record { at = λ s b. (b, h) }

  pub Ensures-stop : (f : Failure) → Ensures {O = O} {A = A} (stop f) Q
  Ensures-stop f = record { at = λ s b. (b, tt) }

  pub Ensures-if :
      (c : Bool) {m n : Action O A} → Ensures m Q → Ensures n Q → Ensures (if c then m else n) Q
  Ensures-if true tm tn = tm
  Ensures-if false tm tn = tn

pub Any-as_outcome : {A : Type 0} (r : Result A) → IfDone Any (as_outcome r)
Any-as_outcome (err e) = tt
Any-as_outcome (ok a) = tt

pub Ensures-lift : {O A : Type 0} (r : Result A) → Ensures {O = O} (lift r) Any
Ensures-lift r = record { at = λ s b. (b, Any-as_outcome r) }

-- A check of the allowlist that passed.
allowed_outcome :
    (name : Text) (prefixes : List Text)
    → IfDone
        (λ _. is_node_allowed name prefixes ≡ true)
        (as_outcome (assert_node_allowed name prefixes))
unfolding assert_node_allowed
allowed_outcome name prefixes = elim (Bool-cases (is_node_allowed name prefixes)) [
  | inl h ↦ rw h refl
  | inr h ↦ rw h tt
]

pub Ensures-allowed :
    {O : Type 0} (name : Text) (prefixes : List Text)
    → Ensures {O = O}
        (lift (assert_node_allowed name prefixes))
        (λ _. is_node_allowed name prefixes ≡ true)
Ensures-allowed name prefixes = record { at = λ s b. (b, allowed_outcome name prefixes) }

-- What holds of a node, if there is one.
abbrev pub IfSome : (ResolvedNode → Type 0) → Option ResolvedNode → Type 0
IfSome Q none = Unit
IfSome Q (some r) = Q r

none_outcome :
    (Q : ResolvedNode → Type 0) (r : Outcome (Option ResolvedNode))
    → IfDone (IfSome Q) r
    → IfDone (IfSome Q) (or_none r)
none_outcome Q (fail f) h = tt
none_outcome Q (done o) h = h

pub Ensures-attempt :
    {O : Type 0} {Q : ResolvedNode → Type 0} {m : Action O (Option ResolvedNode)}
    → Ensures m (IfSome Q)
    → Ensures (attempt m) (IfSome Q)
unfolding attempt
Ensures-attempt {Q} {m} t = record {
  at = λ s b. let h = t.at s b in (h.0, none_outcome Q (m s).0 h.1);
}
