-- ===== src/Recipes/Waiting.antt =====
-- The wait for a node ends, and reports a node as ready only after two successes in a row.
use nodel_mcp.Base.{
  ℕ, suc, ◌+◌, ◌*◌, ◌≤◌, ◌<◌, ◌≡◌, refl, ap, Bool, true, false, Option, none, some, or_else, List,
  [], ◌∷◌, ◌++◌, Text,
}
use nodel_mcp.Base.{leb, if◌then◌else◌, length, arith, ◌⊎◌, inl, inr, Bool-cases, ok, is_some, ◌==◌}
use nodel_mcp.Config.{AppConfig}
use nodel_mcp.Config.Load.{Host, Environment, load_config}
use nodel_mcp.Config.Validity.{load_config-IsValid}
use nodel_mcp.Recipes.Readiness.{
  Probe, Readiness, waited, poll, pause_ms, timeout_ms, wait_for_node_ready_after_write,
}

-- The clock does not step back, and no sleep is shorter than asked: the readings from `now` on.
pub data KeepsTime (limit : ℕ) : ℕ → List Probe → Type 0 where
  no_more : {now : ℕ} → KeepsTime limit now []
  then_at :
      {now : ℕ} {q : Probe} {qs : List Probe}
      → now ≤ q.before
      → q.before ≤ q.behind
      → KeepsTime limit (q.behind + pause_ms limit q.behind) qs
      → KeepsTime limit now (q ∷ qs)

-- There are probes for the time that is left, or the time is up and there is one.
abbrev HasEnough : ℕ → ℕ → ℕ → Type 0
HasEnough limit n now = (1 ≤ n) × ((limit + 1000 ≤ now + 500 * n) ⊎ (limit ≤ now))

later_enough :
    (limit now before behind n : ℕ)
    → now ≤ before
    → before ≤ behind
    → behind < limit
    → HasEnough limit (suc n) now
    → HasEnough limit n (behind + pause_ms limit behind)
unfolding pause_ms
later_enough limit now before behind n g h k (m, inl l) = (ground arith, ground arith)
later_enough limit now before behind n g h k (m, inr l) = (ground arith, ground arith)

poll_ends :
    (limit : ℕ) (qs : List Probe) (now attempts successes : ℕ)
    → KeepsTime limit now qs
    → HasEnough limit (length qs) now
    → is_some (poll limit qs attempts successes) ≡ true
unfolding poll
poll_ends limit [] now attempts successes t h = let bad = h.0 in ground arith
poll_ends limit (q ∷ qs) now attempts successes (then_at g k t) h =
    elim (Bool-cases (leb limit q.behind)) [
      | inl over ↦ ground arith
      | inr left ↦
          let enough = later_enough limit now q.before q.behind (length qs) g k (ground arith) h in
          let ends =
            poll_ends limit qs (q.behind + pause_ms limit q.behind) (suc attempts)
              (if q.succeeds then suc successes else 0) t enough in
          ground arith
    ]

-- Two probes in a row that succeed, of which the second is the last attempt; `made` attempts came
-- before the list.
pub record TwoSuccesses (made : ℕ) (qs : List Probe) (total : ℕ) : Type 0 where
  pub before : List Probe
  pub first : Probe
  pub second : Probe
  pub behind : List Probe
  pub parts : qs ≡ before ++ (first ∷ second ∷ behind)
  pub first_succeeds : first.succeeds ≡ true
  pub second_succeeds : second.succeeds ≡ true
  pub counts : total ≡ made + length before + 2

abbrev FirstSucceeds : List Probe → Type 0
FirstSucceeds [] = ⊥
FirstSucceeds (q ∷ qs) = q.succeeds ≡ true

two_at_once :
    (made : ℕ) (q : Probe) (qs : List Probe) {total : ℕ}
    → q.succeeds ≡ true
    → total ≡ suc (suc made)
    → FirstSucceeds qs
    → TwoSuccesses made (q ∷ qs) total
two_at_once made q [] s e f = elim f [ ]
two_at_once made q (r ∷ rs) s e f = record {
  before = [];
  first = q;
  second = r;
  behind = rs;
  parts = refl;
  first_succeeds = s;
  second_succeeds = f;
  counts = omega (arith, e);
}

two_later :
    (made : ℕ) (q : Probe) (qs : List Probe) {total : ℕ}
    → TwoSuccesses (suc made) qs total
    → TwoSuccesses made (q ∷ qs) total
two_later made q qs t = record {
  before = q ∷ t.before;
  first = t.first;
  second = t.second;
  behind = t.behind;
  parts = ap (λ x. q ∷ x) t.parts;
  first_succeeds = t.first_succeeds;
  second_succeeds = t.second_succeeds;
  counts = let e = t.counts in omega (arith, e);
}

-- The rest of the loop, behind an attempt that did not end it.
abbrev go_on : ℕ → List Probe → ℕ → ℕ → Option Readiness
go_on limit qs attempts count = poll limit qs (suc attempts) count

poll_ready :
    (limit : ℕ) (qs : List Probe) (attempts successes : ℕ) {total : ℕ}
    → successes ≤ 1
    → poll limit qs attempts successes ≡ some (waited true total)
    → ((successes ≡ 1) × (total ≡ suc attempts) × FirstSucceeds qs) ⊎ TwoSuccesses attempts qs total
unfolding poll
poll_ready limit [] attempts successes l h = cc
poll_ready limit (q ∷ qs) attempts successes {total} l h = elim (Bool-cases q.succeeds) [
  | inl succeeds ↦ elim (Bool-cases (successes == 1)) [
    | inl second ↦ inl (ground arith, ground arith, succeeds)
    | inr first ↦
        let rest : go_on limit qs attempts 1 ≡ some (waited true total) = ground arith in
        elim (poll_ready limit qs (suc attempts) 1 (omega arith) rest) [
          | inl (one, counted, then_too) ↦ inr (two_at_once attempts q qs succeeds counted then_too)
          | inr later ↦ inr (two_later attempts q qs later)
        ]
  ]
  | inr fails ↦
      let rest : go_on limit qs attempts 0 ≡ some (waited true total) = ground arith in
      elim (poll_ready limit qs (suc attempts) 0 (omega arith) rest) [
        | inl (none_before, counted, then_too) ↦ absurd (omega (arith, none_before))
        | inr later ↦ inr (two_later attempts q qs later)
      ]
]

timeout-bound :
    (config : AppConfig) (o : Option ℕ)
    → config.post_write_ready_timeout_seconds ≤ 120
    → or_else o 120 ≤ 120
    → timeout_ms config o ≤ 120000
unfolding timeout_ms
timeout-bound config none c o = ground arith
timeout-bound config (some t) c o = ground arith

-- Under a loaded configuration, and for a timeout of at most 120 seconds if one is given, the wait
-- ends within 242 attempts, whatever the node does, if the clock does not step back and no sleep
-- between two attempts is shorter than asked.
pub wait_ends :
    (host : Host) (env : Environment) (cwd : Text) {c : AppConfig} (waits : Bool) (o : Option ℕ)
    (started : ℕ) (probes : List Probe)
    → load_config host env cwd ≡ ok c
    → or_else o 120 ≤ 120
    → 242 ≤ length probes
    → KeepsTime (started + timeout_ms c o) started probes
    → is_some (wait_for_node_ready_after_write c waits o started probes) ≡ true
unfolding wait_for_node_ready_after_write
wait_ends host env cwd false o started probes h short many t = refl
wait_ends host env cwd {c} true o started probes h short many t =
    let v = load_config-IsValid host env cwd h in
    let bound = timeout-bound c o v.ready_timeout.1 short in
    poll_ends (started + timeout_ms c o) probes started 0 0 t
      (omega (arith, many), inl (omega (arith, bound, many)))

-- The wait reports the node as ready only when its last two probes, one right after the other,
-- succeeded.
pub ready_after_two :
    (config : AppConfig) (o : Option ℕ) (started : ℕ) (probes : List Probe) {total : ℕ}
    → wait_for_node_ready_after_write config true o started probes ≡ some (waited true total)
    → TwoSuccesses 0 probes total
unfolding wait_for_node_ready_after_write
ready_after_two config o started probes h =
    elim (poll_ready (started + timeout_ms config o) probes 0 0 (omega arith) h) [
      | inl (none_before, counted, then_too) ↦ absurd (omega (arith, none_before))
      | inr two ↦ two
    ]
