-- ===== src/Locks/Runs.antt =====
-- What holds in every state that calls of `withWriteLock` reach.
use nodel_mcp.Base.{ℕ, ◌≡◌, ◌∙◌, ◌<◌, refl, true, Option, none, some, List, [], ◌∷◌, Text}
use nodel_mcp.Base.{text_eq, text_eq_iff, ◌==◌, ==_iff, length, arith, ◌⊎◌, inl, inr}
use nodel_mcp.Base.{Bool-cases}
use nodel_mcp.Locks.{
  Phase, waiting, running, done, Ticket, Locks, is_done, enter, ticket, set_phase,
}
use nodel_mcp.Locks.{has_passed, leave, Step, enters, starts, ends, Reach, here, next}
use nodel_mcp.Base.{◌≢◌, ◌↔◌, subst, sym}
use nodel_mcp.Locks.Order.{
  all_done, latest, IsLinked, IsOrdered, ticket-bound, latest-bound, previous-bound, IsLinked-bound,
}
use nodel_mcp.Locks.Order.{has_passed-cons, IsOrdered-start, IsOrdered-end}
use nodel_mcp.Locks.Entries.{
  open_call, IsTracked, open_call-IsLinked, open_call-start, open_call-end, open_call-none,
}

pub record IsSound (s : Locks) : Type 0 where
  pub is_ordered : IsOrdered s.tickets
  pub is_tracked : IsTracked s

Step-IsSound : {s s' : Locks} → Step s s' → IsSound s → IsSound s'
unfolding enter leave open_call
Step-IsSound {s} (enters key) h = record {
  is_ordered = (
    subst (λ o. IsLinked key o s.tickets) (sym (h.is_tracked key))
        (open_call-IsLinked key s.tickets h.is_ordered),
    inl refl,
    h.is_ordered,
  );
  is_tracked = λ k. rw (h.is_tracked k) refl;
}
Step-IsSound {s} (starts i t e w p) h = record {
  is_ordered = IsOrdered-start i s.tickets h.is_ordered e w p;
  is_tracked = λ k. h.is_tracked k ∙ sym (open_call-start i k s.tickets e w);
}
Step-IsSound {s} (ends i t e r) h = record {
  is_ordered = IsOrdered-end i s.tickets h.is_ordered e r;
  is_tracked = λ k. ground (
    arith,
    open_call-end i k s.tickets {t = t} e,
    h.is_tracked k,
    h.is_tracked t.key,
    text_eq_iff t.key k,
  );
}

pub Reach-IsSound_lem : {s : Locks} → Reach s → IsSound s
unfolding open_call
Reach-IsSound_lem here = record { is_ordered = tt; is_tracked = λ k. refl }
Reach-IsSound_lem (next r st) = Step-IsSound st (Reach-IsSound_lem r)

done_of : (p : Phase) → is_done p ≡ true → p ≡ done
done_of waiting h = cc
done_of running h = cc
done_of done h = refl

all_done-ticket :
    (j : ℕ) (k : Text) (ts : List Ticket) {u : Ticket}
    → all_done k ts ≡ true
    → ticket j ts ≡ some u
    → u.key ≡ k
    → is_done u.phase ≡ true
unfolding all_done ticket
all_done-ticket j k [] h e s = cc
all_done-ticket j k (t ∷ ts) {u} h e s = elim (Bool-cases (j == length ts)) [
  | inl found ↦ let same : t ≡ u = ground arith in ground (arith, text_eq_iff t.key k)
  | inr later ↦
      let rest : all_done k ts ≡ true = ground arith in
      all_done-ticket j k ts rest (rw later at e) s
]

ordered_before :
    (i j : ℕ) (ts : List Ticket) {t u : Ticket}
    → IsOrdered ts
    → ticket i ts ≡ some t
    → t.phase ≢ waiting
    → ticket j ts ≡ some u
    → j < i
    → u.key ≡ t.key
    → u.phase ≡ done
unfolding ticket
ordered_before i j [] h e n f l s = cc
ordered_before i j (v ∷ ts) {t} {u} h e n f l s = elim (Bool-cases (i == length ts)) [
  | inl found ↦
      let same : v ≡ t = ground arith in
      let before : (v.phase ≡ waiting) ⊎ (all_done v.key ts ≡ true) = h.1 in
      let f' : ticket j ts ≡ some u = ground arith in
      let ended : all_done v.key ts ≡ true = elim before [
        | inl w ↦ elim (n (rw (← same) w)) [ ]
        | inr a ↦ a
      ] in
      done_of u.phase (all_done-ticket j v.key ts ended f' (rw same s))
  | inr later ↦
      let e' : ticket i ts ≡ some t = rw later at e in
      let f' : ticket j ts ≡ some u = ground (arith, ticket-bound i ts {t = t} e') in
      ordered_before i j ts h.2 e' n f' l s
]

-- In every state that calls reach, the calls for one key that came before a call that has started
-- have ended.
pub runs_in_order :
    {s : Locks} (i j : ℕ) {t u : Ticket}
    → Reach s
    → ticket i s.tickets ≡ some t
    → t.phase ≢ waiting
    → ticket j s.tickets ≡ some u
    → j < i
    → u.key ≡ t.key
    → u.phase ≡ done
runs_in_order {s} i j r = ordered_before i j s.tickets (Reach-IsSound_lem r).is_ordered

order_cases : (i j : ℕ) → (i < j) ⊎ ((i ≡ j) ⊎ (j < i))
order_cases i j = ground arith

-- In every state that calls reach, two calls for one key do not run at once.
pub runs_alone :
    {s : Locks} (i j : ℕ) {t u : Ticket}
    → Reach s
    → ticket i s.tickets ≡ some t
    → ticket j s.tickets ≡ some u
    → t.phase ≡ running
    → u.phase ≡ running
    → u.key ≡ t.key
    → i ≡ j
runs_alone {s} i j {t} {u} r e f p q same = elim (order_cases i j) [
  | inl before ↦ let ended = runs_in_order j i r f (starts_running q) e before (sym same) in cc
  | inr (inl equal) ↦ equal
  | inr (inr after) ↦ let ended = runs_in_order i j r e (starts_running p) f after same in cc
]
  where
    starts_running : {x : Phase} → x ≡ running → x ≢ waiting
    starts_running e w = cc

-- In every state that calls reach, the map has no entry for a key exactly when every call for the
-- key has ended, so that no entry stays behind.
pub no_entry_left :
    {s : Locks} (k : Text) → Reach s → (s.pending k ≡ none) ↔ (all_done k s.tickets ≡ true)
no_entry_left {s} k r =
    let h = Reach-IsSound_lem r in rw (h.is_tracked k) (open_call-none k s.tickets h.is_ordered)

all_done-found :
    (k : Text) (ts : List Ticket)
    → ((j : ℕ) (u : Ticket) → ticket j ts ≡ some u → u.key ≡ k → u.phase ≡ done)
    → all_done k ts ≡ true
unfolding all_done ticket
all_done-found k [] h = refl
all_done-found k (t ∷ ts) h =
    let rest = all_done-found k ts (λ j u e. h j u (let b = ticket-bound j ts e in ground arith)) in
    let first = h (length ts) t (ground arith) in ground (arith, text_eq_iff t.key k, first)

-- Behind a call whose predecessors have ended, the chain of promises has resolved.
passed_of :
    (k : Text) (o : Option ℕ) (ts : List Ticket)
    → IsOrdered ts
    → all_done k ts ≡ true
    → IsLinked k o ts
    → has_passed ts o ≡ true
unfolding has_passed all_done latest
passed_of k none [] h a l = refl
passed_of k none (t ∷ ts) h a l = refl
passed_of k (some j) [] h a l = cc
passed_of k (some j) (t ∷ ts) h a l = elim (Bool-cases (text_eq t.key k)) [
  | inl same ↦
      let at_k : t.key ≡ k = (text_eq_iff t.key k).0 same in
      let rest : all_done t.key ts ≡ true = rw at_k (ground arith) in
      let before = passed_of t.key t.previous ts h.2 rest h.0 in ground arith
  | inr other ↦
      let l' : latest k ts ≡ some j = rw other at l in
      let before = passed_of k (some j) ts h.2 (ground arith) l' in
      ground (arith, latest-bound k ts {j = j} l')
]

waits_no_more :
    (i : ℕ) (ts : List Ticket) {t : Ticket}
    → IsOrdered ts
    → ticket i ts ≡ some t
    → ((j : ℕ) (u : Ticket) → ticket j ts ≡ some u → j < i → u.key ≡ t.key → u.phase ≡ done)
    → has_passed ts t.previous ≡ true
unfolding ticket
waits_no_more i [] h e before = cc
waits_no_more i (v ∷ ts) {t} h e before = elim (Bool-cases (i == length ts)) [
  | inl found ↦
      let same : v ≡ t = ground arith in
      let at_end = (==_iff i (length ts)).0 found in
      let ended = all_done-found v.key ts λ j u f k.
        before j u (let b = ticket-bound j ts f in ground arith)
          (let b = ticket-bound j ts f in rw at_end b) (rw (← same) k) in
      rw (← same) (
        has_passed-cons v ts v.previous (λ j l. IsLinked-bound v.key ts v.previous h.0 l)
        ∙ passed_of v.key v.previous ts h.2 ended h.0)
  | inr later ↦
      let e' : ticket i ts ≡ some t = rw later at e in
      has_passed-cons v ts t.previous (λ j l. previous-bound i ts h.2 e' l)
      ∙ waits_no_more i ts h.2 e'
          (λ j u f. before j u (let b = ticket-bound j ts f in ground arith))
]

-- In every state that calls reach, a waiting call can start as soon as the earlier calls for its key
-- have ended: no call is forgotten, and none waits for another key.
pub can_start :
    {s : Locks} (i : ℕ) {t : Ticket}
    → Reach s
    → ticket i s.tickets ≡ some t
    → t.phase ≡ waiting
    → ((j : ℕ) (u : Ticket) → ticket j s.tickets ≡ some u → j < i → u.key ≡ t.key → u.phase ≡ done)
    → Step s (record s { tickets = set_phase i running s.tickets })
can_start {s} i {t} r e w before =
    starts i t e w (waits_no_more i s.tickets (Reach-IsSound_lem r).is_ordered e before)
