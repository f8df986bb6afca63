-- ===== src/Locks/Entries.antt =====
-- The entries of the map `pending`.
use nodel_mcp.Base.{ℕ, ◌≡◌, ◌<◌, refl, true, false, ◌&&◌, Option, none, some, List, [], ◌∷◌, Text}
use nodel_mcp.Base.{text_eq, text_eq_iff, ◌==◌, if◌then◌else◌, length, arith, ◌⊎◌, inl, inr}
use nodel_mcp.Base.{Bool-cases}
use nodel_mcp.Locks.{waiting, running, done, Ticket, Locks, is_done, ticket, set_phase}
use nodel_mcp.Locks.{is_entry}
use nodel_mcp.Base.{◌↔◌, subst}
use nodel_mcp.Locks.Order.{all_done, latest, IsLinked, IsOrdered, set_phase-length, ticket-bound}

-- The last call for the key, unless it has ended.
unfoldable pub open_call : Text → List Ticket → Option ℕ
open_call k [] = none
open_call k (t ∷ ts) =
    if text_eq t.key k then (if is_done t.phase then none else some (length ts)) else open_call k ts

pub open_call-IsLinked :
    (k : Text) (ts : List Ticket) → IsOrdered ts → IsLinked k (open_call k ts) ts
unfolding open_call latest all_done
open_call-IsLinked k [] h = refl
open_call-IsLinked k (t ∷ ts) h = elim (Bool-cases (text_eq t.key k)) [
  | inl same ↦ elim (Bool-cases (is_done t.phase)) [
    | inl ended ↦
        let at_k : t.key ≡ k = (text_eq_iff t.key k).0 same in
        let before : (t.phase ≡ waiting) ⊎ (all_done t.key ts ≡ true) = h.1 in
        let all_before : all_done k ts ≡ true = elim before [
          | inl w ↦ cc
          | inr a ↦ rw (← at_k) a
        ] in
        rw (same, ended) (ground arith)
    | inr lives ↦ rw (same, lives) (ground arith)
  ]
  | inr other ↦ rw other (skip (open_call k ts) (open_call-IsLinked k ts h.2) other)
]
  where
    skip : (o : Option ℕ) → IsLinked k o ts → text_eq t.key k ≡ false → IsLinked k o (t ∷ ts)
    skip none l other = ground arith
    skip (some j) l other = ground arith

-- The map `pending` has, for every key, the last call that has not ended.
abbrev pub IsTracked : Locks → Type 0
IsTracked s = (k : Text) → s.pending k ≡ open_call k s.tickets

pub open_call-start :
    (i : ℕ) (k : Text) (ts : List Ticket) {t : Ticket}
    → ticket i ts ≡ some t
    → t.phase ≡ waiting
    → open_call k (set_phase i running ts) ≡ open_call k ts
unfolding set_phase open_call ticket
open_call-start i k [] e w = refl
open_call-start i k (u ∷ ts) {t} e w = elim (Bool-cases (i == length ts)) [
  | inl found ↦ ground arith
  | inr later ↦
      ground
        (arith, set_phase-length i running ts, open_call-start i k ts {t = t} (rw later at e) w)
]

open_call-bound : (k : Text) (ts : List Ticket) {j : ℕ} → open_call k ts ≡ some j → j < length ts
unfolding open_call
open_call-bound k [] e = cc
open_call-bound k (t ∷ ts) {j} e = ground (arith, open_call-bound k ts {j = j})

pub open_call-end :
    (i : ℕ) (k : Text) (ts : List Ticket) {t : Ticket}
    → ticket i ts ≡ some t
    → open_call k (set_phase i done ts)
      ≡ (if text_eq t.key k && is_entry i (open_call k ts) then none else open_call k ts)
unfolding set_phase open_call ticket
open_call-end i k [] e = cc
open_call-end i k (u ∷ ts) {t} e = elim (Bool-cases (i == length ts)) [
  | inl found ↦ ground arith
  | inr later ↦
      let e' : ticket i ts ≡ some t = rw later at e in
      ground (
        arith,
        set_phase-length i done ts,
        open_call-end i k ts {t = t} e',
        ticket-bound i ts {t = t} e',
      )
]

all_done-open_call : (k : Text) (ts : List Ticket) → all_done k ts ≡ true → open_call k ts ≡ none
unfolding open_call all_done
all_done-open_call k [] h = refl
all_done-open_call k (t ∷ ts) h = ground (arith, all_done-open_call k ts)

pub open_call-none :
    (k : Text) (ts : List Ticket) → IsOrdered ts → (open_call k ts ≡ none) ↔ (all_done k ts ≡ true)
open_call-none k ts h =
    (λ e. subst (λ o. IsLinked k o ts) e (open_call-IsLinked k ts h), all_done-open_call k ts)
