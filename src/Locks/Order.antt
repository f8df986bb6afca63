-- ===== src/Locks/Order.antt =====
-- One call runs for a key at a time, and the calls for a key run in the order in which they came.
use nodel_mcp.Base.{
  ℕ, ◌≡◌, ◌∙◌, ◌<◌, refl, Bool, true, not, ◌&&◌, ◌||◌, Option, none, some, List, [], ◌∷◌, Text,
}
use nodel_mcp.Base.{text_eq, text_eq_iff, ◌==◌, if◌then◌else◌, length, arith, ◌⊎◌, inl, inr}
use nodel_mcp.Base.{Bool-cases}
use nodel_mcp.Locks.{Phase, waiting, running, done, Ticket, is_done, ticket, set_phase}
use nodel_mcp.Locks.{has_passed}

-- Every call for the key has ended.
unfoldable pub all_done : Text → List Ticket → Bool
all_done k [] = true
all_done k (t ∷ ts) = (not (text_eq t.key k) || is_done t.phase) && all_done k ts

-- The last call for the key.
unfoldable pub latest : Text → List Ticket → Option ℕ
latest k [] = none
latest k (t ∷ ts) = if text_eq t.key k then some (length ts) else latest k ts

-- What a call waits for: the last call before it, or nothing, when all before it had ended.
abbrev pub IsLinked : Text → Option ℕ → List Ticket → Type 0
IsLinked k none ts = all_done k ts ≡ true
IsLinked k (some i) ts = latest k ts ≡ some i

-- A call that has started comes behind calls that have ended.
abbrev pub IsOrdered : List Ticket → Type 0
IsOrdered [] = Unit
IsOrdered (t ∷ ts) =
    IsLinked t.key t.previous ts × ((t.phase ≡ waiting) ⊎ (all_done t.key ts ≡ true)) × IsOrdered ts

pub set_phase-length :
    (i : ℕ) (p : Phase) (ts : List Ticket) → length (set_phase i p ts) ≡ length ts
unfolding set_phase
set_phase-length i p [] = refl
set_phase-length i p (t ∷ ts) = ground (arith, set_phase-length i p ts)

pub set_phase-latest :
    (i : ℕ) (p : Phase) (k : Text) (ts : List Ticket) → latest k (set_phase i p ts) ≡ latest k ts
unfolding set_phase latest
set_phase-latest i p k [] = refl
set_phase-latest i p k (t ∷ ts) = ground (arith, set_phase-latest i p k ts, set_phase-length i p ts)

-- Starting a call ends none, and ending one keeps the ended.
pub all_done-start :
    (i : ℕ) (k : Text) (ts : List Ticket) {t : Ticket}
    → ticket i ts ≡ some t
    → t.phase ≡ waiting
    → all_done k (set_phase i running ts) ≡ all_done k ts
unfolding set_phase all_done ticket
all_done-start i k [] e w = refl
all_done-start i k (u ∷ ts) {t} e w = elim (Bool-cases (i == length ts)) [
  | inl found ↦ ground arith
  | inr later ↦ ground (arith, all_done-start i k ts (rw later at e) w)
]

pub all_done-end :
    (i : ℕ) (k : Text) (ts : List Ticket)
    → all_done k ts ≡ true
    → all_done k (set_phase i done ts) ≡ true
unfolding set_phase all_done
all_done-end i k [] h = refl
all_done-end i k (u ∷ ts) h = ground (arith, all_done-end i k ts)

pub latest-bound : (k : Text) (ts : List Ticket) {j : ℕ} → latest k ts ≡ some j → j < length ts
unfolding latest
latest-bound k [] e = cc
latest-bound k (t ∷ ts) {j} e = ground (arith, latest-bound k ts {j = j})

pub IsLinked-bound :
    (k : Text) (ts : List Ticket) (o : Option ℕ) {j : ℕ}
    → IsLinked k o ts
    → o ≡ some j
    → j < length ts
IsLinked-bound k ts none h e = cc
IsLinked-bound k ts (some i) h e = latest-bound k ts (rw e at h)

pub ticket-bound : (i : ℕ) (ts : List Ticket) {t : Ticket} → ticket i ts ≡ some t → i < length ts
unfolding ticket
ticket-bound i [] e = cc
ticket-bound i (t ∷ ts) {t = u} e = ground (arith, ticket-bound i ts {t = u})

pub previous-bound :
    (i : ℕ) (ts : List Ticket) {t : Ticket} {j : ℕ}
    → IsOrdered ts
    → ticket i ts ≡ some t
    → t.previous ≡ some j
    → j < length ts
unfolding ticket
previous-bound i [] h e p = cc
previous-bound i (u ∷ ts) {t} {j} h e p = elim (Bool-cases (i == length ts)) [
  | inl found ↦
      let same : u ≡ t = ground arith in
      let b = IsLinked-bound u.key ts u.previous {j = j} h.0 (rw same p) in omega (arith, b)
  | inr later ↦ let b = previous-bound i ts h.2 (rw later at e) p in omega (arith, b)
]

pub has_passed-cons :
    (u : Ticket) (ts : List Ticket) (o : Option ℕ)
    → ((j : ℕ) → o ≡ some j → j < length ts)
    → has_passed (u ∷ ts) o ≡ has_passed ts o
unfolding has_passed
has_passed-cons u [] none b = refl
has_passed-cons u (t ∷ ts) none b = refl
has_passed-cons u ts (some j) b = let l = b j refl in ground (arith, l)

-- Behind the last call for a key, if it has released, all calls for the key have ended.
latest_passed :
    (k : Text) (ts : List Ticket) {j : ℕ}
    → IsOrdered ts
    → latest k ts ≡ some j
    → has_passed ts (some j) ≡ true
    → all_done k ts ≡ true
unfolding latest has_passed all_done
latest_passed k [] h e p = refl
latest_passed k (t ∷ ts) {j} h e p =
    let before = latest_passed k ts {j = j} h.2 in
    let b = latest-bound k ts {j = j} in
    let started = h.1 in ground (arith, text_eq_iff t.key k, before, b, started)

pub linked_passed :
    (u : Ticket) (ts : List Ticket)
    → IsOrdered ts
    → IsLinked u.key u.previous ts
    → has_passed (u ∷ ts) u.previous ≡ true
    → all_done u.key ts ≡ true
linked_passed u ts h l p =
    linked_by u.previous l
      (rw (has_passed-cons u ts u.previous (λ j e. IsLinked-bound u.key ts u.previous l e)) at p)
  where
    linked_by :
        (o : Option ℕ) → IsLinked u.key o ts → has_passed ts o ≡ true → all_done u.key ts ≡ true
    linked_by none l p = l
    linked_by (some j) l p = latest_passed u.key ts h l p

pub IsLinked-start :
    (i : ℕ) (k : Text) (o : Option ℕ) (ts : List Ticket) {t : Ticket}
    → ticket i ts ≡ some t
    → t.phase ≡ waiting
    → IsLinked k o ts
    → IsLinked k o (set_phase i running ts)
IsLinked-start i k none ts e w l = all_done-start i k ts e w ∙ l
IsLinked-start i k (some j) ts e w l = set_phase-latest i running k ts ∙ l

pub IsLinked-end :
    (i : ℕ) (k : Text) (o : Option ℕ) (ts : List Ticket)
    → IsLinked k o ts
    → IsLinked k o (set_phase i done ts)
IsLinked-end i k none ts l = all_done-end i k ts l
IsLinked-end i k (some j) ts l = set_phase-latest i done k ts ∙ l

pub IsOrdered-start :
    (i : ℕ) (ts : List Ticket) {t : Ticket}
    → IsOrdered ts
    → ticket i ts ≡ some t
    → t.phase ≡ waiting
    → has_passed ts t.previous ≡ true
    → IsOrdered (set_phase i running ts)
unfolding set_phase ticket
IsOrdered-start i [] h e w p = tt
IsOrdered-start i (u ∷ ts) {t} h e w p = elim (Bool-cases (i == length ts)) [
  | inl found ↦
      let same : t ≡ u = ground arith in
      rw found (h.0, inr (linked_passed u ts h.2 h.0 (rw same at p)), h.2)
  | inr later ↦
      let e' : ticket i ts ≡ some t = rw later at e in
      let p' = rw (has_passed-cons u ts t.previous (λ j q. previous-bound i ts h.2 e' q)) at p in
      rw later (
        IsLinked-start i u.key u.previous ts e' w h.0,
        rw (all_done-start i u.key ts e' w) (h.1),
        IsOrdered-start i ts h.2 e' w p',
      )
]

or_map : {X Y Z : Type 0} → X ⊎ Y → (Y → Z) → X ⊎ Z
or_map (inl x) f = inl x
or_map (inr y) f = inr (f y)

pub IsOrdered-end :
    (i : ℕ) (ts : List Ticket) {t : Ticket}
    → IsOrdered ts
    → ticket i ts ≡ some t
    → t.phase ≡ running
    → IsOrdered (set_phase i done ts)
unfolding set_phase ticket
IsOrdered-end i [] h e r = tt
IsOrdered-end i (u ∷ ts) {t} h e r = elim (Bool-cases (i == length ts)) [
  | inl found ↦
      let same : t ≡ u = ground arith in
      let before : (u.phase ≡ waiting) ⊎ (all_done u.key ts ≡ true) = h.1 in
      let ended : all_done u.key ts ≡ true = elim before [ inl w ↦ cc | inr a ↦ a ] in
      rw found (h.0, inr ended, h.2)
  | inr later ↦
      let e' : ticket i ts ≡ some t = rw later at e in
      rw later (
        IsLinked-end i u.key u.previous ts h.0,
        or_map h.1 (all_done-end i u.key ts),
        IsOrdered-end i ts h.2 e' r,
      )
]
