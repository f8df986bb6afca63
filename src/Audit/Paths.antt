-- ===== src/Audit/Paths.antt =====
-- src/state/audit.ts: the audit files have different paths.
use nodel_mcp.Base.{
  ℕ, suc, zero, ◌+◌, ◌/◌, ◌%◌, ◌<◌, ◌≤◌, ◌≡◌, ◌≢◌, refl, ◌∙◌, sym, true, false, [], ◌∷◌, ◌++◌, Text,
  codes, text_eq, text_eq_iff, all, arith, ltb, Bool-cases, inl, inr, ap,
}
use nodel_mcp.Values.{pos}
use nodel_mcp.Canonical.{digits, integer_text}
use nodel_mcp.Store.{number_of, temporary_name}
use nodel_mcp.Points.Patterns.{is_digit}
use nodel_mcp.Audit.Log.{rotated_path}

text_eq-append : (p a b : Text) → text_eq (p ++ a) (p ++ b) ≡ text_eq a b
unfolding text_eq
text_eq-append [] a b = refl
text_eq-append (c ∷ p) a b = ground (arith, text_eq-append p a b)

append-nil : (p : Text) → p ++ [] ≡ p
append-nil [] = refl
append-nil (c ∷ p) = ap (λ s. c ∷ s) (append-nil p)

-- Digits read back as their number.
number_of-digits :
    (fuel n : ℕ) (rest : Text) → n < fuel → number_of 0 (digits fuel n rest) ≡ number_of n rest
unfolding number_of digits
number_of-digits zero n rest h = absurd (omega arith)
number_of-digits (suc fuel) n rest h = elim (Bool-cases (ltb n 10)) [
  | inl e ↦ rw (e, digits) (ap (λ k. number_of k rest) (omega arith))
  | inr e ↦
      let big : 10 ≤ n = ground arith in
      rw (e, digits)
        (number_of-digits fuel (n / 10) ((b'0' + n % 10) ∷ rest) (omega arith)
          ∙ ap (λ k. number_of k rest) (omega arith))
]

integer_text-injective : (i j : ℕ) → integer_text (pos i) ≡ integer_text (pos j) → i ≡ j
unfolding integer_text number_of
integer_text-injective i j h =
    sym (number_of-digits (suc i) i [] (omega arith))
    ∙ (ap (number_of 0) h ∙ number_of-digits (suc j) j [] (omega arith))

all-digits :
    (fuel n : ℕ) (rest : Text) → all is_digit rest ≡ true → all is_digit (digits fuel n rest) ≡ true
unfolding digits
all-digits zero n rest h = h
all-digits (suc fuel) n rest h = elim (Bool-cases (ltb n 10)) [
  | inl e ↦ rw (e, digits) (ground (arith, h))
  | inr e ↦ rw (e, digits) (all-digits fuel (n / 10) ((b'0' + n % 10) ∷ rest) (ground (arith, h)))
]

-- Digits do not begin with the `t` of a temporary name.
digits-ne : (s t : Text) → all is_digit s ≡ true → text_eq (b't' ∷ t) s ≡ false
unfolding text_eq
digits-ne [] t h = refl
digits-ne (c ∷ s) t h = ground arith

-- The audit file `index` places back from the active one.
abbrev pub file_at : Text → ℕ → Text
file_at path zero = path
file_at path (suc n) = rotated_path path (suc n)

own-append : (p a : Text) (c : ℕ) → text_eq p (p ++ (c ∷ a)) ≡ false
unfolding text_eq
own-append [] a c = refl
own-append (d ∷ p) a c = ground (arith, own-append p a c)

append-own : (p a : Text) (c : ℕ) → text_eq (p ++ (c ∷ a)) p ≡ false
unfolding text_eq
append-own [] a c = refl
append-own (d ∷ p) a c = ground (arith, append-own p a c)

pub file_at-ne : (path : Text) (i j : ℕ) → i ≢ j → text_eq (file_at path i) (file_at path j) ≡ false
unfolding rotated_path text_eq
file_at-ne path zero zero h = absurd (h refl)
file_at-ne path zero (suc j) h = own-append path (integer_text (pos (suc j))) b'.'
file_at-ne path (suc i) zero h = append-own path (integer_text (pos (suc i))) b'.'
file_at-ne path (suc i) (suc j) h =
    elim (Bool-cases (text_eq (file_at path (suc i)) (file_at path (suc j)))) [
      | inl e ↦
          let a = integer_text (pos (suc i)) in
          let b = integer_text (pos (suc j)) in
          let same : text_eq a b ≡ true = rw (text_eq-append path (b'.' ∷ a) (b'.' ∷ b)) at e in
          absurd (h (integer_text-injective (suc i) (suc j) ((text_eq_iff a b).0 same)))
      | inr e ↦ e
    ]

pub temporary-ne :
    (path : Text) (u : Text) (j : ℕ) → text_eq (temporary_name path u) (file_at path j) ≡ false
unfolding rotated_path integer_text text_eq
temporary-ne path u zero = append-own path (codes "tmp-" ++ u) b'.'
temporary-ne path u (suc j) =
    rw (text_eq-append path (codes ".tmp-" ++ u) (b'.' ∷ integer_text (pos (suc j)))) (
      digits-ne (integer_text (pos (suc j))) (codes "mp-" ++ u)
        (all-digits (suc (suc j)) (suc j) [] refl))
