-- ===== src/Messages/Words.antt =====
-- src/shared/publicErrors.ts: a word of letters, digits, dashes and underscores is left as it is.
use nodel_mcp.Base.{
  ℕ, zero, suc, ◌+◌, ◌≤◌, ◌≡◌, refl, ap, Bool, true, false, ◌&&◌, ◌||◌, Option, none, [], ◌∷◌, ◌++◌,
  Text, codes, starts_with, leb, ◌==◌, length, take, drop, is_space, trim, trim_start, all, reverse,
  arith, Bool-cases, inl, inr,
}
use mathlib.Core.List.{reverse-reverse, reverse_aux}
use nodel_mcp.Messages.{
  run_of, replaced, first_line, keyword, bearer, assigns, assignment, parameter, scheme, user_info,
  spaces, is_break, redact_message, sanitize_sensitive_message, spaced, begins, folded,
}

unfoldable pub is_word : ℕ → Bool
is_word c =
    (leb b'a' c && leb c b'z')
    || (leb b'A' c && leb c b'Z')
    || (leb b'0' c && leb c b'9')
    || c == b'-'
    || c == b'_'

-- A word of at most 500 characters.
pub record IsWord (s : Text) : Type 0 where
  pub is_plain : all is_word s ≡ true
  pub is_short : length s ≤ 500

abbrev is_plain : Text → Bool
is_plain s = all is_word s

word-space : (c : ℕ) → is_word c ≡ true → is_space c ≡ false
unfolding is_word is_space
word-space c h = ground arith

first_line-plain : (s : Text) → is_plain s ≡ true → first_line s ≡ s
unfolding first_line is_word
first_line-plain [] h = refl
first_line-plain (c ∷ s) h = ground (arith, first_line-plain s)

drop-plain : (n : ℕ) (s : Text) → is_plain s ≡ true → is_plain (drop n s) ≡ true
drop-plain zero s h = h
drop-plain (suc n) [] h = refl
drop-plain (suc n) (c ∷ s) h = drop-plain n s (ground arith)

-- A scan whose matcher fails at every word leaves a word as it is.
replaced-plain :
    (m : Text → Option (Text × ℕ))
    → ((c : ℕ) (s : Text) → is_plain (c ∷ s) ≡ true → m (c ∷ s) ≡ none)
    → (s : Text) → is_plain s ≡ true
    → replaced m zero s ≡ s
unfolding replaced
replaced-plain m f [] h = refl
replaced-plain m f (c ∷ s) h =
    rw (f c s h, replaced) (ap (λ t. c ∷ t) (replaced-plain m f s (ground arith)))

-- No space, colon or equality sign stands at the front of a word.
run_of-space : (s : Text) → is_plain s ≡ true → run_of is_space s ≡ 0
unfolding run_of
run_of-space [] h = refl
run_of-space (c ∷ s) h = let space = word-space c (ground arith) in rw space refl

assigns-plain : (s : Text) → is_plain s ≡ true → assigns s ≡ 0
unfolding is_word run_of
assigns-plain [] h = refl
assigns-plain (c ∷ s) h = ground arith

bearer-plain : (c : ℕ) (s : Text) → is_plain (c ∷ s) ≡ true → bearer (c ∷ s) ≡ none
unfolding bearer
bearer-plain c s h = elim (Bool-cases (begins (codes "bearer") (c ∷ s))) [
  | inl e ↦ rw (e, run_of-space (drop 6 (c ∷ s)) (drop-plain 6 (c ∷ s) h)) refl
  | inr e ↦ rw e refl
]

spaced-plain : (s : Text) (n : ℕ) → is_plain s ≡ true → spaced s n ≡ none
spaced-plain s zero h = refl
spaced-plain s (suc k) h =
    let n = suc k + run_of is_space (drop (suc k) s) in
    rw (assigns-plain (drop n s) (drop-plain n s h)) refl

assignment-plain : (c : ℕ) (s : Text) → is_plain (c ∷ s) ≡ true → assignment (c ∷ s) ≡ none
unfolding assignment
assignment-plain c s h = spaced-plain (c ∷ s) (keyword (c ∷ s)) h

parameter-plain : (c : ℕ) (s : Text) → is_plain (c ∷ s) ≡ true → parameter (c ∷ s) ≡ none
unfolding parameter is_word
parameter-plain c s h = let other : (c == b'?' || c == b'&') ≡ false = ground arith in rw other refl

spaces-plain :
    (p : ℕ → Bool)
    → ((c : ℕ) → is_word c ≡ true → p c ≡ false)
    → (c : ℕ) (s : Text) → is_plain (c ∷ s) ≡ true
    → spaces p (c ∷ s) ≡ none
unfolding spaces run_of
spaces-plain p f c s h = let other = f c (ground arith) in rw other refl

break-plain : (c : ℕ) → is_word c ≡ true → is_break c ≡ false
unfolding is_word
break-plain c h = ground arith

-- No word has a colon.
starts_with-plain :
    (p q : Text) (s : Text) → is_plain s ≡ true → starts_with (folded s) (p ++ b':' ∷ q) ≡ false
unfolding starts_with folded is_word
starts_with-plain [] q [] h = refl
starts_with-plain (d ∷ p) q [] h = refl
starts_with-plain [] q (c ∷ s) h = ground arith
starts_with-plain (d ∷ p) q (c ∷ s) h = ground (arith, starts_with-plain p q s)

user_info-plain : (c : ℕ) (s : Text) → is_plain (c ∷ s) ≡ true → user_info (c ∷ s) ≡ none
unfolding user_info scheme
user_info-plain c s h =
    rw
      (
        starts_with-plain (codes "http") (codes "//") (c ∷ s) h,
        starts_with-plain (codes "https") (codes "//") (c ∷ s) h,
      )
      refl

trim_start-plain : (s : Text) → is_plain s ≡ true → trim_start s ≡ s
unfolding trim_start
trim_start-plain [] h = refl
trim_start-plain (c ∷ s) h = let space = word-space c (ground arith) in rw space refl

reverse_aux-plain :
    (s t : Text) → is_plain s ≡ true → is_plain t ≡ true → is_plain (reverse_aux s t) ≡ true
reverse_aux-plain [] t h k = k
reverse_aux-plain (c ∷ s) t h k = reverse_aux-plain s (c ∷ t) (ground arith) (ground arith)

trim-plain : (s : Text) → is_plain s ≡ true → trim s ≡ s
unfolding trim
trim-plain s h =
    rw (trim_start-plain s h, trim_start-plain (reverse s) (reverse_aux-plain s [] h refl))
      (reverse-reverse s)

take-short : (n : ℕ) (s : Text) → length s ≤ n → take n s ≡ s
take-short zero [] h = refl
take-short zero (c ∷ s) h = ground arith
take-short (suc n) [] h = refl
take-short (suc n) (c ∷ s) h = ap (λ t. c ∷ t) (take-short n s (omega (arith, h)))

redact_message-plain : (s : Text) → is_plain s ≡ true → redact_message s ≡ s
unfolding redact_message
redact_message-plain s h =
    rw
      (
        first_line-plain s h,
        replaced-plain bearer bearer-plain s h,
        replaced-plain assignment assignment-plain s h,
        replaced-plain parameter parameter-plain s h,
      )
      (replaced-plain user_info user_info-plain s h)

-- Nothing is taken out of a word of at most 500 letters, digits, dashes and underscores.
pub sanitize-IsWord : (s : Text) → IsWord s → sanitize_sensitive_message s ≡ s
unfolding sanitize_sensitive_message
sanitize-IsWord s w =
    let h = w.is_plain in
    rw
      (
        redact_message-plain s h,
        replaced-plain (spaces is_break) (spaces-plain is_break break-plain) s h,
        replaced-plain (spaces is_space) (spaces-plain is_space word-space) s h,
        trim-plain s h,
      )
      (take-short 500 s w.is_short)
