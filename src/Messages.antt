-- ===== src/Messages.antt =====
-- src/shared/publicErrors.ts: `sanitizeSensitiveMessage`, of a text.
-- Each `replace` is a scan from the left by a matcher, which gives the text that a match is replaced
-- by, and by how much the match is longer than one code unit. No expression here has to give back what
-- a part of it took: what follows a run is a character that is not in the run.
pub mod Words
mod Tests
use nodel_mcp.Base.{
  ℕ, zero, suc, ◌+◌, ◌-◌, Bool, true, false, not, ◌&&◌, ◌||◌, Option, none, some, List, [], ◌∷◌,
  ◌++◌, Text, codes, starts_with, leb, ◌==◌, if◌then◌else◌, lower, length, take, drop, is_space,
  trim,
}

-- Equality under the flags `iu`: the Kelvin sign is a k, the long s an s.
abbrev pub fold : ℕ → ℕ
fold c = if c == 0x212a then b'k' else if c == 0x17f then b's' else lower c

unfoldable pub folded : Text → Text
folded [] = []
folded (c ∷ s) = fold c ∷ folded s

-- The text behind `p`, if the text begins with `p`.
unfoldable pub behind : Text → Text → Option Text
behind [] s = some s
behind (d ∷ p) [] = none
behind (d ∷ p) (c ∷ s) = let rest = behind p s in if c == d then rest else none

-- How many code units from the left pass the test.
unfoldable pub run_of : (ℕ → Bool) → Text → ℕ
run_of p [] = 0
run_of p (c ∷ s) = let rest = run_of p s in if p c then suc rest else 0

-- `s.replace(/…/g, …)`; what is left of a match is skipped.
unfoldable pub replaced : (Text → Option (Text × ℕ)) → ℕ → Text → Text
replaced m k [] = []
replaced m (suc k) (c ∷ s) = replaced m k s
replaced m zero (c ∷ s) = elim (m (c ∷ s)) [
  | none ↦ c ∷ replaced m zero s
  | some (r, n) ↦ r ++ replaced m n s
]

-- `replace(/[\r\n][\s\S]*$/u, "")`
unfoldable pub first_line : Text → Text
first_line [] = []
first_line (c ∷ s) = let rest = first_line s in if c == 10 || c == 13 then [] else c ∷ rest

abbrev pub mark : Text
mark = codes "[redacted]"

-- `[^\s,;}\]]`
abbrev pub is_token : ℕ → Bool
is_token c = not (is_space c || c == b',' || c == b';' || c == b'}' || c == b']')

-- `[^\s,;"'}\]]`
abbrev pub is_secret : ℕ → Bool
is_secret c = is_token c && not (c == b'"' || c == b'\'')

abbrev pub is_quote : ℕ → Bool
is_quote c = c == b'"' || c == b'\''

abbrev pub begins : Text → Text → Bool
begins p s = starts_with (folded s) p

-- The length of the keyword at the front, 0 where there is none.
unfoldable pub keyword : Text → ℕ
unfolding starts_with folded
keyword s =
    if begins (codes "authorization") s
    then 13
    else if begins (codes "token") s
    then 5
    else if begins (codes "password") s
    then 8
    else if begins (codes "secret") s
    then 6
    else if begins (codes "key") s
    then 3
    else 0

-- A match of `taken + run` code units, if the run is not empty.
abbrev pub matching : Text → ℕ → ℕ → Option (Text × ℕ)
matching text taken zero = none
matching text taken (suc run) = some (text, taken + run)

-- `/Bearer\s+[^\s,;}\]]+/giu`
abbrev behind_bearer : Text → ℕ → Option (Text × ℕ)
behind_bearer s zero = none
behind_bearer s (suc n) =
    matching (codes "Bearer " ++ mark) (7 + n) (run_of is_token (drop (suc n) s))

unfoldable pub bearer : Text → Option (Text × ℕ)
unfolding run_of starts_with folded
bearer s =
    if begins (codes "bearer") s
    then behind_bearer (drop 6 s) (run_of is_space (drop 6 s))
    else none

-- `[:=]\s*`, its length, or 0
abbrev pub assigns : Text → ℕ
assigns [] = 0
assigns (c ∷ s) = if c == b':' || c == b'=' then suc (run_of is_space s) else 0

-- `["']?[^\s,;"'}\]]+["']?` behind the first `n` code units of `s`, where `q` is 1 for a quote.
abbrev pub quoted : Text → ℕ → ℕ → Option (Text × ℕ)
quoted s n q =
    let run = run_of is_secret (drop (n + q) s) in
    let closing = run_of is_quote (take 1 (drop (n + q + run) s)) in
    elim run [ zero ↦ none | suc r ↦ some (take n s ++ mark, n + q + r + closing) ]

abbrev pub valued : Text → ℕ → ℕ → Option (Text × ℕ)
valued s n zero = none
valued s n (suc m) = quoted s (n + suc m) (run_of is_quote (take 1 (drop (n + suc m) s)))

abbrev pub spaced : Text → ℕ → Option (Text × ℕ)
spaced s zero = none
spaced s (suc k) =
    let n = suc k + run_of is_space (drop (suc k) s) in valued s n (assigns (drop n s))

-- `/((?:authorization|token|password|secret|key)\s*[:=]\s*)["']?[^\s,;"'}\]]+["']?/giu`
unfoldable pub assignment : Text → Option (Text × ℕ)
unfolding keyword run_of
assignment s = spaced s (keyword s)

-- `=[^&\s]*` behind the first `n` code units
abbrev pub parameter_value : Text → ℕ → Text → Option (Text × ℕ)
parameter_value s n [] = none
parameter_value s n (c ∷ t) =
    if c == b'='
    then some (take (suc n) s ++ mark, n + run_of (λ d. not (d == b'&' || is_space d)) t)
    else none

abbrev pub named_parameter : Text → ℕ → Option (Text × ℕ)
named_parameter s zero = none
named_parameter s (suc k) = parameter_value s (suc (suc k)) (drop (suc (suc k)) s)

-- `/([?&](?:authorization|token|password|secret|key)=[^&\s]*)/giu`
unfoldable pub parameter : Text → Option (Text × ℕ)
unfolding keyword run_of
parameter [] = none
parameter (c ∷ s) = if c == b'?' || c == b'&' then named_parameter (c ∷ s) (keyword s) else none

-- The length of `https?://` at the front, or 0.
unfoldable pub scheme : Text → ℕ
unfolding starts_with folded
scheme s = if begins (codes "http://") s then 7 else if begins (codes "https://") s then 8 else 0

-- `[^\s/@]+@` behind the first `n` code units
abbrev pub host_follows : Text → ℕ → ℕ → ℕ → Option (Text × ℕ)
host_follows s k n zero = none
host_follows s k n (suc run) =
    if starts_with (drop (n + suc run) s) (codes "@")
    then some (take k s ++ (mark ++ codes "@"), n + suc run)
    else none

-- `:[^\s/@]+@` behind the first `n` code units
abbrev pub password_follows : Text → ℕ → ℕ → Option (Text × ℕ)
password_follows s k n =
    if starts_with (drop n s) (codes ":")
    then host_follows s k (suc n)
        (run_of (λ c. not (is_space c || c == b'/' || c == b'@')) (drop (suc n) s))
    else none

abbrev pub user_follows : Text → ℕ → Option (Text × ℕ)
user_follows s zero = none
user_follows s (suc k) =
    elim (run_of (λ c. not (is_space c || c == b'/' || c == b'@' || c == b':')) (drop (suc k) s)) [
      | zero ↦ none
      | suc run ↦ password_follows s (suc k) (suc k + suc run)
    ]

-- `/(https?:\/\/)[^\s/@:]+:[^\s/@]+@/giu`
unfoldable pub user_info : Text → Option (Text × ℕ)
unfolding scheme run_of starts_with
user_info s = user_follows s (scheme s)

-- `/[\r\n\t]+/gu` and `/\s+/gu`, by a space
unfoldable pub spaces : (ℕ → Bool) → Text → Option (Text × ℕ)
unfolding run_of
spaces p s = matching (codes " ") 0 (run_of p s)

abbrev pub is_break : ℕ → Bool
is_break c = c == 10 || c == 13 || c == 9

-- The redactions, then the spaces.
unfoldable pub redact_message : Text → Text
unfolding first_line replaced bearer assignment parameter user_info
redact_message s =
    replaced user_info 0
      (replaced parameter 0 (replaced assignment 0 (replaced bearer 0 (first_line s))))

unfoldable pub sanitize_sensitive_message : Text → Text
unfolding redact_message replaced spaces trim is_space
sanitize_sensitive_message s =
    take 500 (trim (replaced (spaces is_space) 0 (replaced (spaces is_break) 0 (redact_message s))))
