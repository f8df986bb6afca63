-- ===== src/Resolution.antt =====
-- src/nodel/resolution/matching.ts: how a node is found by its name or its address.
-- `new URL`, `toLocaleLowerCase` and the removal of all but letters and numbers are parameters. Of
-- a URL the protocol, the host name, the port, and the parts of a node's address are kept.
pub mod Best
pub mod Origins
mod Tests
use nodel_mcp.Base.{
  ℕ, Bool, true, false, not, ◌&&◌, ◌||◌, Option, none, some, or_else, List, [], ◌∷◌, ◌++◌, Text,
  codes,
}
use nodel_mcp.Base.{
  text_eq, is_empty, starts_with, includes, trim, ltb, leb, ◌==◌, if◌then◌else◌, any, keep, map,
  traverse,
}
use nodel_mcp.Base.{Result, ok, err, ◌>>=◌, system, public_error, validation}

pub record Address : Type 0 where
  pub protocol : Text
  pub hostname : Text
  pub port : Text

pub record Locale : Type 0 where
  pub lower : Text → Text
  pub letters_and_numbers : Text → Text
  pub parse_url : Text → Option Address

-- Of `NormalizedNode` and `DiscoveredNode`, what matching reads.
pub record NormalizedNode : Type 0 where
  pub name : Text
  pub key : Text
  pub rest_path_segment : Text

pub record DiscoveredNode : Type 0 where
  pub name : Text
  pub address : Text
  pub rest_path_segment : Option Text

pub record NodeUrlInput : Type 0 where
  pub url : Address
  pub path_segment : Option Text
  pub query_node : Option Text

-- `/^(.+?)(?:\(| \(|$)/iu`: the dot matches no line terminator.
abbrev is_line_end : ℕ → Bool
is_line_end c = c == 10 || c == 13 || c == 0x2028 || c == 0x2029

abbrev onto : ℕ → Option Text → Option Text
onto c none = none
onto c (some s) = some (c ∷ s)

unfoldable pub before_bracket : Text → Option Text
before_bracket [] = some []
before_bracket (c ∷ s) =
    elim (starts_with (c ∷ s) (codes "(") || starts_with (c ∷ s) (codes " (")) [
      | true ↦ some []
      | false ↦ elim (is_line_end c) [ true ↦ none | false ↦ onto c (before_bracket s) ]
    ]

abbrev prefix_of : Text → Option Text
prefix_of [] = none
prefix_of (c ∷ s) = if is_line_end c then none else onto c (before_bracket s)

abbrev pub or_undefined : Option Text → Text
or_undefined o = or_else o []

abbrev pub is_text : Option Text → Text → Bool
is_text none input = false
is_text (some s) input = text_eq s input

module _ (l : Locale) where
  unfoldable pub get_very_simple_name : Text → Text
  unfolding before_bracket
  get_very_simple_name name = l.letters_and_numbers (or_else (prefix_of name) name)

  unfoldable pub normalize_text : Option Text → Text
  normalize_text value = l.lower (trim (or_undefined value))

  unfoldable pub same_text : Option Text → Option Text → Bool
  unfolding normalize_text
  same_text left right = text_eq (normalize_text left) (normalize_text right)

  unfoldable pub contains_text : Option Text → Text → Bool
  unfolding normalize_text
  contains_text value input =
      not (is_empty input) && includes (normalize_text value) (normalize_text (some input))

  unfoldable pub same_runtime_origin : Address → Address → Bool
  same_runtime_origin left right =
      text_eq left.protocol right.protocol
      && text_eq (normalize_text (some left.hostname)) (normalize_text (some right.hostname))
      && text_eq left.port right.port

  abbrev pub names_of : NormalizedNode → List Text
  names_of node = node.name ∷ node.key ∷ node.rest_path_segment ∷ []

  unfoldable pub local_score : Text → NormalizedNode → ℕ
  local_score input node =
      let simple = get_very_simple_name input in
      if any (text_eq input) (names_of node) || text_eq node.rest_path_segment simple
      then 100
      else if any (λ v. same_text (some v) (some input)) (names_of node)
      then 90
      else if same_text (some (get_very_simple_name node.name)) (some simple)
      then 80
      else if any (λ v. contains_text (some v) input) (names_of node)
      then 50
      else 0

  abbrev pub url_score : DiscoveredNode → NodeUrlInput → Option Address → Result ℕ
  url_score candidate u none = err system
  url_score candidate u (some address) = ok (
      if same_runtime_origin address u.url
        && (same_text candidate.rest_path_segment u.path_segment
            || same_text (some candidate.name) u.query_node)
      then 100
      else 0)

  unfoldable pub name_score : Text → DiscoveredNode → ℕ
  name_score input candidate =
      if text_eq candidate.name input || text_eq candidate.address input
      then 100
      else if is_text candidate.rest_path_segment input
      then 90
      else if same_text (some candidate.name) (some input)
          || same_text (some candidate.address) (some input)
      then 80
      else if same_text (some (get_very_simple_name candidate.name))
          (some (get_very_simple_name input))
      then 70
      else if contains_text (some candidate.name) input
      then 50
      else 0

  unfoldable pub remote_score : Text → Option NodeUrlInput → DiscoveredNode → Result ℕ
  remote_score input none candidate = ok (name_score input candidate)
  remote_score input (some u) candidate = url_score candidate u (l.parse_url candidate.address)

-- `uniqueBest`, of elements with their scores
unfoldable pub best_score : {A : Type 0} → List (A × ℕ) → ℕ
best_score [] = 0
best_score (m ∷ ms) = let rest = best_score ms in if ltb m.1 rest then rest else m.1

abbrev pub only : {A : Type 0} → List (A × ℕ) → Result (Option A)
only (m ∷ []) = ok (some m.0)
only _ = err (public_error validation)

unfoldable pub unique_best : {A : Type 0} → List (A × ℕ) → Result (Option A)
unfolding best_score
unique_best ms = if best_score ms == 0 then ok none else only (keep (λ m. m.1 == best_score ms) ms)

abbrev pub matches : {A : Type 0} → (A → ℕ) → List A → List (A × ℕ)
matches score nodes = keep (λ m. ltb 0 m.1) (map (λ node. (node, score node)) nodes)

unfoldable pub best_local_match :
    Locale → List NormalizedNode → Text → Result (Option NormalizedNode)
unfolding unique_best local_score
best_local_match l nodes input = unique_best (matches (local_score l input) nodes)

abbrev pub scored :
    Locale → Text → Option NodeUrlInput → DiscoveredNode → Result (DiscoveredNode × ℕ)
scored l input u candidate = remote_score l input u candidate >>= λ n. ok (candidate, n)

unfoldable pub best_remote_match :
    Locale → List DiscoveredNode → Text → Option NodeUrlInput → Result (Option DiscoveredNode)
unfolding unique_best remote_score
best_remote_match l candidates input u =
    traverse (scored l input u) candidates >>= λ ms. unique_best (keep (λ m. ltb 0 m.1) ms)
