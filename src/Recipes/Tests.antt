-- ===== src/Recipes/Tests.antt =====
-- Runs of text edits, and instances of the theorems about them.
use nodel_mcp.Base.{
  ◌≡◌, refl, true, false, List, [], ◌∷◌, Text, codes, length, ok, join, join_rest, starts_with,
  has_code,
}
use nodel_mcp.Base.{ℕ, ◌+◌, ◌≤◌, arith, zero, suc, some, none, is_some}
use nodel_mcp.Config.Samples.{sample_host, bare, loaded, loads}
use nodel_mcp.Recipes.Readiness.{
  Probe, waited, poll, pause_ms, timeout_ms, wait_for_node_ready_after_write,
}
use nodel_mcp.Recipes.Waiting.{
  KeepsTime, no_more, then_at, TwoSuccesses, ready_after_two, wait_ends,
}
use nodel_mcp.Platform.{plain}
use nodel_mcp.Recipes.Edits.{
  TextEdit, AppliedEdit, applied_edit, apply_edit, apply_text_edits, apply_from, split_on, pieces,
  replace_first, cut, expand,
}
use nodel_mcp.Recipes.Replace.{EditedBy, apply_text_edits_lem, dollars_lost}

abbrev edit : TextEdit
edit = record { old_text = codes "aa"; new_text = codes "b"; replace_all = true }

abbrev edits : List TextEdit
edits = edit ∷ record { old_text = codes "-"; new_text = codes "+"; replace_all = false } ∷ []

abbrev edited_text : Text × List AppliedEdit
edited_text = (
  codes "ba+b",
  applied_edit plain 0 edit (codes "aaa-aa")
      ∷ applied_edit plain 1
          (record { old_text = codes "-"; new_text = codes "+"; replace_all = false })
          (codes "ba-b")
      ∷ [],
)

edits_apply : apply_text_edits plain (codes "aaa-aa") edits ≡ ok edited_text
unfolding apply_text_edits apply_from apply_edit split_on pieces join join_rest replace_first cut
    expand starts_with
edits_apply = refl

apply_text_edits_lem_example :
    EditedBy edits (codes "aaa-aa") (codes "ba+b") × (length edited_text.1 ≡ length edits)
unfolding has_code
apply_text_edits_lem_example = apply_text_edits_lem plain (codes "aaa-aa") edits refl edits_apply

dollars_lost_example :
    apply_edit
      (record { old_text = codes "x"; new_text = codes "$$"; replace_all = false })
      (codes "a = x")
    ≡ ok (codes "a = $")
unfolding cut split_on pieces starts_with
dollars_lost_example = dollars_lost b'x' [] (codes "a = x") (codes "a = ") [] refl refl

-- Probes at a time, each 10 milliseconds long.
abbrev up : ℕ → Probe
up t = record { before = t; succeeds = true; behind = t + 10 }

abbrev down : ℕ → Probe
down t = record { before = t; succeeds = false; behind = t + 10 }

abbrev restarting : List Probe
restarting = up 3000 ∷ down 3510 ∷ up 4020 ∷ up 4530 ∷ []

comes_up : wait_for_node_ready_after_write loaded true none 5 restarting ≡ some (waited true 4)
unfolding wait_for_node_ready_after_write timeout_ms poll
comes_up = refl

ready_after_two_example : TwoSuccesses 0 restarting 4
ready_after_two_example = ready_after_two loaded none 5 restarting comes_up

-- A node that stays down, once a second.
unfoldable copies : ℕ → ℕ → List Probe
copies t zero = []
copies t (suc n) = down t ∷ copies (t + 1000) n

length-copies : (t n : ℕ) → length (copies t n) ≡ n
unfolding copies
length-copies t zero = refl
length-copies t (suc n) = omega (arith, length-copies (t + 1000) n)

copies-KeepsTime : (limit n now t : ℕ) → now ≤ t → KeepsTime limit now (copies t n)
unfolding copies pause_ms
copies-KeepsTime limit zero now t h = no_more
copies-KeepsTime limit (suc n) now t h =
    then_at h (omega arith)
      (copies-KeepsTime limit n (t + 10 + pause_ms limit (t + 10)) (t + 1000) (ground arith))

wait_ends_example :
    is_some (wait_for_node_ready_after_write loaded true none 5 (copies 3000 242)) ≡ true
wait_ends_example =
    wait_ends sample_host bare [] true none 5 (copies 3000 242) loads (omega arith)
      (let n = length-copies 3000 242 in omega (arith, n))
      (copies-KeepsTime (5 + timeout_ms loaded none) 242 5 3000 (omega arith))
