-- ===== src/Approvals/Invariant.antt =====
-- The ids in the approvals file stay distinct, through every operation and every failure.
use nodel_mcp.Base.{◌≡◌, refl, sym, subst, ap, Bool, false, Option, none, some}
use nodel_mcp.Base.{List, [], ◌∷◌, ◌++◌, Text, All-append, All-drop_first, any, drop_first, arith}
use nodel_mcp.Base.{Bool-cases, inl, inr}
use nodel_mcp.Base.{text_eq_iff}
use nodel_mcp.Values.{Value, is_array}
use nodel_mcp.Platform.{Platform, sha256}
use nodel_mcp.Config.{AppConfig}
use nodel_mcp.Files.{Content, document, World}
use nodel_mcp.Files.Triple.{Triple, Keeps, Triple-weaken}
use nodel_mcp.Files.Laws.{Holds, contents}
use nodel_mcp.Store.Writes.{atomic_write_atomic}
use nodel_mcp.Approvals.{StoredApproval, approvals_path, timing_safe_equal, read_envelope}
use nodel_mcp.Approvals.Effects.{saved, save_approvals, load_approvals, has_id}
use nodel_mcp.Approvals.Loading.{loaded, kept_as, load_approvals_lem, Interrupted}
use nodel_mcp.Approvals.Consume.{HasDistinctIds}
use nodel_mcp.Approvals.Once.{IsSoundAt, loaded-saved_eq}

module _ (p : Platform) (config : AppConfig) where
  abbrev path : Text
  path = approvals_path config

  abbrev pub IsSound : World → Type 0
  IsSound w = IsSoundAt p config (contents path w)

  pub IsSoundAt-none : IsSoundAt p config none
  IsSoundAt-none bs c e = let h : [] ≡ bs = cc in subst (HasDistinctIds p config) h tt

  IsSoundAt-saved :
      (bs : List StoredApproval) → HasDistinctIds p config bs → IsSoundAt p config (some (saved bs))
  IsSoundAt-saved bs d cs c e =
      subst (HasDistinctIds p config) (sym (loaded-saved_eq p config bs e)) d

  abbrev kept_of : Option (List StoredApproval × Option Content) → Option Content
  kept_of none = none
  kept_of (some (bs, c)) = c

  kept_as_same :
      (v : Value) (o : Option (List StoredApproval)) {bs : List StoredApproval} {c : Option Content}
      → kept_as p config v o ≡ some (bs, c)
      → some (document v) ≡ c
  kept_as_same v none h = cc
  kept_as_same v (some _) h = cc

  -- What loading leaves on disk is sound if what it found was.
  IsSoundAt-loaded :
      (v : Option Content) (bs : List StoredApproval) (c : Option Content)
      → IsSoundAt p config v
      → loaded p config v ≡ some (bs, c)
      → IsSoundAt p config c
  IsSoundAt-loaded none bs c s e =
      let h : none ≡ c = cc in subst (IsSoundAt p config) h IsSoundAt-none
  IsSoundAt-loaded (some (document v)) bs c s e = elim (Bool-cases (is_array v)) [
    | inl legacy ↦
        let l : some ([], some (saved [])) ≡ some (bs, c) = rw legacy at e in
        let h : some (saved []) ≡ c = ap kept_of l in
        subst (IsSoundAt p config) h (IsSoundAt-saved [] tt)
    | inr other ↦
        let l : kept_as p config v (read_envelope p v) ≡ some (bs, c) = rw other at e in
        let h : some (document v) ≡ c = kept_as_same v (read_envelope p v) l in
        subst (IsSoundAt p config) h s
  ]
  IsSoundAt-loaded (some _) bs c s e = cc

  -- Every exception of loading leaves a sound file.
  IsSound-Interrupted :
      (v : Option Content) (w : World) → IsSoundAt p config v → Interrupted p config v w → IsSound w
  IsSound-Interrupted v w s (inl (inl same)) = subst (IsSoundAt p config) (sym same) s
  IsSound-Interrupted v w s (inl (inr gone)) = subst (IsSoundAt p config) (sym gone) IsSoundAt-none
  IsSound-Interrupted v w s (inr empty) =
      subst (IsSoundAt p config) (sym empty) (IsSoundAt-saved [] tt)

  pub load-IsSound :
      Triple IsSound
        (load_approvals p config)
        (λ bs w. HasDistinctIds p config bs × IsSound w)
        (λ _. IsSound)
  load-IsSound = record {
    at = λ w s.
        let t =
          Triple-weaken {P = Holds path (contents path w)}
            {Q = λ bs v. HasDistinctIds p config bs × IsSound v} {E = λ _. IsSound}
            (load_approvals_lem p config (contents path w)) (λ v h. h)
            (λ bs v h. (
              s bs (contents path v) h,
              IsSoundAt-loaded (contents path w) bs (contents path v) s h,
            ))
            (λ _ v h. IsSound-Interrupted (contents path w) v s h) in
        t.at w refl;
  }

  pub save-IsSound :
      (bs : List StoredApproval)
      → HasDistinctIds p config bs
      → Keeps IsSound (save_approvals config bs)
  unfolding save_approvals
  save-IsSound bs d = record {
    at = λ w s.
        let new = λ (v : World) (h : Holds path (some (saved bs)) v).
          subst (IsSoundAt p config) (sym h) (IsSoundAt-saved bs d) in
        let t =
          Triple-weaken {P = Holds path (contents path w)} {Q = λ _. IsSound} {E = λ _. IsSound}
            (atomic_write_atomic path (saved bs) (contents path w)) (λ v h. h) (λ _ v h. new v h)
            (λ _ v h. elim h [
              | inl same ↦ subst (IsSoundAt p config) (sym same) s
              | inr done ↦ new v done
            ]) in
        t.at w refl;
  }

  pub HasDistinctIds-drop_first :
      (q : StoredApproval → Bool) (bs : List StoredApproval)
      → HasDistinctIds p config bs
      → HasDistinctIds p config (drop_first q bs)
  HasDistinctIds-drop_first q [] h = tt
  HasDistinctIds-drop_first q (a ∷ bs) h = elim (Bool-cases (q a)) [
    | inl first ↦ rw first (h.1)
    | inr later ↦ rw later (All-drop_first _ q bs h.0, HasDistinctIds-drop_first q bs h.1)
  ]

  -- An approval under a fresh id is put at the end.
  pub HasDistinctIds-append :
      (bs : List StoredApproval) (a : StoredApproval)
      → any (has_id p config a.id) bs ≡ false
      → HasDistinctIds p config bs
      → HasDistinctIds p config (bs ++ a ∷ [])
  unfolding timing_safe_equal
  HasDistinctIds-append [] a fresh h = (tt, tt)
  HasDistinctIds-append (b ∷ bs) a fresh h = (
    All-append _ bs (a ∷ []) h.0 (
      ground (
        arith,
        text_eq_iff (sha256 p a.id) (sha256 p b.id),
        text_eq_iff (sha256 p b.id) (sha256 p a.id),
      ),
      tt,
    ),
    HasDistinctIds-append bs a (ground arith) h.1,
  )
