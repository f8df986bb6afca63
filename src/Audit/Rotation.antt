-- ===== src/Audit/Rotation.antt =====
-- src/state/audit.ts: what rotation does to the audit files, as a function of their places.
use nodel_mcp.Base.{
  ℕ, suc, zero, ◌≡◌, refl, sym, ◌∙◌, none, some, Text, text_eq_refl, arith, leb, ==_iff, ◌==◌,
  if◌then◌else◌, is_some, Bool-cases, inl, inr, Option-cases,
}
use nodel_mcp.Files.{Content, rename_sync, unlink_sync, exists_sync, lookup, call}
use nodel_mcp.Files.Triple.{
  Triple, Triple-handle, Triple-pure, Triple-throw, Triple-weaken, Triple-if, Triple-fact,
}
use nodel_mcp.Files.Laws.{
  Holds, contents, Keeps-rename_sync, Keeps-unlink_sync, rename_sync_lem, lookup-remove,
}
use nodel_mcp.Files.Reads.{rename_away}
use nodel_mcp.Store.{durable_rename, atomic_write}
use nodel_mcp.Store.Writes.{Keeps-sync_directory, atomic_write_lem, Keeps-atomic_write}
use nodel_mcp.Audit.Log.{shift, drop_oldest}
use nodel_mcp.Audit.Paths.{file_at, file_at-ne, temporary-ne}
use nodel_mcp.Audit.Views.{Shows, Triple-all, View, absent, moved, set_at, set_none}

module _ (path : Text) (f : View) where
  pub Shows-exists :
      (k : ℕ)
      → Triple
          (Shows path f)
          (exists_sync (file_at path k))
          (λ b w. (b ≡ is_some (f k)) × Shows path f w)
          (λ _ _. Unit {0})
  unfolding exists_sync contents
  Shows-exists k = record {
    at = λ w h. (
      elim (Option-cases (lookup (file_at path k) w.disk)) [
        | inl e ↦ ground (arith, h k)
        | inr (g, e) ↦ ground (arith, h k)
      ],
      h,
    );
  }

  pub Shows-durable_rename :
      (k : ℕ)
      → Triple
          (Shows path f)
          (durable_rename (file_at path k) (file_at path (suc k)))
          (λ _. Shows path (moved f k))
          (λ _ _. Unit {0})
  unfolding durable_rename
  Shows-durable_rename k =
      Triple-handle {R = λ _. Shows path (moved f k)} {D = λ _ _. Unit {0}}
        (Triple-all (λ i _. Holds (file_at path i) (moved f k i)) place)
        (λ e. Triple-throw e (λ w h. tt))
        (λ _.
          Triple-all (λ i _. Holds (file_at path i) (moved f k i))
            λ i.
              Triple-weaken (Keeps-sync_directory (file_at path i) (moved f k i)) (λ w h. h i)
                (λ _ w h. h) (λ _ w h. tt))
    where
      place :
          (i : ℕ)
          → Triple
              (Shows path f)
              (rename_sync (file_at path k) (file_at path (suc k)))
              (λ _. Holds (file_at path i) (moved f k i))
              (λ _ _. Unit {0})
      place i = elim (Bool-cases (i == suc k)) [
        | inl e ↦
            rw (e, (==_iff i (suc k)).0 e)
              (Triple-weaken
                (rename_sync_lem (file_at path k) (file_at path (suc k)) (f k) (f (suc k)))
                (λ w h. (h k, h (suc k))) (λ _ w h. h) (λ _ w h. tt))
        | inr e ↦ elim (Bool-cases (i == k)) [
          | inl e' ↦
              rw (e, e', (==_iff i k).0 e')
                (Triple-weaken
                  (rename_away (file_at path k) (f k) (file_at path (suc k))
                    (file_at-ne path (suc k) k (λ (q : suc k ≡ k). absurd (omega (arith, q)))))
                  (λ w h. h k) (λ _ w h. h) (λ _ w h. tt))
          | inr e' ↦
              rw (e, e')
                (Triple-weaken
                  (Keeps-rename_sync (file_at path i) (f i) (file_at path k) (file_at path (suc k))
                    (file_at-ne path k i (λ (q : k ≡ i). ground (arith, e', q)))
                    (file_at-ne path (suc k) i (λ (q : suc k ≡ i). ground (arith, e, q))))
                  (λ w h. h i) (λ _ w h. h) (λ _ w h. tt))
        ]
      ]

  unlinked :
      (k : ℕ)
      → Triple
          (Shows path f)
          (unlink_sync (file_at path k))
          (λ _. Holds (file_at path k) none)
          (λ _ _. Unit {0})
  unfolding unlink_sync call contents
  unlinked k = record {
    at = λ w h. elim (Option-cases (lookup (file_at path k) w.disk)) [
      | inl missing ↦ ground arith
      | inr (g, found) ↦ ground (
        arith,
        lookup-remove (file_at path k) (file_at path k) w.disk,
        text_eq_refl (file_at path k),
      )
    ];
  }

  Shows-unlink :
      (k : ℕ)
      → Triple
          (Shows path f)
          (unlink_sync (file_at path k))
          (λ _. Shows path (set_at f k none))
          (λ _ _. Unit {0})
  Shows-unlink k =
      Triple-all (λ i _. Holds (file_at path i) (set_at f k none i))
        λ i. elim (Bool-cases (i == k)) [
          | inl e ↦ rw (e, (==_iff i k).0 e) (unlinked k)
          | inr e ↦ rw e (
              Triple-weaken
                (Keeps-unlink_sync (file_at path i) (f i) (file_at path k)
                  (file_at-ne path k i (λ (q : k ≡ i). ground (arith, e, q))))
                (λ w h. h i) (λ _ w h. h) (λ _ w h. tt))
        ]

  pub Shows-atomic_write :
      (c : Content)
      → Triple
          (Shows path f)
          (atomic_write path c)
          (λ _. Shows path (set_at f 0 (some c)))
          (λ _ _. Unit {0})
  Shows-atomic_write c =
      Triple-all (λ i _. Holds (file_at path i) (set_at f 0 (some c) i))
        λ i. elim (Bool-cases (i == 0)) [
          | inl e ↦ rw (e, (==_iff i 0).0 e) (atomic_write_lem path c (Shows path f))
          | inr e ↦ rw e (
              Triple-weaken
                (Keeps-atomic_write (file_at path i) path c (f i) (
                  file_at-ne path 0 i (λ (q : 0 ≡ i). ground (arith, e, q)),
                  λ u. temporary-ne path u i,
                ))
                (λ w h. h i) (λ _ w h. h) (λ _ w h. tt))
        ]

  pub Shows-drop_oldest :
      (k : ℕ)
      → Triple
          (Shows path f)
          (drop_oldest (file_at path k))
          (λ _. Shows path (set_at f k none))
          (λ _ _. Unit {0})
  unfolding drop_oldest
  Shows-drop_oldest k =
      Triple-handle (Shows-exists k) (λ e. Triple-throw e (λ w h. tt))
        λ b. Triple-fact λ e.
          Triple-if b (λ t. Shows-unlink k)
            (λ n. Triple-pure tt (λ w h i. h i ∙ set_none f k (absent (f k) (sym e ∙ n)) i))

-- The files from place 1 to `n`, each one place further back.
abbrev pub shifted : View → ℕ → View
shifted f n zero = f zero
shifted f n (suc zero) = none
shifted f n (suc (suc i)) = if leb (suc i) n then f (suc i) else f (suc (suc i))

shifted-zero : (f : View) → f 1 ≡ none → (i : ℕ) → f i ≡ shifted f 0 i
shifted-zero f h zero = refl
shifted-zero f h (suc zero) = h
shifted-zero f h (suc (suc i)) = ground arith

shifted-moved : (f : View) (n i : ℕ) → shifted (moved f (suc n)) n i ≡ shifted f (suc n) i
shifted-moved f n zero = ground arith
shifted-moved f n (suc zero) = refl
shifted-moved f n (suc (suc i)) = elim (Bool-cases (i == n)) [
  | inl e ↦ rw ((==_iff i n).0 e) (ground arith)
  | inr e ↦ ground arith
]

shifted-none :
    (f : View) (n : ℕ)
    → f (suc n) ≡ none
    → f (suc (suc n)) ≡ none
    → (i : ℕ) → shifted f n i ≡ shifted f (suc n) i
shifted-none f n h h' zero = refl
shifted-none f n h h' (suc zero) = refl
shifted-none f n h h' (suc (suc i)) = elim (Bool-cases (i == n)) [
  | inl e ↦ rw ((==_iff i n).0 e) (ground (arith, h, h'))
  | inr e ↦ ground arith
]

pub Shows-shift :
    (path : Text) (n : ℕ) (f : View)
    → f (suc n) ≡ none
    → Triple (Shows path f) (shift path n) (λ _. Shows path (shifted f n)) (λ _ _. Unit {0})
unfolding shift
Shows-shift path zero f h = Triple-pure tt (λ w s i. s i ∙ shifted-zero f h i)
Shows-shift path (suc n) f h =
    Triple-handle (Shows-exists path f (suc n)) (λ e. Triple-throw e (λ w s. tt))
      λ b. Triple-fact λ e.
        Triple-if b
          (λ t.
            Triple-handle (Shows-durable_rename path f (suc n)) (λ e'. Triple-throw e' (λ w s. tt))
              (λ _.
                Triple-weaken (Shows-shift path n (moved f (suc n)) (ground arith)) (λ w s. s)
                  (λ _ w s i. s i ∙ shifted-moved f n i) (λ _ w s. tt)))
          (λ t.
            let gone : f (suc n) ≡ none = absent (f (suc n)) (sym e ∙ t) in
            Triple-weaken (Shows-shift path n f gone) (λ w s. s)
              (λ _ w s i. s i ∙ shifted-none f n gone h i) (λ _ w s. tt))
