-- ===== src/Audit/Refines.antt =====
-- src/state/audit.ts: the audit files as one bounded sequence of records, and auditWrite as an
-- addition at its end.
use nodel_mcp.Base.{
  ℕ, suc, zero, ◌+◌, ◌-◌, ◌≡◌, refl, sym, ◌∙◌, ap, true, false, Option, none, some, List, [], ◌∷◌,
  ◌++◌, Text, arith, leb, ==_iff, ◌==◌, Bool-cases, inl, inr, length,
}
use nodel_mcp.Values.{Value, Fields}
use nodel_mcp.Config.{AppConfig}
use nodel_mcp.Files.{Content, lines, World, Exec, append_file, appended}
use nodel_mcp.Files.Triple.{
  Triple, Keeps, Triple-handle, Triple-pure, Triple-throw, Triple-weaken, Triple-if, Triple-fact,
  Keeps-bind, Keeps-handle, Keeps-pure, Keeps-throw,
}
use nodel_mcp.Files.Appends.{or_no_lines, append_file_lem, Keeps-append_file}
use nodel_mcp.Files.Laws.{
  Holds, Keeps-chmod_sync, Keeps-touch, Keeps-stat_sync, Keeps-now, Keeps-random_uuid,
}
use nodel_mcp.Store.{ensure_directory}
use nodel_mcp.Audit.Log.{
  Measure, audit_path, rotate, rotate_audit, no_lines, append_line, audit_record, audit_write,
  events_of, the_id,
}
use nodel_mcp.Audit.Paths.{file_at, file_at-ne}
use nodel_mcp.Audit.Views.{View, Shows, set_at, moved, Triple-all}
use nodel_mcp.Audit.Rotation.{
  shifted, Shows-exists, Shows-durable_rename, Shows-shift, Shows-drop_oldest, Shows-atomic_write,
}
use nodel_mcp.Audit.Records.{
  Extends, append-nil, drop-append, drop-length, is_tidy, log, log-rotated, records, rotated,
  rotated_lem,
}

module _ (path : Text) (f : View) where
  unchanged :
      (files : ℕ) (w : World) → is_tidy (f 0) ≡ true → Shows path f w → Extends path files f [] w
  unchanged files w t h = record {
    view = f;
    forgotten = 0;
    shows = h;
    tidy = t;
    kept = sym (append-nil (log files f));
  }

  all_forgotten : (w : World) → Shows path (set_at f 0 (some no_lines)) w → Extends path 1 f [] w
  unfolding log events_of
  all_forgotten w h = record {
    view = set_at f 0 (some no_lines);
    forgotten = length (log 1 f);
    shows = h;
    tidy = ground arith;
    kept = rw (drop-length (log 1 f)) refl;
  }

  oldest_forgotten :
      (n : ℕ) (w : World)
      → Shows path (set_at (moved (shifted (set_at f (suc n) none) n) 0) 0 (some no_lines)) w
      → Extends path (suc (suc n)) f [] w
  unfolding log
  oldest_forgotten n w h = record {
    view = rotated f n;
    forgotten = length (records (f (suc n)));
    shows = λ i. h i ∙ rotated_lem f n i;
    tidy = refl;
    kept =
        log-rotated f n (suc n) (omega arith)
        ∙ (sym (drop-append (records (f (suc n))) (log (suc n) f)) ∙ sym (append-nil _));
  }

  rotate_lem :
      (n : ℕ)
      → Triple
          (Shows path f)
          (rotate path (suc n))
          (λ _. Extends path (suc n) f [])
          (λ _ _. Unit {0})
  unfolding rotate
  rotate_lem zero =
      Triple-weaken (Shows-atomic_write path f no_lines) (λ w h. h) (λ _ w h. all_forgotten w h)
        (λ _ w h. tt)
  rotate_lem (suc n) =
      let many : leb (suc (suc n)) 1 ≡ false = ground arith in
      let last : suc (suc n) - 1 ≡ suc n = omega arith in
      let next : suc (suc n) - 2 ≡ n = omega arith in
      let f1 = set_at f (suc n) none in
      let f2 = shifted f1 n in
      rw (rotate, many, last, next)
        (Triple-handle (Shows-drop_oldest path f (suc n)) (λ e. Triple-throw e (λ w h. tt))
          λ _.
            Triple-handle (Shows-shift path n f1 (ground arith)) (λ e. Triple-throw e (λ w h. tt))
              λ _.
                Triple-handle (Shows-durable_rename path f2 0) (λ e. Triple-throw e (λ w h. tt))
                  λ _.
                    Triple-weaken (Shows-atomic_write path (moved f2 0) no_lines) (λ w h. h)
                      (λ _ w h. oldest_forgotten n w h) (λ _ w h. tt))

append_assoc : (xs ys zs : List Value) → (xs ++ ys) ++ zs ≡ xs ++ (ys ++ zs)
append_assoc [] ys zs = refl
append_assoc (x ∷ xs) ys zs = ap (λ r. x ∷ r) (append_assoc xs ys zs)

appended_lem :
    (r : Value) (o : Option Content)
    → is_tidy o ≡ true
    → (events_of (appended r (or_no_lines o)) ≡ records o ++ (r ∷ []))
      × (is_tidy (some (appended r (or_no_lines o))) ≡ true)
unfolding events_of
appended_lem r none h = (refl, refl)
appended_lem r (some (lines vs false)) h = (refl, refl)
appended_lem r (some (lines vs true)) h = ground arith
appended_lem r (some c) h = ground arith

log-set_at :
    (f : View) (c : Content) (r : Value) (k : ℕ)
    → events_of c ≡ records (f 0) ++ (r ∷ [])
    → log (suc k) (set_at f 0 (some c)) ≡ log (suc k) f ++ (r ∷ [])
unfolding log
log-set_at f c r zero h =
    append-nil _ ∙ (h ∙ ap (λ (xs : List Value). xs ++ (r ∷ [])) (sym (append-nil (records (f 0)))))
log-set_at f c r (suc k) h =
    let same : set_at f 0 (some c) (suc k) ≡ f (suc k) = ground arith in
    rw (same, log-set_at f c r k h)
      (sym (append_assoc (records (f (suc k))) (log (suc k) f) (r ∷ [])))

module _ (path : Text) (f : View) where
  Keeps-Shows :
      {A : Type 0} {m : Exec A}
      → ((i : ℕ) → Keeps (Holds (file_at path i) (f i)) m)
      → Triple (Shows path f) m (λ _. Shows path f) (λ _ _. Unit {0})
  Keeps-Shows k =
      Triple-all (λ i _. Holds (file_at path i) (f i))
        λ i. Triple-weaken (k i) (λ w h. h i) (λ _ w h. h) (λ _ w h. tt)

  rotate_audit_lem :
      (m : Measure) (config : AppConfig) (n bytes : ℕ)
      → config.audit_retention_files ≡ suc n
      → is_tidy (f 0) ≡ true
      → Triple
          (Shows path f)
          (rotate_audit m config path bytes)
          (λ _. Extends path (suc n) f [])
          (λ _ _. Unit {0})
  unfolding rotate_audit
  rotate_audit_lem m config n bytes e t =
      Triple-handle (Shows-exists path f 0) (λ e'. Triple-throw e' (λ w h. tt))
        λ b. Triple-fact λ _.
          Triple-if b
            (λ _.
              Triple-handle (Keeps-Shows (λ i. Keeps-stat_sync (file_at path i) (f i) path))
                (λ e'. Triple-throw e' (λ w h. tt))
                λ g.
                  Triple-if (leb (m.size g.content + bytes) config.audit_max_bytes)
                    {n = rotate path config.audit_retention_files}
                    (λ _. Triple-pure tt (λ w h. unchanged path f (suc n) w t h))
                    (λ _. rw e (rotate_lem path f n)))
            (λ _. Triple-pure tt (λ w h. unchanged path f (suc n) w t h))

  Shows-append_file :
      (r : Value)
      → Triple
          (Shows path f)
          (append_file path 0o600 r)
          (λ _. Shows path (set_at f 0 (some (appended r (or_no_lines (f 0))))))
          (λ _ _. Unit {0})
  Shows-append_file r =
      Triple-all
        (λ i _. Holds (file_at path i) (set_at f 0 (some (appended r (or_no_lines (f 0)))) i))
        λ i. elim (Bool-cases (i == 0)) [
          | inl e ↦
              rw (e, (==_iff i 0).0 e)
                (Triple-weaken (append_file_lem path 0o600 r (f 0)) (λ w h. h 0) (λ _ w h. h)
                  (λ _ w h. h))
          | inr e ↦ rw e (
              Triple-weaken
                (Keeps-append_file path 0o600 r (file_at path i) (f i)
                  (file_at-ne path 0 i (λ (q : 0 ≡ i). ground (arith, e, q))))
                (λ w h. h i) (λ _ w h. h) (λ _ w h. tt))
        ]

  append_line_lem :
      (r : Value)
      → Triple
          (Shows path f)
          (append_line path r)
          (λ _. Shows path (set_at f 0 (some (appended r (or_no_lines (f 0))))))
          (λ _ _. Unit {0})
  unfolding append_line
  append_line_lem r =
      Triple-handle (Shows-append_file r) (λ e. Triple-throw e (λ w h. tt))
        λ _.
          Triple-all (λ i _. Holds (file_at path i) (g i))
            λ i.
              Triple-weaken
                (Keeps-bind (Keeps-chmod_sync (file_at path i) (g i) path 0o600) λ _.
                  Keeps-bind (Keeps-touch (file_at path i) (g i)) λ _.
                    Keeps-handle (Keeps-touch (file_at path i) (g i))
                      (λ e. Keeps-bind (Keeps-touch (file_at path i) (g i)) (λ _. Keeps-throw e))
                      (λ a. Keeps-bind (Keeps-touch (file_at path i) (g i)) (λ _. Keeps-pure a)))
                (λ w h. h i) (λ _ w h. h) (λ _ w h. tt)
    where
      g : View
      g = set_at f 0 (some (appended r (or_no_lines (f 0))))

-- A record at the end of what there is.
Extends-append_line :
    (path : Text) (n : ℕ) (f : View) (r : Value)
    → Triple
        (Extends path (suc n) f [])
        (append_line path r)
        (λ _. Extends path (suc n) f (r ∷ []))
        (λ _ _. Unit {0})
Extends-append_line path n f r = record {
  at = λ w h.
      let g = h.view in
      let a = appended_lem r (g 0) h.tidy in
      let t : Triple (Shows path g) (append_line path r) (λ _. Extends path (suc n) f (r ∷ []))
          (λ _ _. Unit {0}) =
        Triple-weaken (append_line_lem path g r) (λ v s. s)
          (λ _ v s. record {
            view = set_at g 0 (some (appended r (or_no_lines (g 0))));
            forgotten = h.forgotten;
            shows = s;
            tidy = ground (arith, a.1);
            kept =
                log-set_at g (appended r (or_no_lines (g 0))) r n a.0
                ∙ ap (λ (xs : List Value). xs ++ (r ∷ [])) (h.kept ∙ append-nil _);
          })
          (λ _ v s. tt) in
      t.at w h.shows;
}

the_id_lem :
    (path : Text) (f : View) (o : Option Text)
    → Triple (Shows path f) (the_id o) (λ _. Shows path f) (λ _ _. Unit {0})
the_id_lem path f none = Keeps-Shows path f (λ i. Keeps-random_uuid (file_at path i) (f i))
the_id_lem path f (some s) = Triple-pure s (λ w h. h)

-- From audit files whose active one ends with a whole line: when auditWrite returns an id, the files
-- hold, in order of age, the records that they held, without some of the oldest, and then the record
-- of the event under this id; whatever was dropped, the active file ends with a whole line again.
pub audit_write_refines :
    (m : Measure) (config : AppConfig) (request_id : Option Text) (event : Fields) (n : ℕ)
    (f : View)
    → config.audit_retention_files ≡ suc n
    → is_tidy (f 0) ≡ true
    → Triple
        (Shows (audit_path config.state_dir) f)
        (audit_write m config request_id event)
        (λ id w.
          (t : ℕ) × Extends
            (audit_path config.state_dir)
            (suc n)
            f
            (audit_record m t id request_id event ∷ [])
            w)
        (λ _ _. Unit {0})
unfolding audit_write ensure_directory
audit_write_refines m config request_id event n f e tidy =
    Triple-handle (the_id_lem path f _) (λ e'. Triple-throw e' (λ w h. tt))
      λ id.
        Triple-handle (Keeps-Shows path f (λ i. Keeps-now (file_at path i) (f i)))
          (λ e'. Triple-throw e' (λ w h. tt))
          λ t.
            Triple-handle
              (Keeps-Shows path f (λ i.
                Keeps-bind (Keeps-touch (file_at path i) (f i))
                  (λ _. Keeps-touch (file_at path i) (f i))))
              (λ e'. Triple-throw e' (λ w h. tt))
              λ _.
                Triple-handle (rotate_audit_lem path f m config n _ e tidy)
                  (λ e'. Triple-throw e' (λ w h. tt))
                  λ _.
                    Triple-handle
                      (Extends-append_line path n f (audit_record m t id request_id event))
                      (λ e'. Triple-throw e' (λ w h. tt)) λ _. Triple-pure id (λ w h. (t, h))
  where
    path : Text
    path = audit_path config.state_dir
