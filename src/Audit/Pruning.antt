-- ===== src/Audit/Pruning.antt =====
-- src/state/audit.ts: a backup stays as long as its operation has no end on record.
use nodel_mcp.Base.{
  ℕ, suc, zero, ◌≡◌, refl, ap, sym, ◌∙◌, Bool, true, false, not, Option, List, [], ◌∷◌, ◌++◌, Text,
  text_eq, text_eq_iff, arith, Bool-cases, inl, inr, keep, take, All, All-keep, ltb,
}
use nodel_mcp.Config.{AppConfig}
use nodel_mcp.Files.{Content, Disk, lookup}
use nodel_mcp.Files.Triple.{
  Triple, Keeps, Triple-handle, Triple-pure, Triple-throw, Triple-weaken, Triple-fact, Keeps-pure,
  Keeps-bind,
}
use nodel_mcp.Files.Laws.{Holds, contents, content_of, Keeps-unlink_sync}
use nodel_mcp.Files.Disk.{OnDisk, OnDisk-now, OnDisk-read_dir, OnDisk-stat_sync}
use nodel_mcp.Audit.{backup_operation_id}
use nodel_mcp.Audit.Backups.{
  Encoding, Backup, is_removable, ended_in, is_expired, too_old, retained, too_many, insert_by_age,
  sort_by_age, stat_all, unlink_all, is_backup_of, prune_backups,
}
use nodel_mcp.Audit.Unended.{IsUnended, terminal_ids_unended}

-- The operation of each backup is that of its name.
abbrev IsRead : Encoding → Backup → Type 0
IsRead e b = b.operation_id ≡ backup_operation_id e.decode b.name

All-insert_by_age :
    (e : Encoding) (b : Backup) (bs : List Backup)
    → IsRead e b
    → All (IsRead e) bs
    → All (IsRead e) (insert_by_age b bs)
unfolding insert_by_age
All-insert_by_age e b [] h k = (h, tt)
All-insert_by_age e b (c ∷ cs) h k = elim (Bool-cases (ltb c.mtime b.mtime)) [
  | inl t ↦ rw t (k.0, All-insert_by_age e b cs h k.1)
  | inr t ↦ rw t (h, k)
]

All-sort_by_age :
    (e : Encoding) (bs : List Backup) → All (IsRead e) bs → All (IsRead e) (sort_by_age bs)
unfolding sort_by_age
All-sort_by_age e [] h = tt
All-sort_by_age e (b ∷ bs) h = All-insert_by_age e b (sort_by_age bs) h.0 (All-sort_by_age e bs h.1)

stat_all_keeps :
    (P : Disk → Type 0) (e : Encoding) (dir : Text) (names : List Text)
    → Triple
        (OnDisk P)
        (stat_all e dir names)
        (λ bs w. All (IsRead e) bs × OnDisk P w)
        (λ _. OnDisk P)
unfolding stat_all
stat_all_keeps P e dir [] = Triple-pure [] (λ w h. (tt, h))
stat_all_keeps P e dir (name ∷ names) =
    Triple-handle (OnDisk-stat_sync P (dir ++ (b'/' ∷ name))) (λ x. Triple-throw x (λ w h. h))
      λ f.
        Triple-handle (stat_all_keeps P e dir names) (λ x. Triple-throw x (λ w h. h))
          λ rest. Triple-fact λ hr. Triple-pure _ (λ w h. ((refl, hr), h))

append-cancel : (p a b : Text) → text_eq (p ++ a) (p ++ b) ≡ text_eq a b
unfolding text_eq
append-cancel [] a b = refl
append-cancel (c ∷ p) a b = ground (arith, append-cancel p a b)

-- A removable backup is not the one whose operation has not ended.
removable_apart :
    (e : Encoding) (dir name : Text) (ids : List Text) (b : Backup)
    → ended_in ids (backup_operation_id e.decode name) ≡ false
    → IsRead e b
    → is_removable ids b ≡ true
    → text_eq (dir ++ (b'/' ∷ b.name)) (dir ++ (b'/' ∷ name)) ≡ false
unfolding is_removable text_eq
removable_apart e dir name ids b h r t = elim (Bool-cases (text_eq b.name name)) [
  | inl same ↦
      let eq : b.name ≡ name = (text_eq_iff b.name name).0 same in
      let op : b.operation_id ≡ backup_operation_id e.decode name =
        r ∙ ap (backup_operation_id e.decode) eq in
      let u : ended_in ids (backup_operation_id e.decode name) ≡ true =
        ap (ended_in ids) (sym op) ∙ t in
      ground (arith, h, u)
  | inr other ↦ append-cancel dir (b'/' ∷ b.name) (b'/' ∷ name) ∙ other
]

unlink_all-Keeps :
    (e : Encoding) (dir name : Text) (v : Option Content) (ids : List Text) (bs : List Backup)
    → ended_in ids (backup_operation_id e.decode name) ≡ false
    → All (λ b. IsRead e b × (is_removable ids b ≡ true)) bs
    → Keeps (Holds (dir ++ (b'/' ∷ name)) v) (unlink_all dir bs)
unfolding unlink_all
unlink_all-Keeps e dir name v ids [] h k = Keeps-pure tt
unlink_all-Keeps e dir name v ids (b ∷ bs) h k =
    Keeps-bind
      (Keeps-unlink_sync (dir ++ (b'/' ∷ name)) v (dir ++ (b'/' ∷ b.name))
        (removable_apart e dir name ids b h k.0.0 k.0.1))
      (λ _. unlink_all-Keeps e dir name v ids bs h k.1)

-- What passes a test that removable backups alone pass.
All-both :
    (e : Encoding) (ids : List Text) (p : Backup → Bool) (bs : List Backup)
    → ((b : Backup) → p b ≡ true → is_removable ids b ≡ true)
    → All (IsRead e) bs
    → All (λ b. IsRead e b × (is_removable ids b ≡ true)) (keep p bs)
All-both e ids p [] f h = tt
All-both e ids p (b ∷ bs) f h = elim (Bool-cases (p b)) [
  | inl t ↦ rw t ((h.0, f b t), All-both e ids p bs f h.1)
  | inr t ↦ rw t (All-both e ids p bs f h.1)
]

All-take : (P : Backup → Type 0) (n : ℕ) (bs : List Backup) → All P bs → All P (take n bs)
All-take P zero bs h = tt
All-take P (suc n) [] h = tt
All-take P (suc n) (b ∷ bs) h = (h.0, All-take P n bs h.1)

expired_removable :
    (t days : ℕ) (ids : List Text) (b : Backup)
    → is_expired t days ids b ≡ true
    → is_removable ids b ≡ true
unfolding is_expired
expired_removable t days ids b h = ground arith

-- A backup whose file name carries no operation id, or the id of an operation that no record says
-- has succeeded or failed, keeps its contents through any pruning, of its own node or another,
-- whatever fails.
pub prune_backups_keeps :
    (e : Encoding) (config : AppConfig) (dir node name : Text) (v : Option Content)
    → Triple
        (OnDisk (λ d.
          (content_of (lookup (dir ++ (b'/' ∷ name)) d) ≡ v)
          × IsUnended (backup_operation_id e.decode name) d))
        (prune_backups e config dir node)
        (λ _. Holds (dir ++ (b'/' ∷ name)) v)
        (λ _. Holds (dir ++ (b'/' ∷ name)) v)
unfolding prune_backups too_old too_many retained contents
prune_backups_keeps e config dir node name v =
    let p = dir ++ (b'/' ∷ name) in
    let o = backup_operation_id e.decode name in
    let K : Disk → Type 0 = λ d. (content_of (lookup p d) ≡ v) × IsUnended o d in
    let days = config.backup_retention_days in
    let cap = config.backup_retention_per_node_kind in
    Triple-handle (OnDisk-now K) (λ x. Triple-throw x (λ w h. h.0))
      λ t.
        Triple-handle (terminal_ids_unended p v o config.state_dir)
          (λ x. Triple-throw x (λ w h. h.0))
          λ ids. Triple-fact λ hi.
            Triple-handle (OnDisk-read_dir K dir) (λ x. Triple-throw x (λ w h. h.0))
              λ names.
                Triple-handle (stat_all_keeps K e dir (keep (is_backup_of e node) names))
                  (λ x. Triple-throw x (λ w h. h.0))
                  λ found. Triple-fact λ hf.
                    let matching = sort_by_age found in
                    let hm = All-sort_by_age e found hf in
                    let kept = retained t days ids matching in
                    let hk : All (IsRead e) kept =
                      All-keep (IsRead e) (λ b. not (is_expired t days ids b)) matching hm in
                    Triple-weaken {P' = Holds p v}
                      (Keeps-bind
                        (unlink_all-Keeps e dir name v ids (too_old t days ids matching) hi (
                          All-both e ids (is_expired t days ids) matching
                            (expired_removable t days ids) hm))
                        (λ _. unlink_all-Keeps e dir name v ids (too_many cap ids kept) hi (
                          All-take _ _ (keep (is_removable ids) kept)
                            (All-both e ids (is_removable ids) kept (λ b h. h) hk))))
                      (λ w h. h.0) (λ _ w h. h) (λ _ w h. h)
