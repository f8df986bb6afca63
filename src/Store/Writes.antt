-- ===== src/Store/Writes.antt =====
-- `atomicWrite` and `durableRename` of src/state/store.ts, whatever call of the file system fails.
use nodel_mcp.Base.{◌≡◌, refl, Bool, true, false, Option, some, Text}
use nodel_mcp.Base.{◌++◌, codes, length, length-append, text_eq, text_eq_iff, arith}
use nodel_mcp.Base.{◌⊎◌, inl, inr, ap, Error, Bool-cases}
use nodel_mcp.Files.{Content, World}
use nodel_mcp.Files.Triple.{Triple, Keeps, Triple-handle, Triple-pure, Triple-throw, Triple-weaken}
use nodel_mcp.Files.Triple.{Triple-both, Keeps-bind, Keeps-handle, Keeps-pure}
use nodel_mcp.Files.Triple.{Triple-if, Triple-either, keeps_rules}
use nodel_mcp.Files.Laws.{Holds, contents, Keeps-touch, Keeps-open_new, Keeps-write_open}
use nodel_mcp.Files.Laws.{Keeps-chmod_sync, Keeps-unlink_sync, Keeps-rename_sync, Keeps-random_uuid}
use nodel_mcp.Files.Laws.{write_open_lem, rename_sync_lem}
use nodel_mcp.Store.{
  abandon, fill, publish, write_through, atomic_write, temporary_name, state_error,
}
use nodel_mcp.Store.{sync_directory}

-- A temporary name is longer than the name that it is for.
pub temporary_name-ne : (path u : Text) → text_eq (temporary_name path u) path ≡ false
temporary_name-ne path u = elim (Bool-cases (text_eq (temporary_name path u) path)) [
  | inl same ↦
      let e : length (path ++ (codes ".tmp-" ++ u)) ≡ length path =
        ap length ((text_eq_iff _ _).0 same) in
      absurd
        (omega (arith, e, length-append path (codes ".tmp-" ++ u), length-append (codes ".tmp-") u))
  | inr other ↦ other
]

pub Keeps-sync_directory : (p : Text) (v : Option Content) → Keeps (Holds p v) sync_directory
unfolding sync_directory
Keeps-sync_directory p v = search (keeps_rules, Keeps-touch p v)

-- The handler of `atomicWrite` throws, and leaves the other files as they were.
abandon_lem :
    (p t : Text) (u : Option Content) (fd : Bool) (e : Error) {Q : Unit {0} → World → Type 0}
    → text_eq t p ≡ false
    → Triple (Holds p u) (abandon fd t e) Q (λ _. Holds p u)
unfolding abandon
abandon_lem p t u fd e d =
    Triple-handle (Triple-if fd (λ _. Keeps-touch p u) (λ _. Keeps-pure tt))
      (λ e'. Triple-throw e' (λ w h. h))
      λ _.
        Triple-handle {R = λ _. Holds p u} {D = λ _. Holds p u}
          (Keeps-handle (Keeps-unlink_sync p u t d) (λ _. Keeps-pure tt) (λ a. Keeps-pure a))
          (λ e'. Triple-throw e' (λ w h. h)) (λ _. Triple-throw (state_error e) (λ w h. h))

Keeps-fill :
    (p t : Text) (c : Content) (u : Option Content)
    → text_eq t p ≡ false
    → Keeps (Holds p u) (fill t c)
unfolding fill
Keeps-fill p t c u d = search (keeps_rules, Keeps-touch p u, Keeps-write_open p u t c d)

fill_lem :
    (t : Text) (c : Content) (P : World → Type 0)
    → Triple P (fill t c) (λ _. Holds t (some c)) (λ _ _. Unit {0})
unfolding fill
fill_lem t c P =
    Triple-handle (write_open_lem t c P) (λ e. Triple-throw e (λ w h. tt))
      λ _.
        Triple-weaken (Keeps-bind (Keeps-touch t (some c)) (λ _. Keeps-touch t (some c))) (λ w h. h)
          (λ _ w h. h) (λ _ w h. tt)

fill_both :
    (p t : Text) (c : Content) (v : Option Content)
    → text_eq t p ≡ false
    → Triple
        (Holds p v)
        (fill t c)
        (λ _ w. Holds t (some c) w × Holds p v w)
        (λ _ w. Unit {0} × Holds p v w)
fill_both p t c v d =
    Triple-weaken (Triple-both (fill_lem t c (Holds p v)) (Keeps-fill p t c v d)) (λ w h. (h, h))
      (λ _ w h. h) (λ _ w h. h)

-- The path has its old contents or the new ones, whole.
abbrev pub OldOrNew : Text → Option Content → Content → World → Type 0
OldOrNew path v c w = Holds path v w ⊎ Holds path (some c) w

abandon_old :
    (path t : Text) (c : Content) (v : Option Content) (fd : Bool)
    → text_eq t path ≡ false
    → (e : Error)
    → Triple (Holds path v) (abandon fd t e) (λ _. Holds path (some c)) (λ _. OldOrNew path v c)
abandon_old path t c v fd d e =
    Triple-weaken (abandon_lem path t v fd e d) (λ w h. h) (λ _ w h. h) (λ _ w h. inl h)

abandon_either :
    (path t : Text) (c : Content) (v : Option Content) (fd : Bool)
    → text_eq t path ≡ false
    → (e : Error)
    → Triple
        (OldOrNew path v c)
        (abandon fd t e)
        (λ _. Holds path (some c))
        (λ _. OldOrNew path v c)
abandon_either path t c v fd d e =
    Triple-either (abandon_old path t c v fd d e)
      (Triple-weaken (abandon_lem path t (some c) fd e d) (λ w h. h) (λ _ w h. h) (λ _ w h. inr h))

publish_lem :
    (t path : Text) (v : Option Content) (c : Content)
    → Triple
        (λ w. Holds t (some c) w × Holds path v w)
        (publish t path)
        (λ _. Holds path (some c))
        (λ _. OldOrNew path v c)
unfolding publish
publish_lem t path v c =
    Triple-handle (rename_sync_lem t path (some c) v) (λ e. Triple-throw e (λ w h. inl h.1))
      λ _.
        Triple-weaken
          (Keeps-bind (Keeps-chmod_sync path (some c) path 0o600)
            (λ _. Keeps-sync_directory path (some c)))
          (λ w h. h) (λ _ w h. h) (λ _ w h. inr h)

write_through_lem :
    (t path : Text) (c : Content) (v : Option Content)
    → text_eq t path ≡ false
    → Triple
        (Holds path v)
        (write_through t path c)
        (λ _. Holds path (some c))
        (λ _. OldOrNew path v c)
unfolding write_through
write_through_lem t path c v apart =
    Triple-handle (Keeps-open_new path v t 0o600 apart) (abandon_old path t c v false apart) λ _.
      Triple-handle (fill_both path t c v apart)
        (λ e.
          Triple-weaken (abandon_old path t c v true apart e) (λ w h. h.1) (λ _ w h. h)
            (λ _ w h. h))
        λ _.
          Triple-handle (publish_lem t path v c) (abandon_either path t c v false apart)
            (λ a. Triple-pure a (λ w h. h))

-- From any contents of the path and any faults to come: a write that returns leaves exactly the new
-- contents, and one that throws leaves the old contents or the new ones, never a part of them.
pub atomic_write_atomic :
    (path : Text) (c : Content) (v : Option Content)
    → Triple
        (Holds path v)
        (atomic_write path c)
        (λ _. Holds path (some c))
        (λ _. OldOrNew path v c)
unfolding atomic_write
atomic_write_atomic path c v =
    Triple-handle (Keeps-bind (Keeps-touch path v) (λ _. Keeps-touch path v))
      (λ e. Triple-throw e (λ w h. inl h))
      λ _.
        Triple-handle (Keeps-random_uuid path v) (λ e. Triple-throw e (λ w h. inl h))
          λ u. write_through_lem (temporary_name path u) path c v (temporary_name-ne path u)

-- A path other than the one written and its temporary names.
abbrev pub IsApart : Text → Text → Type 0
IsApart p path = (text_eq path p ≡ false) × ((u : Text) → text_eq (temporary_name path u) p ≡ false)

Keeps-publish :
    (p t path : Text) (v : Option Content)
    → text_eq t p ≡ false
    → text_eq path p ≡ false
    → Keeps (Holds p v) (publish t path)
unfolding publish
Keeps-publish p t path v d e =
    Keeps-bind (Keeps-rename_sync p v t path d e)
      λ _. Keeps-bind (Keeps-chmod_sync p v path 0o600) (λ _. Keeps-sync_directory p v)

Keeps-write_through :
    (p t path : Text) (c : Content) (v : Option Content)
    → text_eq t p ≡ false
    → text_eq path p ≡ false
    → Keeps (Holds p v) (write_through t path c)
unfolding write_through
Keeps-write_through p t path c v d e =
    Keeps-handle (Keeps-open_new p v t 0o600 d) (λ x. abandon_lem p t v false x d)
      λ _.
        Keeps-handle (Keeps-fill p t c v d) (λ x. abandon_lem p t v true x d)
          λ _.
            Keeps-handle (Keeps-publish p t path v d e) (λ x. abandon_lem p t v false x d)
              (λ b. Keeps-pure b)

-- A write leaves the contents of every other file alone, whatever fails.
pub Keeps-atomic_write :
    (p path : Text) (c : Content) (v : Option Content)
    → IsApart p path
    → Keeps (Holds p v) (atomic_write path c)
unfolding atomic_write
Keeps-atomic_write p path c v a =
    Keeps-bind (Keeps-bind (Keeps-touch p v) (λ _. Keeps-touch p v)) λ _.
      Keeps-bind (Keeps-random_uuid p v)
        λ u. Keeps-write_through p (temporary_name path u) path c v (a.1 u) a.0

-- A write that returns leaves its contents, from whatever world.
pub atomic_write_lem :
    (path : Text) (c : Content) (P : World → Type 0)
    → Triple P (atomic_write path c) (λ _. Holds path (some c)) (λ _ _. Unit {0})
atomic_write_lem path c P = record {
  at = λ w h.
      let t =
        Triple-weaken {P = Holds path (contents path w)} {Q = λ _. Holds path (some c)}
          {E = λ _ _. Unit {0}} (atomic_write_atomic path c (contents path w)) (λ v k. k)
          (λ _ v k. k) (λ _ v k. tt) in
      t.at w refl;
}
