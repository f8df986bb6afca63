-- ===== src/Files.antt =====
-- The part of node:fs that the state modules use, over a world of files and of pending faults.
-- A file has its contents, its permission bits and its time of modification; directories are not
-- kept. Every call may fail: the head of `faults` says whether the next call does, and a call past
-- the end succeeds. A write that fails, and a file that was only created, leave `torn` contents.
-- A file that is appended to holds `lines` of records; a line that is no record is not kept, and the
-- flag says that the last line has no end yet, so that what is appended next becomes part of it.
-- `clock` is the time of the synchronous code that runs, `uuids` what crypto.randomUUID returns next.
pub mod Triple
pub mod Laws
pub mod Reads
pub mod Appends
pub mod Disk
use nodel_mcp.Base.{ℕ, Bool, true, false, Option, none, some, List, [], ◌∷◌, Text, text_eq}
use nodel_mcp.Base.{if◌then◌else◌, Result, ok, err, Error, system, is_some, ◌++◌, ◌+◌, ◌&&◌, not}
use nodel_mcp.Base.{starts_with, has_code, drop, length}
use nodel_mcp.Values.{Value}

pub data Content : Type 0 where
  torn : Content
  document : Value → Content
  unreadable : Text → Content
  lines : List Value → Bool → Content

pub record File : Type 0 where
  pub content : Content
  pub mode : ℕ
  pub mtime : ℕ

abbrev pub Disk : Type 0
Disk = List (Text × File)

unfoldable pub lookup : Text → Disk → Option File
lookup p [] = none
lookup p ((q, f) ∷ d) = if text_eq q p then some f else lookup p d

unfoldable pub insert : Text → File → Disk → Disk
insert p f [] = (p, f) ∷ []
insert p f ((q, g) ∷ d) = if text_eq q p then (q, f) ∷ d else (q, g) ∷ insert p f d

unfoldable pub remove : Text → Disk → Disk
remove p [] = []
remove p ((q, g) ∷ d) = let rest = remove p d in if text_eq q p then rest else (q, g) ∷ rest

pub record World : Type 0 where
  pub disk : Disk
  pub faults : List Bool
  pub clock : ℕ
  pub uuids : List Text

abbrev pub Exec : Type 0 → Type 0
Exec A = World → Result A × World

abbrev pub pure : {A : Type 0} → A → Exec A
pure a w = (ok a, w)

abbrev pub throw : {A : Type 0} → Error → Exec A
throw e w = (err e, w)

abbrev pub lift : {A : Type 0} → Result A → Exec A
lift r w = (r, w)

abbrev pub resume :
    {A B : Type 0} → Result A → (Error → Exec B) → (A → Exec B) → World → Result B × World
resume (ok a) h k w = k a w
resume (err e) h k w = h e w

-- Runs `m`, and goes on with `k` after its result and with `h` after its exception.
unfoldable pub handle : {A B : Type 0} → Exec A → (Error → Exec B) → (A → Exec B) → Exec B
handle m h k w = let (r, w') = m w in resume r h k w'

infixl 5 ◌>>=◌ ◌>>◌
abbrev pub ◌>>=◌ : {A B : Type 0} → Exec A → (A → Exec B) → Exec B
m >>= k = handle m throw k

abbrev pub ◌>>◌ : {A B : Type 0} → Exec A → Exec B → Exec B
m >> n = m >>= λ _. n

-- `try { m } catch (error) { h }`
abbrev pub catch : {A : Type 0} → Exec A → (Error → Exec A) → Exec A
catch m h = handle m h pure

-- `try { m } catch { /* best effort */ }`
abbrev pub attempt : Exec (Unit {0}) → Exec (Unit {0})
attempt m = catch m (λ _. pure tt)

-- `try { m } finally { f }`: an error of `f` takes the place of the outcome of `m`.
abbrev pub finally : {A : Type 0} → Exec A → Exec (Unit {0}) → Exec A
finally m f = handle m (λ e. f >> throw e) (λ a. f >> pure a)

-- The next call fails, or does what `f` says.
abbrev pub after_fault :
    {A : Type 0} → List Bool → (World → Result A × World) → World → Result A × World
after_fault [] f w = f w
after_fault (true ∷ r) f w = (err system, record w { faults = r })
after_fault (false ∷ r) f w = f (record w { faults = r })

unfoldable pub call : {A : Type 0} → (World → Result A × World) → Exec A
call f w = after_fault w.faults f w

-- mkdirSync, fsyncSync, closeSync, openSync of a directory: they change no file.
unfoldable pub touch : Exec (Unit {0})
unfolding call
touch = call (λ w. (ok tt, w))

unfoldable pub exists_sync : Text → Exec Bool
exists_sync p w = (ok (is_some (lookup p w.disk)), w)

abbrev pub change :
    {A : Type 0} → Option File → (File → Result A × World) → World → Result A × World
change none f w = (err system, w)
change (some g) f w = f g

-- openSync(p, "wx", mode): creates the file, and fails if it is there.
unfoldable pub open_new : Text → ℕ → Exec (Unit {0})
unfolding call
open_new p mode = call λ w. elim (lookup p w.disk) [
  | some g ↦ (err system, w)
  | none ↦ (
    ok tt,
    record w { disk = insert p (record { content = torn; mode = mode; mtime = w.clock }) w.disk },
  )
]

-- writeFileSync through an open descriptor; a failure leaves the file torn.
unfoldable pub write_open : Text → Content → Exec (Unit {0})
write_open p c w =
    let put = λ (k : Content) (r : Result (Unit {0})) (v : World).
      change (lookup p v.disk)
        (λ g. (r, record v { disk = insert p (record g { content = k; mtime = v.clock }) v.disk }))
        v in
    elim w.faults [
      | [] ↦ put c (ok tt) w
      | true ∷ r ↦ put torn (err system) (record w { faults = r })
      | false ∷ r ↦ put c (ok tt) (record w { faults = r })
    ]

unfoldable pub chmod_sync : Text → ℕ → Exec (Unit {0})
unfolding call
chmod_sync p mode = call λ w.
    change (lookup p w.disk)
      (λ g. (ok tt, record w { disk = insert p (record g { mode = mode }) w.disk })) w

unfoldable pub rename_sync : Text → Text → Exec (Unit {0})
unfolding call
rename_sync p q =
    call λ w.
      change (lookup p w.disk) (λ g. (ok tt, record w { disk = insert q g (remove p w.disk) })) w

unfoldable pub unlink_sync : Text → Exec (Unit {0})
unfolding call
unlink_sync p =
    call λ w. change (lookup p w.disk) (λ g. (ok tt, record w { disk = remove p w.disk })) w

unfoldable pub read_file : Text → Exec Content
unfolding call
read_file p = call λ w. change (lookup p w.disk) (λ g. (ok g.content, w)) w

unfoldable pub stat_sync : Text → Exec File
unfolding call
stat_sync p = call λ w. change (lookup p w.disk) (λ g. (ok g, w)) w

-- appendFileSync of one line, to a file of lines; a failure leaves a part of the line.
abbrev pub appended : Value → Content → Content
appended v (lines vs false) = lines (vs ++ v ∷ []) false
appended v (lines vs true) = lines vs false
appended v _ = lines [] false

abbrev pub half_appended : Content → Content
half_appended (lines vs b) = lines vs true
half_appended _ = lines [] true

unfoldable pub append_file : Text → ℕ → Value → Exec (Unit {0})
append_file p mode v w =
    let fresh : File = record { content = lines [] false; mode = mode; mtime = w.clock } in
    let f : File = elim (lookup p w.disk) [ none ↦ fresh | some g ↦ g ] in
    let put : Content → World → World =
      λ c v. record v { disk = insert p (record f { content = c; mtime = v.clock }) v.disk } in
    elim w.faults [
      | [] ↦ (ok tt, put (appended v f.content) w)
      | true ∷ r ↦ (err system, put (half_appended f.content) (record w { faults = r }))
      | false ∷ r ↦ (ok tt, put (appended v f.content) (record w { faults = r }))
    ]

-- readdirSync: the names of the files of a directory; a directory that is not there has none.
abbrev child_name : Text → Text → Option Text
child_name dir path =
    if starts_with path (dir ++ b'/' ∷ []) && not (has_code b'/' (drop (length dir + 1) path))
    then some (drop (length dir + 1) path)
    else none

abbrev onto_names : Option Text → List Text → List Text
onto_names none ns = ns
onto_names (some n) ns = n ∷ ns

unfoldable pub names_in : Text → Disk → List Text
unfolding starts_with has_code
names_in dir [] = []
names_in dir ((p, f) ∷ d) = onto_names (child_name dir p) (names_in dir d)

unfoldable pub read_dir : Text → Exec (List Text)
unfolding call names_in
read_dir dir = call λ w. (ok (names_in dir w.disk), w)

unfoldable pub now : Exec ℕ
now w = (ok w.clock, w)

abbrev pub draw : List Text → Exec Text
draw [] w = (ok [], w)
draw (u ∷ us) w = (ok u, record w { uuids = us })

unfoldable pub random_uuid : Exec Text
random_uuid w = draw w.uuids w
