-- ===== src/Files/Triple.antt =====
-- Statements about actions: from `P` the action ends in `Q` with its result, or in `E` with its
-- exception.
use nodel_mcp.Base.{Result, ok, err, Error, Bool, true, false, ◌≡◌, refl, if◌then◌else◌}
use nodel_mcp.Base.{subst, ◌⊎◌, inl, inr}
use nodel_mcp.Files.{World, Exec, pure, throw, handle, ◌>>=◌, resume}

module _ {A : Type 0} where
  abbrev pub Post : (A → World → Type 0) → (Error → World → Type 0) → Result A × World → Type 0
  Post Q E (ok a, w) = Q a w
  Post Q E (err e, w) = E e w

pub record Triple {A : Type 0} (P : World → Type 0) (m : Exec A) (Q : A → World → Type 0)
    (E : Error → World → Type 0) : Type 0 where
  pub at : (w : World) → P w → Post Q E (m w)

-- `P` holds afterwards, whether the action returns or throws.
abbrev pub Keeps : {A : Type 0} → (World → Type 0) → Exec A → Type 0
Keeps P m = Triple P m (λ _. P) (λ _. P)

resume-Post :
    {A B : Type 0} (R : A → World → Type 0) (D : Error → World → Type 0) (Q : B → World → Type 0)
    (E : Error → World → Type 0) (r : Result A) (h : Error → Exec B) (k : A → Exec B) (w : World)
    → Post R D (r, w)
    → ((e : Error) → Triple (D e) (h e) Q E)
    → ((a : A) → Triple (R a) (k a) Q E)
    → Post Q E (resume r h k w)
resume-Post R D Q E (ok a) h k w p th tk = (tk a).at w p
resume-Post R D Q E (err e) h k w p th tk = (th e).at w p

Post-weaken :
    {A : Type 0} (Q Q' : A → World → Type 0) (E E' : Error → World → Type 0) (r : Result A)
    (w : World)
    → Post Q' E' (r, w)
    → ((a : A) (w : World) → Q' a w → Q a w)
    → ((e : Error) (w : World) → E' e w → E e w)
    → Post Q E (r, w)
Post-weaken Q Q' E E' (ok a) w p f g = f a w p
Post-weaken Q Q' E E' (err e) w p f g = g e w p

Post-both :
    {A : Type 0} (Q Q' : A → World → Type 0) (E E' : Error → World → Type 0) (r : Result A)
    (w : World)
    → Post Q E (r, w)
    → Post Q' E' (r, w)
    → Post (λ a v. Q a v × Q' a v) (λ e v. E e v × E' e v) (r, w)
Post-both Q Q' E E' (ok a) w p q = (p, q)
Post-both Q Q' E E' (err e) w p q = (p, q)

module _ {A B : Type 0} {P : World → Type 0} {R : A → World → Type 0} {D : Error → World → Type 0}
    {Q : B → World → Type 0} {E : Error → World → Type 0} where
  pub Triple-handle :
      {m : Exec A} {h : Error → Exec B} {k : A → Exec B}
      → Triple P m R D
      → ((e : Error) → Triple (D e) (h e) Q E)
      → ((a : A) → Triple (R a) (k a) Q E)
      → Triple P (handle m h k) Q E
  unfolding handle
  Triple-handle {m} {h} {k} tm th tk = record {
    at = λ w p. let (r, w') = m w in resume-Post R D Q E r h k w' (tm.at w p) th tk;
  }

module _ {A : Type 0} {P : World → Type 0} {Q : A → World → Type 0}
    {E : Error → World → Type 0} where
  pub Triple-pure : (a : A) → ((w : World) → P w → Q a w) → Triple P (pure a) Q E
  Triple-pure a f = record { at = f }

  pub Triple-throw : (e : Error) → ((w : World) → P w → E e w) → Triple P (throw e) Q E
  Triple-throw e f = record { at = f }

  pub Triple-if :
      (b : Bool) {m n : Exec A}
      → (b ≡ true → Triple P m Q E)
      → (b ≡ false → Triple P n Q E)
      → Triple P (if b then m else n) Q E
  Triple-if true tm tn = tm refl
  Triple-if false tm tn = tn refl

  pub Triple-weaken :
      {Q' : A → World → Type 0} {E' : Error → World → Type 0} {P' : World → Type 0} {m : Exec A}
      → Triple P' m Q' E'
      → ((w : World) → P w → P' w)
      → ((a : A) (w : World) → Q' a w → Q a w)
      → ((e : Error) (w : World) → E' e w → E e w)
      → Triple P m Q E
  Triple-weaken {Q'} {E'} {m} t p f g = record {
    at = λ w h. let (r, w') = m w in Post-weaken Q Q' E E' r w' (t.at w (p w h)) f g;
  }

-- The end of a run that returned.
pub Triple-ok :
    {A : Type 0} {P : World → Type 0} {m : Exec A} {Q : A → World → Type 0}
    {E : Error → World → Type 0} {a : A}
    → Triple P m Q E
    → (w : World) → P w
    → (m w).0 ≡ ok a
    → Q a (m w).1
Triple-ok {m} {Q} {E} {a} t w p e =
    let h : Post Q E ((m w).0, (m w).1) = t.at w p in subst (λ r. Post Q E (r, (m w).1)) e h

Post-same :
    {A : Type 0} (P : World → Type 0) (r : Result A) (w : World)
    → Post (λ _. P) (λ _. P) (r, w)
    → P w
Post-same P (ok a) w h = h
Post-same P (err e) w h = h

-- However the run ends.
pub Keeps-end :
    {A : Type 0} {P : World → Type 0} {m : Exec A} → Keeps P m → (w : World) → P w → P (m w).1
Keeps-end {P} {m} k w h = Post-same P (m w).0 (m w).1 (k.at w h)

-- From either of two beginnings.
module _ {A : Type 0} {P P' : World → Type 0} {Q : A → World → Type 0} {E : Error → World → Type 0}
    {m : Exec A} where
  pub Triple-either : Triple P m Q E → Triple P' m Q E → Triple (λ w. P w ⊎ P' w) m Q E
  Triple-either s t = record { at = λ w h. elim h [ inl p ↦ s.at w p | inr p ↦ t.at w p ] }

Post-trivial :
    {A : Type 0} (r : Result A) (w : World) → Post (λ _ _. Unit {0}) (λ _ _. Unit {0}) (r, w)
Post-trivial (ok a) w = tt
Post-trivial (err e) w = tt

-- Of any action nothing is said, so that what follows it may be.
pub Triple-trivial :
    {A : Type 0} (P : World → Type 0) (m : Exec A) → Triple P m (λ _ _. Unit {0}) (λ _ _. Unit {0})
Triple-trivial P m = record { at = λ w h. let (r, w') = m w in Post-trivial r w' }

-- A fact that does not depend on the world is taken out of the beginning.
pub Triple-fact :
    {A : Type 0} {X : Type 0} {P : World → Type 0} {Q : A → World → Type 0}
    {E : Error → World → Type 0} {m : Exec A}
    → (X → Triple P m Q E)
    → Triple (λ w. X × P w) m Q E
Triple-fact f = record { at = λ w h. (f h.0).at w h.1 }

-- Two statements about one action.
module _ {A : Type 0} {P P' : World → Type 0} {Q Q' : A → World → Type 0}
    {E E' : Error → World → Type 0} where
  pub Triple-both :
      {m : Exec A}
      → Triple P m Q E
      → Triple P' m Q' E'
      → Triple (λ w. P w × P' w) m (λ a w. Q a w × Q' a w) (λ e w. E e w × E' e w)
  Triple-both {m} s t = record {
    at = λ w h. let (r, w') = m w in Post-both Q Q' E E' r w' (s.at w h.0) (t.at w h.1);
  }

module _ {P : World → Type 0} where
  pub Keeps-bind :
      {A B : Type 0} {m : Exec A} {k : A → Exec B}
      → Keeps P m
      → ((a : A) → Keeps P (k a))
      → Keeps P (m >>= k)
  Keeps-bind tm tk = Triple-handle tm (λ e. Triple-throw e (λ w p. p)) tk

  pub Keeps-pure : {A : Type 0} (a : A) → Keeps P (pure a)
  Keeps-pure a = Triple-pure a (λ w p. p)

  pub Keeps-throw : {A : Type 0} (e : Error) → Keeps P (throw {A = A} e)
  Keeps-throw e = Triple-throw e (λ w p. p)

  pub Keeps-handle :
      {A B : Type 0} {m : Exec A} {h : Error → Exec B} {k : A → Exec B}
      → Keeps P m
      → ((e : Error) → Keeps P (h e))
      → ((a : A) → Keeps P (k a))
      → Keeps P (handle m h k)
  Keeps-handle tm th tk = Triple-handle tm th tk

pub ruleset keeps_rules = (Keeps-handle, Keeps-pure, Keeps-throw, Triple-if)
