-- ===== src/Config/Bounds.antt =====
-- What the checks of src/config.ts guarantee.
use nodel_mcp.Base.{
  ℕ, ◌≤◌, ◌≡◌, refl, subst, Bool, true, false, not, ◌&&◌, ◌||◌, Option, none, some, or_else, [],
  Text,
}
use nodel_mcp.Base.{
  codes, is_empty, leb, ltb, length, Result, ok, err, Error, system, guard, ◌>>=◌, ◌>>◌, arith, inl,
  inr,
}
use nodel_mcp.Base.{code_points, Bool-cases}
use nodel_mcp.Values.{Integer, pos, negsuc}
use nodel_mcp.Config.Load.{
  Host, Environment, value, boolean_value, in_range, integer_value, normalize_http_url,
}
use nodel_mcp.Config.Load.{is_loopback_address, validate_token, validate_gates}
use nodel_mcp.Config.Load.{Gates, load_gates, distinct}

abbrev pub Meets : {A : Type 0} → (A → Type 0) → Result A → Type 0
Meets P (err e) = Unit
Meets P (ok a) = P a

-- A result, if there is one, has a property.
pub record Ensures {A : Type 0} (P : A → Type 0) (m : Result A) : Type 0 where
  pub meets : Meets P m

module _ {A B : Type 0} {P : A → Type 0} {Q : B → Type 0} where
  pub Ensures-bind :
      (m : Result A) {k : A → Result B}
      → Ensures P m
      → ((a : A) → P a → Ensures Q (k a))
      → Ensures Q (m >>= k)
  Ensures-bind (err e) h f = record { meets = tt }
  Ensures-bind (ok a) h f = f a h.meets

module _ {B X : Type 0} {Q : B → Type 0} where
  pub Ensures-then :
      (m : Result (Unit {0})) {k : Result B}
      → Ensures (λ _. X) m
      → (X → Ensures Q k)
      → Ensures Q (m >> k)
  Ensures-then (err e) h f = record { meets = tt }
  Ensures-then (ok a) h f = f h.meets

pub Ensures-result : {A : Type 0} (m : Result A) → Ensures (λ a. m ≡ ok a) m
Ensures-result (err e) = record { meets = tt }
Ensures-result (ok a) = record { meets = refl }

pub Ensures-guard :
    {X : Type 0} (b : Bool) (e : Error) → (b ≡ true → X) → Ensures (λ _. X) (guard b e)
Ensures-guard true e f = record { meets = f refl }
Ensures-guard false e f = record { meets = tt }

pub Ensures-ok : {A : Type 0} {P : A → Type 0} {m : Result A} {a : A} → Ensures P m → m ≡ ok a → P a
Ensures-ok {P} {m} {a} h e = let x : Meets P m = h.meets in subst (Meets P) e x

abbrev pub IsWithin : ℕ → ℕ → ℕ → Type 0
IsWithin low high n = (low ≤ n) × (n ≤ high)

in_range-IsWithin :
    (low high : ℕ) (o : Option Integer) → Ensures (IsWithin low high) (in_range low high o)
in_range-IsWithin low high none = record { meets = tt }
in_range-IsWithin low high (some (negsuc n)) = record { meets = tt }
in_range-IsWithin low high (some (pos n)) = elim (Bool-cases (leb low n && leb n high)) [
  | inl fits ↦ rw fits (record { meets = (ground arith, ground arith) })
  | inr other ↦ rw other (record { meets = tt })
]

pub integer_value-IsWithin :
    (host : Host) (env : Environment) (name : Text) (fallback low high : ℕ)
    → Ensures (IsWithin low high) (integer_value host env name fallback low high)
unfolding integer_value
integer_value-IsWithin host env name fallback low high = in_range-IsWithin low high _

-- A token of at least 32 code units with at least 16 distinct characters.
abbrev pub is_strong : Option Text → Bool
is_strong none = false
is_strong (some t) = leb 32 (length t) && leb 16 (distinct (code_points t))

pub validate_token_lem :
    (host : Host) (token : Option Text) (address : Text)
    → Ensures
        (λ _. (is_loopback_address host address || is_strong token) ≡ true)
        (validate_token host token address)
unfolding validate_token
validate_token_lem host token address = elim (Bool-cases (is_loopback_address host address)) [
  | inl local ↦ rw local (record { meets = refl })
  | inr remote ↦ rw remote (
      Ensures-then _ (Ensures-guard _ system (λ given. given))
        λ given. Ensures-guard _ system (strong_lem token given))
]
  where
    strong_lem :
        (token : Option Text)
        → not (is_empty (or_else token [])) ≡ true
        → not (
            ltb (length (or_else token [])) 32
            || ltb (distinct (code_points (or_else token []))) 16)
          ≡ true
        → is_strong token ≡ true
    strong_lem none h k = cc
    strong_lem (some t) h k = ground arith

pub gates_lem :
    (writes lifecycle deletes : Bool)
    → Ensures
        (λ _. ((not lifecycle || writes) && (not deletes || lifecycle)) ≡ true)
        (validate_gates writes lifecycle deletes)
unfolding validate_gates
gates_lem writes lifecycle deletes = Ensures-guard _ system λ passed. ground arith

-- What holds of the gates that were loaded.
pub record IsGated (host : Host) (env : Environment) (g : Gates) : Type 0 where
  pub writes_are_read : boolean_value env (codes "NODEL_ENABLE_WRITES") false ≡ ok g.writes_enabled
  pub approval_is_read :
      boolean_value env (codes "NODEL_REQUIRE_WRITE_APPROVAL") true ≡ ok g.write_approval_required
  pub gates_fit :
      ((not g.node_lifecycle_enabled || g.writes_enabled)
        && (not g.deletes_enabled || g.node_lifecycle_enabled))
      ≡ true
  pub is_guarded : (is_loopback_address host g.mcp_bind_address || is_strong g.mcp_token) ≡ true

module _ (host : Host) (env : Environment) where
  pub after_any :
      {A B : Type 0} {Q : B → Type 0} (m : Result A) {k : A → Result B}
      → ((a : A) → Ensures Q (k a))
      → Ensures Q (m >>= k)
  after_any (err e) f = record { meets = tt }
  after_any (ok a) f = f a

  pub after_boolean :
      {B : Type 0} {Q : B → Type 0} (name : Text) (fallback : Bool) {k : Bool → Result B}
      → ((b : Bool) → boolean_value env name fallback ≡ ok b → Ensures Q (k b))
      → Ensures Q (boolean_value env name fallback >>= k)
  after_boolean name fallback f =
      Ensures-bind _ (Ensures-result (boolean_value env name fallback)) f

  pub after_integer :
      {B : Type 0} {Q : B → Type 0} (name : Text) (fallback low high : ℕ) {k : ℕ → Result B}
      → ((n : ℕ) → IsWithin low high n → Ensures Q (k n))
      → Ensures Q (integer_value host env name fallback low high >>= k)
  after_integer name fallback low high f =
      Ensures-bind _ (integer_value-IsWithin host env name fallback low high) f

  pub load_gates_lem : Ensures (IsGated host env) (load_gates host env)
  unfolding load_gates
  load_gates_lem =
      let token = value env (codes "NODEL_MCP_TOKEN") in
      let address = or_else (value env (codes "MCP_BIND_ADDRESS")) (codes "127.0.0.1") in
      after_any
        (normalize_http_url host false
          (or_else (value env (codes "NODEL_BASE_URL")) (codes "http://127.0.0.1:8085")))
        λ url. after_boolean (codes "NODEL_ENABLE_WRITES") false λ writes read_writes.
          after_boolean (codes "NODEL_ENABLE_NODE_LIFECYCLE") false λ lifecycle _.
            after_boolean (codes "NODEL_ENABLE_DELETES") false λ deletes _.
              Ensures-then (validate_gates writes lifecycle deletes)
                (gates_lem writes lifecycle deletes)
                λ gates.
                  Ensures-then (validate_token host token address)
                    (validate_token_lem host token address)
                    λ guarded.
                      after_boolean (codes "NODEL_REQUIRE_WRITE_APPROVAL") true
                        λ required read_approval. record {
                          meets = record {
                            writes_are_read = read_writes;
                            approval_is_read = read_approval;
                            gates_fit = gates;
                            is_guarded = guarded;
                          };
                        }
