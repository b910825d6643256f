-- ===== src/Outcome.antt =====
-- How a call of the server's resource code ends: it returns, it throws a `runtime_error`, or it
-- follows a pointer to an object that is gone, which is undefined behaviour.
use bigdataexpress_c.Base.{String, ◌≡◌, refl}

pub data Error : Type 0 where
  job_not_found no_job no_extra_job : Error
  node_not_found storage_not_found dtn_not_found general_not_found not_a_dtn : String → Error
  edge_not_found : String → String → Error
  no_gateway no_launcher no_sdn no_associated_dtn : Error
  gateway_protected : Error
  gateway_edges : Error
  matching_failed : Error

pub data Outcome {ℓ} (A : Type ℓ) : Type ℓ where
  ok : A → Outcome A
  throw : Error → Outcome A
  fault : Outcome A

infixl 5 ◌>>=◌
abbrev pub ◌>>=◌ {ℓ κ} : {A : Type ℓ} {B : Type κ} → Outcome A → (A → Outcome B) → Outcome B
ok a >>= f = f a
throw e >>= f = throw e
fault >>= f = fault

-- The call follows no dangling pointer, and what it returns, if it does, satisfies `P`.
abbrev pub Safe {ℓ} : {A : Type ℓ} → (A → Type 0) → Outcome A → Type 0
Safe P (ok a) = P a
Safe P (throw e) = Unit
Safe P fault = ⊥

pub Safe-bind {ℓ κ} :
    {A : Type ℓ} {B : Type κ} (P : A → Type 0) (Q : B → Type 0) (m : Outcome A) (f : A → Outcome B)
    → Safe P m
    → ((a : A) → m ≡ ok a → P a → Safe Q (f a))
    → Safe Q (m >>= f)
Safe-bind P Q (ok a) f h k = k a refl h
Safe-bind P Q (throw e) f h k = tt
Safe-bind P Q fault f h k = absurd h

-- A chain that returns has returned at its first step.
pub >>=-eq-ok {ℓ κ} :
    {X : Type ℓ} {Y : Type κ} (first : Outcome X) (next : X → Outcome Y) {y : Y}
    → (first >>= next) ≡ ok y
    → (x : X) × (first ≡ ok x) × (next x ≡ ok y)
>>=-eq-ok fault next ends = absurd (cc)
>>=-eq-ok (throw e) next ends = absurd (cc)
>>=-eq-ok (ok x) next ends = (x, refl, ends)
