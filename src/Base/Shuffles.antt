-- ===== src/Base/Shuffles.antt =====
-- Lists with the same items in another order, by exchanges that a proof can follow one by one.
use mathlib.Core.Path.{◌≡◌, refl, sym, subst}
use mathlib.Core.List.{List, [], ◌∷◌, ◌++◌}
use native.Mathlib.Omega.{arith}
use bigdataexpress_c.Base.Lists.{length, All}

pub data Shuffled {ℓ} {A : Type ℓ} : List A → List A → Type ℓ where
  ends : Shuffled [] []
  keeps : {x y : A} {xs ys : List A} → x ≡ y → Shuffled xs ys → Shuffled (x ∷ xs) (y ∷ ys)
  swaps : {x y u v : A} {xs : List A} → x ≡ v → y ≡ u → Shuffled (x ∷ y ∷ xs) (u ∷ v ∷ xs)
  chain : {xs ys zs : List A} → Shuffled xs ys → Shuffled ys zs → Shuffled xs zs

module _ {ℓ} {A : Type ℓ} where
  pub unchanged : (xs : List A) → Shuffled xs xs
  unchanged [] = ends
  unchanged (x ∷ xs) = keeps refl (unchanged xs)

  pub turn : {xs ys : List A} → Shuffled xs ys → Shuffled ys xs
  turn ends = ends
  turn (keeps e s) = keeps (sym e) (turn s)
  turn (swaps e f) = swaps (sym f) (sym e)
  turn (chain s t) = chain (turn t) (turn s)

  pub to_front : (xs : List A) (x : A) (ys : List A) → Shuffled (xs ++ x ∷ ys) (x ∷ xs ++ ys)
  to_front [] x ys = unchanged (x ∷ ys)
  to_front (y ∷ xs) x ys = chain (keeps refl (to_front xs x ys)) (swaps refl refl)

  pub before : (zs : List A) {xs ys : List A} → Shuffled xs ys → Shuffled (zs ++ xs) (zs ++ ys)
  before [] s = s
  before (z ∷ zs) s = keeps refl (before zs s)

  pub behind : {xs ys : List A} (zs : List A) → Shuffled xs ys → Shuffled (xs ++ zs) (ys ++ zs)
  behind zs ends = unchanged zs
  behind zs (keeps e s) = keeps e (behind zs s)
  behind zs (swaps e f) = swaps e f
  behind zs (chain s t) = chain (behind zs s) (behind zs t)

  pub exchange_parts : (xs ys : List A) → Shuffled (xs ++ ys) (ys ++ xs)
  exchange_parts [] [] = ends
  exchange_parts [] (y ∷ ys) = keeps refl (exchange_parts [] ys)
  exchange_parts (x ∷ xs) ys = chain (keeps refl (exchange_parts xs ys)) (turn (to_front ys x xs))

  pub length-Shuffled : {xs ys : List A} → Shuffled xs ys → length xs ≡ length ys
  length-Shuffled ends = refl
  length-Shuffled (keeps e s) = omega (arith, length-Shuffled s)
  length-Shuffled (swaps e f) = refl
  length-Shuffled (chain s t) = omega (arith, length-Shuffled s, length-Shuffled t)

module _ {ℓ κ} {A : Type ℓ} (P : A → Type κ) where
  pub All-Shuffled : {xs ys : List A} → Shuffled xs ys → All P xs → All P ys
  All-Shuffled ends h = tt
  All-Shuffled (keeps e s) h = (subst P e h.0, All-Shuffled s h.1)
  All-Shuffled (swaps e f) h = (subst P f h.1.0, (subst P e h.0, h.1.1))
  All-Shuffled (chain s t) h = All-Shuffled t (All-Shuffled s h)
