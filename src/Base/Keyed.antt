-- ===== src/Base/Keyed.antt =====
-- `std::map` with string keys: an association list in the order of the keys.
use Prim.Native.Char.{code}
use Prim.Native.String.{String}
use mathlib.Core.Path.{◌≡◌, refl}
use mathlib.Core.Bool.{Bool, true, false}
use mathlib.Core.List.{List, [], ◌∷◌}
use mathlib.Core.Option.{Option, none, some}
use native.Mathlib.Omega.{arith}
use text.Mathlib.Text.{◌==◌ as str_eq}
use text.Mathlib.TextEquality.{eq_iff}
use bigdataexpress_c.Base.Lists.{All}
use bigdataexpress_c.Base.Tests.{ltb, ◌==◌, if◌then◌else◌}

-- `operator<` of `std::string`: the bytes of UTF-8 compare as the code points do.
unfoldable pub str_lt : String → String → Bool
str_lt s String.[] = false
str_lt String.[] (String.◌∷◌ d t) = true
str_lt (String.◌∷◌ c s) (String.◌∷◌ d t) =
    let rest = str_lt s t in
    if ltb (code c) (code d) then true else if code c == code d then rest else false

abbrev pub is_some {ℓ} : {A : Type ℓ} → Option A → Bool
is_some none = false
is_some (some a) = true

abbrev pub map_option {ℓ κ} : {A : Type ℓ} {B : Type κ} → (A → B) → Option A → Option B
map_option f none = none
map_option f (some a) = some (f a)

abbrev pub or_else {ℓ} : {A : Type ℓ} → Option A → A → A
or_else none a = a
or_else (some b) a = b

abbrev pub Keyed {ℓ} : Type ℓ → Type ℓ
Keyed V = List (String × V)

module _ {ℓ} {V : Type ℓ} where
  unfoldable pub lookup : String → Keyed V → Option V
  lookup k [] = none
  lookup k ((j, v) ∷ m) = if str_eq j k then some v else lookup k m

  unfoldable pub insert : String → V → Keyed V → Keyed V
  unfolding str_lt
  insert k v [] = (k, v) ∷ []
  insert k v ((j, w) ∷ m) = if str_lt k j then (k, v) ∷ (j, w) ∷ m else (j, w) ∷ insert k v m

  -- `emplace`: an entry that is there stays.
  unfoldable pub emplace : String → V → Keyed V → Keyed V
  unfolding lookup insert
  emplace k v m = if is_some (lookup k m) then m else insert k v m

  unfoldable pub erase : String → Keyed V → Keyed V
  erase k [] = []
  erase k ((j, v) ∷ m) = let rest = erase k m in if str_eq j k then rest else (j, v) ∷ rest

  -- A write through a reference to the value at a key.
  unfoldable pub update : String → (V → V) → Keyed V → Keyed V
  update k f [] = []
  update k f ((j, v) ∷ m) = (j, if str_eq j k then f v else v) ∷ update k f m

  pub lookup-insert :
      (k j : String) (v : V) (m : Keyed V)
      → lookup k m ≡ none
      → lookup j (insert k v m) ≡ (if str_eq k j then some v else lookup j m)
  unfolding lookup insert
  lookup-insert k j v [] h = refl
  lookup-insert k j v ((i, w) ∷ m) h =
      ground (arith, eq_iff k j, eq_iff i k, eq_iff i j, lookup-insert k j v m)

  pub lookup-emplace :
      (k j : String) (v : V) (m : Keyed V)
      → lookup j (emplace k v m)
        ≡ (if str_eq k j then some (or_else (lookup k m) v) else lookup j m)
  unfolding emplace
  lookup-emplace k j v m = ground (arith, lookup-insert k j v m, eq_iff k j)

  pub lookup-erase :
      (k j : String) (m : Keyed V)
      → lookup j (erase k m) ≡ (if str_eq k j then none else lookup j m)
  unfolding lookup erase
  lookup-erase k j [] = ground arith
  lookup-erase k j ((i, w) ∷ m) =
      ground (arith, eq_iff k j, eq_iff i k, eq_iff i j, lookup-erase k j m)

  pub lookup-update :
      (k j : String) (f : V → V) (m : Keyed V)
      → lookup j (update k f m) ≡ (if str_eq k j then map_option f (lookup j m) else lookup j m)
  unfolding lookup update
  lookup-update k j f [] = ground arith
  lookup-update k j f ((i, w) ∷ m) =
      ground (arith, eq_iff k j, eq_iff i k, eq_iff i j, lookup-update k j f m)

  pub ruleset keyed_laws = (lookup-emplace, lookup-erase, lookup-update)

  -- No two entries have the same key.
  abbrev pub Unique : Keyed V → Type ℓ
  Unique [] = Unit
  Unique ((k, v) ∷ m) = (lookup k m ≡ none) × Unique m

  Unique-insert :
      (k : String) (v : V) (m : Keyed V) → lookup k m ≡ none → Unique m → Unique (insert k v m)
  unfolding lookup insert
  Unique-insert k v [] h u = (refl, tt)
  Unique-insert k v ((i, w) ∷ m) h u =
      ground
        (arith, h, u.0, eq_iff i k, eq_iff k i, lookup-insert k i v m, Unique-insert k v m, u.1)

  pub Unique-emplace : (k : String) (v : V) (m : Keyed V) → Unique m → Unique (emplace k v m)
  unfolding emplace
  Unique-emplace k v m u = ground (arith, u, Unique-insert k v m)

  pub Unique-erase : (k : String) (m : Keyed V) → Unique m → Unique (erase k m)
  unfolding erase
  Unique-erase k [] u = tt
  Unique-erase k ((i, w) ∷ m) u = ground (arith, Unique-erase k m u.1, u.0, lookup-erase k i m)

  pub Unique-update : (k : String) (f : V → V) (m : Keyed V) → Unique m → Unique (update k f m)
  unfolding update
  Unique-update k f [] u = tt
  Unique-update k f ((i, w) ∷ m) u =
      (ground (arith, u.0, lookup-update k i f m), Unique-update k f m u.1)

  -- With unique keys, what holds of all that `lookup` finds holds of every entry.
  pub All-of_lookup {κ} :
      (P : V → Type κ) (m : Keyed V)
      → Unique m
      → ((k : String) (v : V) → lookup k m ≡ some v → P v)
      → All (λ (e : String × V). P e.1) m
  unfolding lookup
  All-of_lookup P [] u h = tt
  All-of_lookup P ((i, w) ∷ m) u h = (
    h i w (ground (arith, eq_iff i i)),
    All-of_lookup P m u.1 (λ k v e. h k v (ground (arith, e, u.0, eq_iff i k))),
  )
