-- ===== src/Checksum/Sums.antt =====
-- utils/checksum.cc: the checksums of lists of files and of groups.
use bigdataexpress_c.Base.{
  ℕ, suc, String, ◌≡◌, refl, sym, ◌∙◌, ap, subst, Bool, true, false, Option, none, some, List, [],
  ◌∷◌, ◌++◌, length, if◌then◌else◌, arith,
}
use bigdataexpress_c.Base.Keyed.{or_else}
use bigdataexpress_c.FilePath.{FilePath, is_regular_file}
use bigdataexpress_c.PathGroups.{Paths}
use bigdataexpress_c.DirTree.{PathGroup}
use bigdataexpress_c.Checksum.{
  values, count_regular_files, and_then, checksums_of, checksums_of_groups,
}
use bigdataexpress_c.Base.Shuffles.{Shuffled, ends, keeps, swaps, chain, unchanged}
use bigdataexpress_c.Checksum.Groups.{held, regular}

-- Both fail, or both give the same items.
abbrev pub Alike : Option (List String) → Option (List String) → Type 0
Alike none none = Unit
Alike (some xs) (some ys) = Shuffled xs ys
Alike _ _ = ⊥

pub Alike-refl : (o : Option (List String)) → Alike o o
Alike-refl none = tt
Alike-refl (some xs) = unchanged xs

pub Alike-trans : (o u v : Option (List String)) → Alike o u → Alike u v → Alike o v
Alike-trans none none none h k = tt
Alike-trans (some x) (some y) (some z) h k = chain h k
Alike-trans none none (some z) h k = k
Alike-trans none (some y) v h k = absurd h
Alike-trans (some x) none v h k = absurd h
Alike-trans (some x) (some y) none h k = k

pub Alike-some :
    (xs : List String) (o : Option (List String))
    → Alike (some xs) o
    → (ys : List String) × (o ≡ some ys) × Shuffled xs ys
Alike-some xs (some ys) h = (ys, refl, h)
Alike-some xs none h = absurd h

pub and_then-some :
    {A C : Type 0} (o : Option A) (f : A → Option C) (c : C)
    → and_then o f ≡ some c
    → (a : A) × (o ≡ some a) × (f a ≡ some c)
and_then-some none f c e = absurd (ground (arith, e))
and_then-some (some a) f c e = (a, refl, e)

pub some_same : {A : Type 0} (x y : A) → some x ≡ some y → x ≡ y
some_same x y e = ap (λ o. or_else o x) e

abbrev pub add_sum : Bool → Option String → Option (List String) → Option (List String)
add_sum b c o = if b then and_then c (λ x. and_then o (λ xs. some (x ∷ xs))) else o

pub Alike-add_sum :
    (b : Bool) (c : Option String) (o u : Option (List String))
    → Alike o u
    → Alike (add_sum b c o) (add_sum b c u)
Alike-add_sum false c o u h = h
Alike-add_sum true none o u h = tt
Alike-add_sum true (some x) none none h = tt
Alike-add_sum true (some x) (some xs) (some ys) h = keeps refl h
Alike-add_sum true (some x) none (some ys) h = h
Alike-add_sum true (some x) (some xs) none h = h

pub Alike-swap :
    (b d : Bool) (c e : Option String) (o : Option (List String))
    → Alike (add_sum b c (add_sum d e o)) (add_sum d e (add_sum b c o))
Alike-swap false d c e o = Alike-refl (add_sum d e o)
Alike-swap true false c e o = Alike-refl (add_sum true c o)
Alike-swap true true none none o = tt
Alike-swap true true none (some y) o = tt
Alike-swap true true (some x) none o = tt
Alike-swap true true (some x) (some y) none = tt
Alike-swap true true (some x) (some y) (some xs) = swaps refl refl

module _ (checksum_file : FilePath → Option String) where
  abbrev pub sums : Paths → Option (List String)
  sums = checksums_of checksum_file

  pub sums-Alike : {xs ys : Paths} → Shuffled xs ys → Alike (sums xs) (sums ys)
  unfolding checksums_of
  sums-Alike ends = ends
  sums-Alike (keeps {x = x} {y = y} {xs = xs} {ys = ys} e s) =
      subst (λ z. Alike (sums (x ∷ xs)) (sums (z ∷ ys))) e
        (Alike-add_sum (is_regular_file x) (checksum_file x) (sums xs) (sums ys) (sums-Alike s))
  sums-Alike (swaps {x = x} {y = y} {u = u} {xs = xs} e f) =
      subst (λ z. Alike (sums (x ∷ y ∷ xs)) (sums (u ∷ z ∷ xs))) e
        (subst (λ z. Alike (sums (x ∷ y ∷ xs)) (sums (z ∷ x ∷ xs))) f
          (Alike-swap (is_regular_file x) (is_regular_file y) (checksum_file x) (checksum_file y)
            (sums xs)))
  sums-Alike (chain {xs = xs} {ys = ys} {zs = zs} s t) =
      Alike-trans (sums xs) (sums ys) (sums zs) (sums-Alike s) (sums-Alike t)

  abbrev pub joined : Option (List String) → Option (List String) → Option (List String)
  joined o u = and_then o (λ xs. and_then u (λ ys. some (xs ++ ys)))

  pub add_sum-joined :
      (b : Bool) (c : Option String) (o u : Option (List String))
      → add_sum b c (joined o u) ≡ joined (add_sum b c o) u
  add_sum-joined false c o u = refl
  add_sum-joined true none o u = refl
  add_sum-joined true (some x) none u = refl
  add_sum-joined true (some x) (some xs) none = refl
  add_sum-joined true (some x) (some xs) (some ys) = refl

  pub joined-nil : (u : Option (List String)) → joined (some []) u ≡ u
  joined-nil none = refl
  joined-nil (some ys) = refl

  pub sums-append : (xs ys : Paths) → sums (xs ++ ys) ≡ joined (sums xs) (sums ys)
  unfolding checksums_of
  sums-append [] ys = sym (joined-nil (sums ys))
  sums-append (x ∷ xs) ys =
      ap (add_sum (is_regular_file x) (checksum_file x)) (sums-append xs ys)
      ∙ add_sum-joined (is_regular_file x) (checksum_file x) (sums xs) (sums ys)

  pub sums-held : (gs : List PathGroup) → checksums_of_groups checksum_file gs ≡ sums (held gs)
  unfolding checksums_of_groups checksums_of
  sums-held [] = refl
  sums-held (g ∷ gs) =
      ap (joined (sums (values g.path_list))) (sums-held gs)
      ∙ sym (sums-append (values g.path_list) (held gs))

  pub sums-regular : (ps : Paths) → sums (regular ps) ≡ sums ps
  unfolding checksums_of
  sums-regular [] = refl
  sums-regular (p ∷ ps) = ground (arith, sums-regular ps)

  pub add_sum-length :
      (b : Bool) (c : Option String) (o : Option (List String)) (n : ℕ)
      → ((xs : List String) → o ≡ some xs → length xs ≡ n)
      → (ys : List String) → add_sum b c o ≡ some ys
      → length ys ≡ (if b then suc n else n)
  add_sum-length false c o n h ys e = h ys e
  add_sum-length true none o n h ys e = absurd (ground (arith, e))
  add_sum-length true (some x) none n h ys e = absurd (ground (arith, e))
  add_sum-length true (some x) (some xs) n h ys e =
      subst (λ l. length l ≡ suc n) (some_same (x ∷ xs) ys e) (ap suc (h xs refl))

  pub sums-length :
      (ps : Paths) (xs : List String) → sums ps ≡ some xs → length xs ≡ count_regular_files ps
  unfolding checksums_of count_regular_files
  sums-length [] xs e = subst (λ l. length l ≡ 0) (some_same [] xs e) refl
  sums-length (p ∷ ps) xs e =
      add_sum-length (is_regular_file p) (checksum_file p) (sums ps) (count_regular_files ps)
        (sums-length ps) xs e

  pub sums-tasks :
      (xs ys : List PathGroup) (a b : List String)
      → checksums_of_groups checksum_file xs ≡ some a
      → checksums_of_groups checksum_file ys ≡ some b
      → sums (held xs ++ held ys) ≡ some (a ++ b)
  sums-tasks xs ys a b ea eb =
      sums-append (held xs) (held ys)
      ∙ ap (λ o. joined o (sums (held ys))) (sym (sums-held xs) ∙ ea)
      ∙ ap (joined (some a)) (sym (sums-held ys) ∙ eb)
