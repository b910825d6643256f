-- ===== src/Checksum/Counts.antt =====
-- utils/checksum.cc: the numbers of regular files in a directory and in its groups.
use mathlib.Core.List.{append-nil}
use bigdataexpress_c.Base.{
  ℕ, suc, ◌+◌, ◌≡◌, refl, ap, subst, ◌∙◌, Bool, true, false, [], ◌∷◌, ◌++◌, length, length-append,
  if◌then◌else◌, arith, ◌≤◌,
}
use bigdataexpress_c.FilePath.{is_regular_file}
use bigdataexpress_c.PathGroups.{Paths}
use bigdataexpress_c.Base.Shuffles.{Shuffled, ends, keeps, swaps, chain, length-Shuffled}
use bigdataexpress_c.Checksum.{count_regular_files}
use bigdataexpress_c.Checksum.Groups.{regular, Within}

pub count_regular-length : (ps : Paths) → count_regular_files ps ≡ length (regular ps)
unfolding count_regular_files
count_regular-length [] = refl
count_regular-length (p ∷ ps) = ground (arith, count_regular-length ps)

count_regular-append :
    (xs ys : Paths)
    → count_regular_files (xs ++ ys) ≡ count_regular_files xs + count_regular_files ys
unfolding count_regular_files
count_regular-append [] ys = omega arith
count_regular-append (x ∷ xs) ys = ground (arith, count_regular-append xs ys)

count_regular-bound : (xs : Paths) → count_regular_files xs ≤ length xs
unfolding count_regular_files
count_regular-bound [] = omega arith
count_regular-bound (x ∷ xs) = ground (arith, count_regular-bound xs)

add_count : Bool → ℕ → ℕ
add_count b n = if b then suc n else n

add_count-swap : (b c : Bool) (n : ℕ) → add_count b (add_count c n) ≡ add_count c (add_count b n)
unfolding add_count
add_count-swap true true n = refl
add_count-swap true false n = refl
add_count-swap false true n = refl
add_count-swap false false n = refl

pub count_regular-Shuffled :
    {xs ys : Paths} → Shuffled xs ys → count_regular_files xs ≡ count_regular_files ys
unfolding count_regular_files add_count
count_regular-Shuffled ends = refl
count_regular-Shuffled (keeps {x = x} {xs = xs} {ys = ys} e s) =
    ap (add_count (is_regular_file x)) (count_regular-Shuffled s)
    ∙ ap (λ z. count_regular_files (z ∷ ys)) e
count_regular-Shuffled (swaps {x = x} {y = y} {u = u} {xs = xs} e f) =
    add_count-swap (is_regular_file x) (is_regular_file y) (count_regular_files xs)
    ∙ ap (λ z. count_regular_files (z ∷ x ∷ xs)) f
    ∙ ap (λ z. count_regular_files (u ∷ z ∷ xs)) e
count_regular-Shuffled (chain s t) = count_regular-Shuffled s ∙ count_regular-Shuffled t

count_regular-regular : (ps : Paths) → count_regular_files (regular ps) ≡ length (regular ps)
unfolding count_regular_files
count_regular-regular [] = refl
count_regular-regular (p ∷ ps) = ground (arith, count_regular-regular ps)

-- Nothing but regular files is within regular files.
pub count_regular-Within :
    (xs ps : Paths) → Within xs (regular ps) → count_regular_files xs ≡ length xs
count_regular-Within xs ps (d, s) = omega (
  arith,
  count_regular-Shuffled s,
  count_regular-regular ps,
  length-Shuffled s,
  count_regular-append xs d,
  length-append xs d,
  count_regular-bound xs,
  count_regular-bound d,
)

-- Where none is missing, none was dropped.
pub Within-whole : (xs ys : Paths) → Within xs ys → length xs ≡ length ys → Shuffled xs ys
Within-whole xs ys ([], s) e = subst (λ l. Shuffled l ys) (append-nil xs) s
Within-whole xs ys (d ∷ dropped, s) e =
    absurd (omega (arith, e, length-Shuffled s, length-append xs (d ∷ dropped)))
