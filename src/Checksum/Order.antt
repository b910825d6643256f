-- ===== src/Checksum/Order.antt =====
-- The order of strings, and lists of them that are sorted, for utils/checksum.cc.
use Prim.Native.Char.{code}
use text.Mathlib.TextEquality.{Char-path}
use bigdataexpress_c.Base.{String, ◌≡◌, refl, ◌∙◌, ap, true, false, List, [], ◌∷◌, arith}
use bigdataexpress_c.Base.Keyed.{str_lt}
use bigdataexpress_c.Base.Shuffles.{Shuffled, ends, keeps, swaps, chain}
use bigdataexpress_c.Checksum.{insert_sorted, sort}

lt_total : (s t : String) → str_lt s t ≡ false → str_lt t s ≡ false → s ≡ t
unfolding str_lt
lt_total String.[] String.[] h k = refl
lt_total String.[] (String.◌∷◌ d t) h k = ground (arith, h)
lt_total (String.◌∷◌ c s) String.[] h k = ground (arith, k)
lt_total (String.◌∷◌ c s) (String.◌∷◌ d t) h k =
    let same : code c ≡ code d = ground (arith, h, k) in
    let rest : s ≡ t = lt_total s t (ground (arith, h, same)) (ground (arith, k, same)) in
    ap (λ x. String.◌∷◌ x s) (Char-path c d same) ∙ ap (String.◌∷◌ d) rest

lt_asym : (s t : String) → str_lt s t ≡ true → str_lt t s ≡ false
unfolding str_lt
lt_asym s String.[] h = ground (arith, h)
lt_asym String.[] (String.◌∷◌ d t) h = refl
lt_asym (String.◌∷◌ c s) (String.◌∷◌ d t) h = ground (arith, h, lt_asym s t)

lt_trans : (s t u : String) → str_lt s t ≡ true → str_lt t u ≡ true → str_lt s u ≡ true
unfolding str_lt
lt_trans s t String.[] h k = ground (arith, k)
lt_trans s String.[] (String.◌∷◌ e u) h k = ground (arith, h)
lt_trans String.[] (String.◌∷◌ d t) (String.◌∷◌ e u) h k = refl
lt_trans (String.◌∷◌ c s) (String.◌∷◌ d t) (String.◌∷◌ e u) h k =
    ground (arith, h, k, lt_trans s t u)

le_lt_trans : (s t u : String) → str_lt t s ≡ false → str_lt t u ≡ true → str_lt s u ≡ true
le_lt_trans s t u h k = ground (arith, h, k, lt_total s t, lt_trans s t u)

insert_sorted-swap :
    (x y : String) (l : List String)
    → insert_sorted x (insert_sorted y l) ≡ insert_sorted y (insert_sorted x l)
unfolding insert_sorted
insert_sorted-swap x y [] = ground (arith, lt_asym x y, lt_asym y x, lt_total x y)
insert_sorted-swap x y (z ∷ l) = ground (
  arith,
  lt_asym x y,
  lt_asym y x,
  lt_total x y,
  le_lt_trans x z y,
  le_lt_trans y z x,
  insert_sorted-swap x y l,
)

pub sort-Shuffled : {xs ys : List String} → Shuffled xs ys → sort xs ≡ sort ys
unfolding sort
sort-Shuffled ends = refl
sort-Shuffled (keeps {y = y} {xs = xs} e s) =
    ap (λ x. insert_sorted x (sort xs)) e ∙ ap (insert_sorted y) (sort-Shuffled s)
sort-Shuffled (swaps {x = x} {y = y} {u = u} {xs = xs} e f) =
    insert_sorted-swap x y (sort xs)
    ∙ ap (λ z. insert_sorted z (insert_sorted x (sort xs))) f
    ∙ ap (λ z. insert_sorted u (insert_sorted z (sort xs))) e
sort-Shuffled (chain s t) = sort-Shuffled s ∙ sort-Shuffled t
