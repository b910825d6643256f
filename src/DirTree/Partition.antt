-- ===== src/DirTree/Partition.antt =====
-- `partition` of utils/paths/dirtree.cc: files dealt out over a number of groups, whose size grows
-- when all are full. An index into the groups is the rest of the vector from there on. The paths
-- of the tree and its size are arguments; the search for a group runs on fuel.
use native.Mathlib.Nat.{suc-mul}
use bigdataexpress_c.Base.{
  ℕ, zero, suc, ◌+◌, ◌*◌, ◌/◌, ◌%◌, ◌≤◌, ◌<◌, ◌≡◌, refl, Option, none, some, List, [], ◌∷◌, All,
  length, ltb, ◌==◌, if◌then◌else◌, if_cases, arith,
}
use bigdataexpress_c.FilePath.{FilePath}
use bigdataexpress_c.PathGroups.{Paths, add_size, size_mod}
use bigdataexpress_c.DirTree.{PathGroup, insert_path}
use bigdataexpress_c.DirTree.Deal.{new_groups, Full}

-- The rest of the groups from the second on.
abbrev pub second : List PathGroup → List PathGroup
second [] = []
second (g ∷ gs) = gs

-- How the search for a group ends: the limit that it leaves, and how many groups are behind the one
-- that was found.
pub data Search : Type 0 where
  found : (limit behind : ℕ) → Search
  left_out : (limit : ℕ) → Search
  out_of_fuel : Search

-- The inner loop. Where the last group is full the limit grows by the size of the path and the index
-- is set to 0; the loop then counts it up.
unfoldable pub search : ℕ → ℕ → ℕ → List PathGroup → List PathGroup → Search
unfolding add_size
search zero size limit groups rest = out_of_fuel
search (suc n) size limit groups [] = left_out limit
search (suc n) size limit groups (g ∷ []) =
    let again = search n size (add_size limit size) groups (second groups) in
    if ltb g.size limit then found limit 0 else again
search (suc n) size limit groups (g ∷ h ∷ rest) =
    let next = search n size limit groups (h ∷ rest) in
    if ltb g.size limit then found limit (length (h ∷ rest)) else next

-- The group that so many others are behind takes a path.
unfoldable pub put : ℕ → FilePath → List PathGroup → List PathGroup
unfolding insert_path
put behind p [] = []
put behind p (g ∷ gs) =
    let rest = put behind p gs in
    if length gs == behind then insert_path p p.size g ∷ gs else g ∷ rest

abbrev pub put_found : FilePath → List PathGroup → Search → Option (ℕ × List PathGroup)
put_found p gs (found limit behind) = some (limit, put behind p gs)
put_found p gs (left_out limit) = some (limit, gs)
put_found p gs out_of_fuel = none

-- The outer loop.
unfoldable pub partition_from : ℕ → ℕ → List PathGroup → Paths → Option (List PathGroup)
unfolding search put
partition_from fuel limit gs [] = some gs
partition_from fuel limit gs (p ∷ ps) = elim (put_found p gs (search fuel p.size limit gs gs)) [
  | none ↦ none
  | some (limit', gs') ↦ partition_from fuel limit' gs' ps
]

-- For at least one group; `tree_size` is that of the tree.
unfoldable pub partition : ℕ → ℕ → ℕ → Paths → Option (List PathGroup)
unfolding new_groups partition_from
partition fuel max_groups tree_size paths =
    partition_from fuel (add_size (tree_size / max_groups) (tree_size % max_groups))
      (new_groups max_groups) paths

-- A path of no bytes moves no limit.
still : (limit : ℕ) → limit < size_mod → add_size limit 0 ≡ limit
unfolding add_size
still limit h = omega (arith, h)

search_goes_on :
    (fuel limit : ℕ) (g h : PathGroup) (groups rest : List PathGroup)
    → limit < size_mod
    → All (Full limit) (g ∷ h ∷ groups)
    → All (Full limit) rest
    → 0 < length rest
    → search fuel 0 limit (g ∷ h ∷ groups) rest ≡ out_of_fuel
unfolding search
search_goes_on zero limit g h groups rest small full vs some_left = refl
search_goes_on (suc n) limit g h groups [] small full vs some_left =
    absurd (omega (arith, some_left))
search_goes_on (suc n) limit g h groups (k ∷ []) small full vs some_left = ground (
  arith,
  still limit small,
  vs.0,
  search_goes_on n limit g h groups (h ∷ groups) small full full.1 (omega arith),
)
search_goes_on (suc n) limit g h groups (k ∷ i ∷ rest) small full vs some_left =
    ground (arith, vs.0, search_goes_on n limit g h groups (i ∷ rest) small full vs.1 (omega arith))

-- Where there are two groups or more and all are full, a path of no bytes makes the loop of
-- `partition` run on for ever: no number of rounds is enough.
pub partition_from_forever :
    (fuel limit : ℕ) (g h : PathGroup) (groups : List PathGroup) (p : FilePath) (ps : Paths)
    → limit < size_mod
    → All (Full limit) (g ∷ h ∷ groups)
    → p.size ≡ 0
    → partition_from fuel limit (g ∷ h ∷ groups) (p ∷ ps) ≡ none
unfolding partition_from
partition_from_forever fuel limit g h groups p ps small full empty =
    let stuck =
      search_goes_on fuel limit g h groups (g ∷ h ∷ groups) small full full (omega arith) in
    ground (arith, stuck, empty)

length-second : (gs : List PathGroup) → 0 < length gs → suc (length (second gs)) ≡ length gs
length-second [] h = absurd (omega (arith, h))
length-second (g ∷ gs) h = refl

All-second : (P : PathGroup → Type 0) (gs : List PathGroup) → All P gs → All P (second gs)
All-second P [] h = tt
All-second P (g ∷ gs) h = h.1

-- The search has come to a group that takes a path, and no group is as small as the limit it left.
abbrev pub Finds : ℕ → Search → Type 0
Finds limit (found limit' behind) = limit ≤ limit'
Finds limit (left_out limit') = ⊥
Finds limit out_of_fuel = ⊥

Finds-le : (a b : ℕ) (v : Search) → a ≤ b → Finds b v → Finds a v
Finds-le a b (found limit behind) h k = omega (arith, h, k)
Finds-le a b (left_out limit) h k = k
Finds-le a b out_of_fuel h k = k

module _ (size most : ℕ) (some_bytes : 0 < size) (small : most + size < size_mod) where
  grown : (limit : ℕ) → limit ≤ most → add_size limit size ≡ limit + size
  unfolding add_size
  grown limit h = omega (arith, h, small)

  search-Finds :
      (sweeps fuel limit : ℕ) (groups rest : List PathGroup)
      → 2 ≤ length groups
      → All (λ g. g.size ≤ most) groups
      → All (λ g. g.size ≤ most) rest
      → 0 < length rest
      → most < limit + sweeps
      → length rest + sweeps * length groups ≤ fuel
      → Finds limit (search fuel size limit groups rest)
  unfolding search
  search-Finds r zero limit gs rest two all_small vs left far enough =
      absurd (omega (arith, left, enough))
  search-Finds r (suc n) limit gs [] two all_small vs left far enough = absurd (omega (arith, left))
  search-Finds zero (suc n) limit gs (g ∷ []) two all_small vs left far enough =
      if_cases (Finds limit) (ltb g.size limit) (λ _. omega arith)
        (λ e. absurd (ground (arith, e, far, vs.0)))
  search-Finds (suc r) (suc n) limit gs (g ∷ []) two all_small vs left far enough =
      if_cases (Finds limit) (ltb g.size limit) (λ _. omega arith)
        (λ e.
          let grows = grown limit (ground (arith, e, vs.0)) in
          let less = length-second gs (omega (arith, two)) in
          Finds-le limit (add_size limit size) (search n size (add_size limit size) gs (second gs))
            (omega (arith, grows))
            (search-Finds r n (add_size limit size) gs (second gs) two all_small
              (All-second (λ k. k.size ≤ most) gs all_small) (omega (arith, two, less))
              (omega (arith, far, grows, some_bytes))
              (omega (arith, enough, less, suc-mul r (length gs)))))
  search-Finds r (suc n) limit gs (g ∷ h ∷ rest) two all_small vs left far enough =
      if_cases (Finds limit) (ltb g.size limit) (λ _. omega arith)
        (λ _.
          search-Finds r n limit gs (h ∷ rest) two all_small vs.1 (omega arith) far
            (omega (arith, enough)))

-- With two groups or more, a path that has bytes finds a group: with no group above `most` bytes, so
-- many rounds are enough as there are groups, times one more than `most`, and once more the groups.
pub search_nonempty-Finds :
    (size most fuel limit : ℕ) (groups : List PathGroup)
    → 0 < size
    → most + size < size_mod
    → 2 ≤ length groups
    → All (λ g. g.size ≤ most) groups
    → length groups + suc most * length groups ≤ fuel
    → Finds limit (search fuel size limit groups groups)
search_nonempty-Finds size most fuel limit groups some_bytes small two all_small enough =
    search-Finds size most some_bytes small (suc most) fuel limit groups groups two all_small
      all_small (omega (arith, two)) (omega arith) enough
