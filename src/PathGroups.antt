-- ===== src/PathGroups.antt =====
-- utils/paths/pathgroups.cc and pathgroups.h: files are
-- collected and then grouped for transfer. `size_t` is a number below 2 ^ 64 with its wrap-around.
pub mod Pack
pub mod Sizes
pub mod Counts
pub mod Spread
pub mod Tests
use mathlib.Core.List.{reverse}
use bigdataexpress_c.Base.{
  ℕ, zero, suc, ◌+◌, ◌-◌, ◌/◌, ◌%◌, ◌^◌, String, Bool, true, false, not, ◌&&◌, ◌||◌, Option, none,
  some, List, [], ◌∷◌, ◌++◌, length, ltb, leb, if◌then◌else◌,
}
use bigdataexpress_c.FilePath.{FilePath, exists, is_regular_file, is_directory}

abbrev pub Paths : Type 0
Paths = List FilePath

abbrev pub PathGroups : Type 0
PathGroups = List Paths

abbrev pub size_mod : ℕ
size_mod = 2 ^ 64

unfoldable pub add_size : ℕ → ℕ → ℕ
add_size a b = (a + b) % size_mod

pub data Error : Type 0 where
  not_found : String → Error
  invalid_argument : Error

pub data Result {ℓ} (V : Type ℓ) : Type ℓ where
  err : Error → Result V
  ok : V → Result V

-- `add_sub_path`: `walk` lists what `DirectoryWalker` visits below a directory. On an error the
-- interim paths are cleared and the exception goes on, so the interim list comes back beside it.
unfoldable pub add_sub_path : (FilePath → Paths) → Paths → FilePath → Paths × Result (Unit {0})
unfolding exists is_regular_file is_directory
add_sub_path walk interim p =
    if exists p
    then if is_regular_file p
      then (interim ++ p ∷ [], ok tt)
      else if is_directory p
      then (interim ++ p ∷ walk p, ok tt)
      else (interim, ok tt)
    else ([], err (not_found p.name))

-- `init`: the input paths in turn, until one throws.
unfoldable pub collect_paths : (FilePath → Paths) → Paths → Paths → Paths × Result (Unit {0})
unfolding add_sub_path
collect_paths walk interim [] = (interim, ok tt)
collect_paths walk interim (p ∷ ps) =
    let (interim', r) = add_sub_path walk interim p in
    let rest = collect_paths walk interim' ps in elim r [ ok _ ↦ rest | err e ↦ (interim', err e) ]

unfoldable pub find_total_size_from : ℕ → Paths → ℕ
unfolding exists is_regular_file add_size
find_total_size_from total [] = total
find_total_size_from total (p ∷ ps) =
    find_total_size_from (if exists p && is_regular_file p then add_size total p.size else total) ps

unfoldable pub find_total_size : Paths → ℕ
unfolding find_total_size_from
find_total_size ps = find_total_size_from 0 ps

-- The variables of the loop of `group_by_size`.
pub record Grouping : Type 0 where
  pub result : PathGroups
  pub current : Paths
  pub current_size : ℕ

unfoldable pub groupable : FilePath → Bool
unfolding is_regular_file is_directory
groupable p = is_regular_file p || is_directory p

-- The file joins the current group, which is closed once it is full.
unfoldable pub join_current : ℕ → ℕ → Grouping → FilePath → Grouping
unfolding add_size
join_current max_size max_files g p =
    let current = g.current ++ p ∷ [] in
    let current_size = add_size g.current_size p.size in
    if leb max_size current_size || (ltb 0 max_files && leb max_files (length current))
    then record { result = g.result ++ current ∷ []; current = []; current_size = 0 }
    else record { result = g.result; current = current; current_size = current_size }

-- One round of the loop of `group_by_size`.
unfoldable pub add_file : ℕ → ℕ → Grouping → FilePath → Grouping
unfolding groupable join_current
add_file max_size max_files g p =
    if not (groupable p)
    then g
    else if ltb max_size p.size
    then record g { result = g.result ++ (p ∷ []) ∷ [] }
    else if leb (add_size p.size g.current_size) max_size
    then join_current max_size max_files g p
    else record { result = g.result ++ g.current ∷ []; current = p ∷ []; current_size = p.size }

unfoldable pub add_files : ℕ → ℕ → Grouping → Paths → Grouping
unfolding add_file
add_files max_size max_files g [] = g
add_files max_size max_files g (p ∷ ps) =
    add_files max_size max_files (add_file max_size max_files g p) ps

-- The remainder makes the last group.
unfoldable pub finish : Grouping → PathGroups
finish g = if ltb 0 (length g.current) then g.result ++ g.current ∷ [] else g.result

abbrev pub no_groups : Grouping
no_groups = record { result = []; current = []; current_size = 0 }

unfoldable pub group_by_size : Paths → ℕ → ℕ → PathGroups
unfolding add_files finish
group_by_size interim max_size max_files = finish (add_files max_size max_files no_groups interim)

-- `last.back()` and `last.pop_back()`: a vector as the list of its items from the back.
-- One round of the `for` loop deals an item to each group until none is left. The reference is taken
-- before the item is destroyed and copied after: what is copied is `remains` of the item, a parameter.
unfoldable pub deal_round : (FilePath → FilePath) → Paths → PathGroups → Paths × PathGroups
deal_round remains last [] = (last, [])
deal_round remains [] (g ∷ gs) = ([], g ∷ gs)
deal_round remains (f ∷ last) (g ∷ gs) =
    let (rest, gs') = deal_round remains last gs in (rest, (g ++ remains f ∷ []) ∷ gs')

-- `while (not last.empty())`, on fuel. `none` means that the fuel ran out.
unfoldable pub deal : (FilePath → FilePath) → ℕ → Paths → PathGroups → Option PathGroups
unfolding deal_round
deal remains fuel [] gs = some gs
deal remains zero (f ∷ last) gs = none
deal remains (suc fuel) (f ∷ last) gs =
    let (rest, gs') = deal_round remains (f ∷ last) gs in deal remains fuel rest gs'

-- `groups.back()` with the groups before it.
unfoldable pub split_last : PathGroups → Option (PathGroups × Paths)
split_last [] = none
split_last (g ∷ []) = some ([], g)
split_last (g ∷ h ∷ gs) = elim (split_last (h ∷ gs)) [
  | none ↦ none
  | some (front, last) ↦ some (g ∷ front, last)
]

-- The `for` loop over the groups in excess. Each of them is dealt out over the others; the rounds
-- that this takes are at most its items.
unfoldable pub spread : (FilePath → FilePath) → ℕ → PathGroups → Option PathGroups
unfolding deal split_last
spread remains zero gs = some gs
spread remains (suc n) gs = elim (split_last gs) [
  | none ↦ none
  | some (front, last) ↦ elim (deal remains (length last) (reverse last) front) [
    | none ↦ none
    | some gs' ↦ spread remains n gs'
  ]
]

-- `none` is a loop that does not end.
unfoldable pub group_into : (FilePath → FilePath) → Paths → ℕ → Result (Option PathGroups)
unfolding find_total_size group_by_size spread
group_into remains interim zero = err invalid_argument
group_into remains interim (suc n) =
    let groups = group_by_size interim (find_total_size interim / suc n) 0 in
    ok (
      if ltb (suc n) (length groups)
      then spread remains (length groups - suc n) groups
      else some groups)
