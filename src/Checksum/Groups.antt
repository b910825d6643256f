-- ===== src/Checksum/Groups.antt =====
-- utils/checksum.cc: the files that the groups of a directory hold.
use mathlib.Core.List.{append-nil, append_assoc}
use bigdataexpress_c.Base.{
  ℕ, zero, suc, ◌/◌, ◌≡◌, refl, sym, subst, Bool, true, false, Option, none, some, List, [], ◌∷◌,
  ◌++◌, length, ltb, ◌==◌, if◌then◌else◌, if_cases, arith,
}
use bigdataexpress_c.Base.Keyed.{Keyed, insert, emplace, lookup, is_some, str_lt, map_option}
use bigdataexpress_c.FilePath.{FilePath, is_regular_file}
use bigdataexpress_c.PathGroups.{Paths}
use bigdataexpress_c.DirTree.{PathGroup, insert_path}
use bigdataexpress_c.DirTree.Deal.{
  new_groups, place, place_all, partition_by, partition_evenly, readjust,
}
use bigdataexpress_c.Base.Shuffles.{
  Shuffled, ends, keeps, swaps, chain, unchanged, to_front, before, behind, exchange_parts,
}
use bigdataexpress_c.Checksum.{values, deal_tasks}

abbrev pub held : List PathGroup → Paths
held [] = []
held (g ∷ gs) = values g.path_list ++ held gs

abbrev pub regular : Paths → Paths
regular [] = []
regular (p ∷ ps) = if is_regular_file p then p ∷ regular ps else regular ps

pub drop_nil : (xs : Paths) → Shuffled (xs ++ []) xs
drop_nil xs = subst (λ l. Shuffled l xs) (sym (append-nil xs)) (unchanged xs)

pub values-insert :
    (k : _) (p : FilePath) (m : Keyed FilePath) → Shuffled (values (insert k p m)) (p ∷ values m)
unfolding values insert
values-insert k p [] = unchanged _
values-insert k p ((j, q) ∷ m) =
    if_cases (λ r. Shuffled (values r) (p ∷ q ∷ values m)) (str_lt k j) (λ e. unchanged _)
      (λ e. chain (keeps refl (values-insert k p m)) (swaps refl refl))

-- The second holds the items of the first, but for some.
abbrev pub Within : Paths → Paths → Type 0
Within xs ys = (dropped : Paths) × Shuffled (xs ++ dropped) ys

pub values-emplace :
    (k : _) (p : FilePath) (m : Keyed FilePath) → Within (values (emplace k p m)) (p ∷ values m)
unfolding emplace
values-emplace k p m =
    if_cases (λ r. Within (values r) (p ∷ values m)) (is_some (lookup k m))
      (λ e. (p ∷ [], chain (to_front (values m) p []) (keeps refl (drop_nil _))))
      (λ e. ([], chain (drop_nil _) (values-insert k p m)))

pub Within-behind : (xs ys zs : Paths) → Within xs ys → Within (xs ++ zs) (ys ++ zs)
Within-behind xs ys zs (d, s) = (
  d,
  subst (λ l. Shuffled l (ys ++ zs)) (sym (append_assoc xs zs d))
      (chain (before xs (exchange_parts zs d))
        (subst (λ l. Shuffled l (ys ++ zs)) (append_assoc xs d zs) (behind zs s))),
)

pub Within-place :
    (limit : ℕ) (p : FilePath) (gs : List PathGroup)
    → Within (held (place limit p gs)) (p ∷ held gs)
unfolding place insert_path
Within-place limit p [] = (p ∷ [], unchanged _)
Within-place limit p (g ∷ gs) =
    if_cases (λ r. Within (held r) (p ∷ values g.path_list ++ held gs)) (ltb g.size limit)
      (λ e. Within-behind _ _ (held gs) (values-emplace p.name p g.path_list))
      (λ e.
        let (d, s) = Within-place limit p gs in
        (
          d,
          subst (λ l. Shuffled l (p ∷ values g.path_list ++ held gs))
              (sym (append_assoc (values g.path_list) (held (place limit p gs)) d))
              (chain (before (values g.path_list) s) (to_front (values g.path_list) p (held gs))),
        ))

pub Within-trans : (xs ys zs : Paths) → Within xs ys → Within ys zs → Within xs zs
Within-trans xs ys zs (d, s) (e, t) =
    (d ++ e, subst (λ l. Shuffled l zs) (append_assoc xs d e) (chain (behind e s) t))

pub Within-before : (zs xs ys : Paths) → Within xs ys → Within (zs ++ xs) (zs ++ ys)
Within-before zs xs ys (d, s) =
    (d, subst (λ l. Shuffled l (zs ++ ys)) (sym (append_assoc zs xs d)) (before zs s))

pub Within-turned : (xs ys zs : Paths) → Within xs ys → Shuffled ys zs → Within xs zs
Within-turned xs ys zs (d, s) t = (d, chain s t)

module _ (limit : ℕ) (p : FilePath) (ps : Paths) (gs : List PathGroup) where
  pub Within-step :
      (b : Bool)
      → ((hs : List PathGroup) → Within (held (place_all limit ps hs)) (regular ps ++ held hs))
      → Within
          (held (place_all limit ps (if b then place limit p gs else gs)))
          ((if b then p ∷ regular ps else regular ps) ++ held gs)
  Within-step false h = h gs
  Within-step true h = Within-trans _ _ _ (h (place limit p gs)) (
      Within-turned _ _ _
        (Within-before (regular ps) (held (place limit p gs)) (p ∷ held gs)
          (Within-place limit p gs))
        (to_front (regular ps) p (held gs)))

pub Within-place_all :
    (limit : ℕ) (ps : Paths) (gs : List PathGroup)
    → Within (held (place_all limit ps gs)) (regular ps ++ held gs)
unfolding place_all
Within-place_all limit [] gs = ([], drop_nil (held gs))
Within-place_all limit (p ∷ ps) gs =
    Within-step limit p ps gs (is_regular_file p) (Within-place_all limit ps)

pub held-new_groups : (n : ℕ) → held (new_groups n) ≡ []
unfolding new_groups values
held-new_groups zero = refl
held-new_groups (suc n) = held-new_groups n

pub Within-partition_by :
    (n limit : ℕ) (ps : Paths) → Within (held (partition_by n limit ps)) (regular ps)
unfolding partition_by
Within-partition_by n limit ps =
    subst (Within (held (place_all limit ps (new_groups n)))) (append-nil (regular ps)) (
      subst (λ l. Within (held (place_all limit ps (new_groups n))) (regular ps ++ l))
        (held-new_groups n) (Within-place_all limit ps (new_groups n)))

pub unless_fails :
    {A C : Type 0} (b : Bool) (o : Option A) (f : A → C) (P : C → Type 0)
    → ((a : A) → P (f a))
    → (c : C) → (if b then none else map_option f o) ≡ some c
    → P c
unless_fails true o f P h c e = absurd (ground (arith, e))
unless_fails false none f P h c e = absurd (ground (arith, e))
unless_fails false (some a) f P h c e = subst P (ground (arith, e)) (h a)

-- What is dealt to the groups are regular files, each at most as often as it is there.
pub Within-partition_evenly :
    (max size : ℕ) (ps : Paths) (gs : List PathGroup)
    → partition_evenly max size ps ≡ some gs
    → Within (held gs) (regular ps)
unfolding partition_evenly
Within-partition_evenly max size ps gs e =
    unless_fails (max == 0) (readjust (size / max) 0 (length ps / max) ps)
      (λ group_size. partition_by max group_size ps) (λ hs. Within (held hs) (regular ps))
      (λ group_size. Within-partition_by max group_size ps) gs e

pub values-empty : (m : Keyed FilePath) → (length m == 0) ≡ true → values m ≡ []
unfolding values
values-empty [] e = refl
values-empty (x ∷ m) e = absurd (ground (arith, e))

pub part_to_front : (xs ys zs : Paths) → Shuffled (xs ++ (ys ++ zs)) (ys ++ (xs ++ zs))
part_to_front xs ys zs =
    subst (λ l. Shuffled l (ys ++ (xs ++ zs))) (append_assoc xs ys zs)
      (subst (Shuffled ((xs ++ ys) ++ zs)) (append_assoc ys xs zs)
        (behind zs (exchange_parts xs ys)))

abbrev pub both : List PathGroup × List PathGroup → Paths
both tasks = held (tasks.1) ++ held (tasks.0)

-- Every group that has files is run, in a thread or not.
pub Shuffled-deal_tasks :
    (below : ℕ → Bool) (n : ℕ) (gs : List PathGroup)
    → Shuffled (both (deal_tasks below n gs)) (held gs)
unfolding deal_tasks
Shuffled-deal_tasks below n [] = ends
Shuffled-deal_tasks below n (g ∷ gs) =
    let (futures, remainders) = deal_tasks below (suc n) gs in
    let xs = values g.path_list in
    let rest = Shuffled-deal_tasks below (suc n) gs in
    if_cases (λ r. Shuffled (both r) (xs ++ held gs)) (length g.path_list == 0)
      (λ e.
        subst (λ l. Shuffled (held remainders ++ held futures) (l ++ held gs))
          (sym (values-empty g.path_list e)) rest)
      (λ e.
        if_cases (λ r. Shuffled (both r) (xs ++ held gs)) (below n)
          (λ c. chain (part_to_front (held remainders) xs (held futures)) (before xs rest))
          (λ c.
            subst (λ l. Shuffled l (xs ++ held gs))
              (sym (append_assoc xs (held remainders) (held futures))) (before xs rest)))
