-- ===== src/PathGroups/Pack.antt =====
-- `group_by_size` of utils/paths/pathgroups.cc: what is in the groups, and how large they are.
use mathlib.Core.List.{flatten, append-nil, append_assoc, perm_append_comm}
use mathlib.Core.List.Perm
use bigdataexpress_c.Base.{
  ℕ, ◌≡◌, sym, ◌∙◌, subst, inl, inr, [], ◌∷◌, ◌++◌, Perm, arith, length, ltb, leb, if◌then◌else◌,
  Bool-cases, if_cases,
}
use bigdataexpress_c.FilePath.{FilePath}
use bigdataexpress_c.PathGroups.{
  Paths, PathGroups, Grouping, groupable, add_size, join_current, add_file, add_files, finish,
  no_groups, group_by_size,
}

-- The files that are grouped at all.
abbrev pub grouped : Paths → Paths
grouped [] = []
grouped (p ∷ ps) = if groupable p then p ∷ grouped ps else grouped ps

abbrev held : Grouping → Paths
held g = flatten g.result ++ g.current

pub flatten-snoc : (gs : PathGroups) (g : Paths) → flatten (gs ++ g ∷ []) ≡ flatten gs ++ g
unfolding flatten
flatten-snoc [] g = append-nil g
flatten-snoc (h ∷ gs) g = simp (flatten-snoc gs g, append_assoc)

join_current-held :
    (m k : ℕ) (g : Grouping) (p : FilePath) → held (join_current m k g p) ≡ held g ++ p ∷ []
unfolding join_current
join_current-held m k g p =
    if_cases (λ r. held r ≡ held g ++ p ∷ []) _
      (λ _.
        append-nil _
        ∙ flatten-snoc g.result (g.current ++ p ∷ [])
        ∙ sym (append_assoc (flatten g.result) g.current (p ∷ [])))
      (λ _. sym (append_assoc (flatten g.result) g.current (p ∷ [])))

-- Whatever the limits, one round adds the file if it is to be grouped, and loses none.
add_file-held :
    (m k : ℕ) (g : Grouping) (p : FilePath)
    → Perm (held (add_file m k g p)) (held g ++ grouped (p ∷ []))
unfolding add_file
add_file-held m k g p = elim (Bool-cases (groupable p)) [
  | inl e ↦ rw e (
      if_cases (λ r. Perm (held r) (held g ++ p ∷ [])) (ltb m p.size)
        (λ _. rw (flatten-snoc g.result (p ∷ [])) (
          Perm.trans
            (subst (λ xs. Perm xs (flatten g.result ++ (p ∷ [] ++ g.current)))
              (sym (append_assoc (flatten g.result) (p ∷ []) g.current)) (Perm.refl _))
            (subst (Perm (flatten g.result ++ (p ∷ [] ++ g.current)))
              (sym (append_assoc (flatten g.result) g.current (p ∷ [])))
              (Perm.append_left (flatten g.result) (perm_append_comm (p ∷ []) g.current)))))
        (λ _.
          if_cases (λ r. Perm (held r) (held g ++ p ∷ [])) (leb (add_size p.size g.current_size) m)
            (λ _. rw (join_current-held m k g p) (Perm.refl _))
            (λ _. rw (flatten-snoc g.result g.current) (Perm.refl _))))
  | inr e ↦ rw e (rw (append-nil (held g)) (Perm.refl _))
]

grouped-cons : (p : FilePath) (ps : Paths) → grouped (p ∷ ps) ≡ grouped (p ∷ []) ++ grouped ps
grouped-cons p ps = ground arith

add_files-held :
    (m k : ℕ) (g : Grouping) (ps : Paths) → Perm (held (add_files m k g ps)) (held g ++ grouped ps)
unfolding add_files
add_files-held m k g [] = rw (append-nil (held g)) (Perm.refl _)
add_files-held m k g (p ∷ ps) =
    rw (grouped-cons p ps, ← append_assoc)
      (Perm.trans (add_files-held m k (add_file m k g p) ps)
        (Perm.append_right (grouped ps) (add_file-held m k g p)))

flatten-finish :
    (r : PathGroups) (c : Paths)
    → flatten (if ltb 0 (length c) then r ++ c ∷ [] else r) ≡ flatten r ++ c
flatten-finish r [] = sym (append-nil (flatten r))
flatten-finish r (p ∷ c) = ground (arith, flatten-snoc r (p ∷ c))

-- Whatever the limits, the groups hold every regular file and every directory once, and no other.
pub group_by_size-perm :
    (interim : Paths) (max_size max_files : ℕ)
    → Perm (flatten (group_by_size interim max_size max_files)) (grouped interim)
unfolding group_by_size finish flatten
group_by_size-perm interim m k =
    rw
      (flatten-finish (add_files m k no_groups interim).result
        (add_files m k no_groups interim).current)
      (add_files-held m k no_groups interim)
