-- ===== src/PathGroups/Spread.antt =====
-- `group_into` of utils/paths/pathgroups.cc: the groups in excess are dealt out over the others.
use mathlib.Core.List.{
  reverse, flatten, append_assoc, reverse-cons, perm_append_comm, reverse_perm, perm_middle,
}
use mathlib.Core.List.Perm
use mathlib.Core.Nat as Core
use mathlib.Core.List as Lists
use bigdataexpress_c.Base.{
  ℕ, zero, suc, ◌+◌, ◌-◌, ◌/◌, ◌≤◌, ◌<◌, ◌≡◌, refl, sym, ap, ◌∙◌, subst, inl, inr, some, List, [],
  ◌∷◌, ◌++◌, Perm, arith, length, length-append, ltb, Bool-cases,
}
use bigdataexpress_c.FilePath.{FilePath}
use bigdataexpress_c.PathGroups.{
  Paths, PathGroups, find_total_size, group_by_size, deal_round, deal, split_last, spread,
  group_into, ok,
}
use bigdataexpress_c.PathGroups.Pack.{grouped, group_by_size-perm, flatten-snoc}

append_swap {ℓ} : {A : Type ℓ} (xs ys zs : List A) → Perm (xs ++ (ys ++ zs)) (ys ++ (xs ++ zs))
append_swap xs ys zs =
    subst (λ l. Perm l (ys ++ (xs ++ zs))) (append_assoc xs ys zs)
      (subst (Perm ((xs ++ ys) ++ zs)) (append_assoc ys xs zs)
        (Perm.append_right zs (perm_append_comm xs ys)))

length-reverse {ℓ} : {V : Type ℓ} (last : List V) → length (reverse last) ≡ length last
length-reverse [] = refl
length-reverse (v ∷ last) =
    let turned = ap length (reverse-cons v last) in
    omega (arith, turned, length-reverse last, length-append (reverse last) (v ∷ []))

-- All paths of the groups, in some order, once each: as they were, or as what remains of them.
abbrev pub Survive : (FilePath → FilePath) → Paths → Paths → Type 0
Survive remains xs ys = (length xs ≡ length ys) × (((f : FilePath) → remains f ≡ f) → Perm xs ys)

module _ (remains : FilePath → FilePath) where
  Survive-trans :
      (xs ys zs : Paths) → Survive remains xs ys → Survive remains ys zs → Survive remains xs zs
  Survive-trans xs ys zs p q = (p.0 ∙ q.0, λ same. Perm.trans (p.1 same) (q.1 same))

  -- A round deals at least one item, and changes no number of groups.
  deal_round-length :
      (last : Paths) (gs : PathGroups)
      → (length (deal_round remains last gs).1 ≡ length gs)
        × (length (deal_round remains last gs).0 ≤ length last)
  unfolding deal_round
  deal_round-length last [] = (refl, omega arith)
  deal_round-length [] (g ∷ gs) = (refl, omega arith)
  deal_round-length (f ∷ last) (g ∷ gs) =
      let ih = deal_round-length last gs in (ap suc ih.0, omega (arith, ih.1))

  deal_round-perm :
      (last : Paths) (gs : PathGroups)
      → ((f : FilePath) → remains f ≡ f)
      → Perm
          ((deal_round remains last gs).0 ++ flatten (deal_round remains last gs).1)
          (last ++ flatten gs)
  unfolding deal_round flatten
  deal_round-perm last [] same = Perm.refl _
  deal_round-perm [] (g ∷ gs) same = Perm.refl _
  deal_round-perm (f ∷ last) (g ∷ gs) same =
      let (rest, gs') = deal_round remains last gs in
      rw (append_assoc g (remains f ∷ []), same f)
        (Perm.trans (append_swap rest g (f ∷ flatten gs')) (
          Perm.trans (Perm.append_left g (perm_middle rest (flatten gs'))) (
            Perm.trans (perm_middle g (rest ++ flatten gs')) (
              Perm.cons f (
                Perm.trans (Perm.append_left g (deal_round-perm last gs same))
                  (append_swap g last (flatten gs)))))))

  deal_round-number :
      (last : Paths) (gs : PathGroups)
      → length ((deal_round remains last gs).0 ++ flatten (deal_round remains last gs).1)
        ≡ length (last ++ flatten gs)
  unfolding deal_round flatten
  deal_round-number last [] = refl
  deal_round-number [] (g ∷ gs) = refl
  deal_round-number (f ∷ last) (g ∷ gs) =
      let (rest, gs') = deal_round remains last gs in
      omega (
        arith,
        deal_round-number last gs,
        length-append rest ((g ++ remains f ∷ []) ++ flatten gs'),
        length-append (g ++ remains f ∷ []) (flatten gs'),
        length-append g (remains f ∷ []),
        length-append rest (flatten gs'),
        length-append last (g ++ flatten gs),
        length-append g (flatten gs),
        length-append last (flatten gs),
      )

  -- The loop ends within as many rounds as there are items, and loses none.
  deal_total :
      (fuel : ℕ) (last : Paths) (gs : PathGroups)
      → length last ≤ fuel
      → 0 < length gs
      → (gs' : PathGroups) × (deal remains fuel last gs ≡ some gs')
        × (length gs' ≡ length gs)
        × Survive remains (flatten gs') (last ++ flatten gs)
  unfolding deal
  deal_total fuel [] gs h l = (gs, refl, refl, (refl, λ same. Perm.refl _))
  deal_total zero (f ∷ last) gs h l = absurd (omega arith)
  deal_total (suc fuel) (f ∷ last) [] h l = absurd (omega arith)
  deal_total (suc fuel) (f ∷ last) (g ∷ gs) h l =
      let (rest, gs') = deal_round remains (f ∷ last) (g ∷ gs) in
      let fewer = deal_round-length last gs in
      let same = deal_round-length (f ∷ last) (g ∷ gs) in
      let (out, e, n, p) =
        deal_total fuel rest gs' (unfold deal_round in omega (arith, fewer.1))
          (omega (arith, same.0)) in
      (
        out,
        e,
        n ∙ same.0,
        Survive-trans (flatten out) (rest ++ flatten gs') (f ∷ last ++ flatten (g ∷ gs)) p
            (deal_round-number (f ∷ last) (g ∷ gs), deal_round-perm (f ∷ last) (g ∷ gs)),
      )

split_last_total :
    (g : Paths) (gs : PathGroups)
    → (front : PathGroups) × (last : Paths) × (split_last (g ∷ gs) ≡ some (front, last))
      × (g ∷ gs ≡ front ++ last ∷ [])
unfolding split_last
split_last_total g [] = ([], g, refl, refl)
split_last_total g (h ∷ gs) =
    let (front, last, e, s) = split_last_total h gs in (g ∷ front, last, rw e, ap (λ l. g ∷ l) s)

dealt_back :
    (front : PathGroups) (last : Paths) (gs : PathGroups)
    → gs ≡ front ++ last ∷ []
    → Perm (reverse last ++ flatten front) (flatten gs)
dealt_back front last gs s =
    rw (s, flatten-snoc front last)
      (Perm.trans (Perm.append_right (flatten front) (reverse_perm last))
        (perm_append_comm last (flatten front)))

abbrev to_native : Core.ℕ → ℕ
to_native Core.zero = 0
to_native (Core.suc n) = suc (to_native n)

to_native-length : {A : Type 0} (xs : List A) → to_native (Lists.length xs) ≡ length xs
to_native-length [] = refl
to_native-length (x ∷ xs) = ap suc (to_native-length xs)

length-Perm : {A : Type 0} {xs ys : List A} → Perm xs ys → length xs ≡ length ys
length-Perm {A} {xs} {ys} p =
    sym (to_native-length xs) ∙ ap to_native (Perm.length-eq p) ∙ to_native-length ys

module _ (remains : FilePath → FilePath) where
  spread_step :
      (n : ℕ) (gs : PathGroups) {front dealt : PathGroups} {last : Paths}
      → split_last gs ≡ some (front, last)
      → deal remains (length last) (reverse last) front ≡ some dealt
      → spread remains (suc n) gs ≡ spread remains n dealt
  unfolding spread
  spread_step n gs e e' = rw (e, spread) (rw (e', spread))

  spread_total :
      (n : ℕ) (gs : PathGroups)
      → n < length gs
      → (gs' : PathGroups) × (spread remains n gs ≡ some gs')
        × (length gs' + n ≡ length gs)
        × Survive remains (flatten gs') (flatten gs)
  unfolding spread
  spread_total zero gs h = (gs, refl, omega arith, (refl, λ same. Perm.refl _))
  spread_total (suc n) [] h = absurd (omega arith)
  spread_total (suc n) (g ∷ gs) h =
      let (front, last, e, s) = split_last_total g gs in
      let size : length (g ∷ gs) ≡ length front + 1 =
        ap length s ∙ length-append front (last ∷ []) in
      let (dealt, e', n', p) =
        deal_total remains (length last) (reverse last) front (omega (arith, length-reverse last))
          (omega (arith, size)) in
      let (out, e'', n'', q) = spread_total n dealt (omega (arith, size, n')) in
      let back = dealt_back front last (g ∷ gs) s in
      (
        out,
        spread_step n (g ∷ gs) e e' ∙ e'',
        omega (arith, size, n', n''),
        Survive-trans remains (flatten out) (flatten dealt) (flatten (g ∷ gs)) q (
            Survive-trans remains (flatten dealt) (reverse last ++ flatten front) (flatten (g ∷ gs))
              p (length-Perm back, λ same. back)),
      )

-- For every number of groups but 0 the loops end, whatever is copied of an item that has been
-- destroyed: there are at most as many groups as asked for, and they hold together as many paths as
-- there are regular files and directories; where the copy of a destroyed item is still the item, they
-- hold every regular file and every directory once, and no other.
pub group_into_total :
    (remains : FilePath → FilePath) (interim : Paths) (n : ℕ)
    → 0 < n
    → (gs : PathGroups) × (group_into remains interim n ≡ ok (some gs))
      × (length gs ≤ n)
      × Survive remains (flatten gs) (grouped interim)
unfolding group_into
group_into_total remains interim zero h = absurd (omega arith)
group_into_total remains interim (suc n) h =
    let size = find_total_size interim / suc n in
    let groups = group_by_size interim size 0 in
    let same = group_by_size-perm interim size 0 in
    let all : Survive remains (flatten groups) (grouped interim) = (length-Perm same, λ _. same) in
    elim (Bool-cases (ltb (suc n) (length groups))) [
      | inl more ↦
          let (out, e, l, p) = spread_total remains (length groups - suc n) groups (ground arith) in
          (
            out,
            rw (more, e),
            ground (arith, l),
            Survive-trans remains (flatten out) (flatten groups) (grouped interim) p all,
          )
      | inr few ↦ (groups, rw few, ground arith, all)
    ]
