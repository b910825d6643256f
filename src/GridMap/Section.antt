-- ===== src/GridMap/Section.antt =====
-- The section between the markers: what reading makes of its lines and of the lines around it.
use mathlib.Core.List.Perm
use mathlib.Core.List.{perm_middle}
use bigdataexpress_c.Base.{
  String, str_eq, ◌≡◌, refl, sym, subst, ap, ◌∙◌, Bool, true, false, ◌||◌, List, [], ◌∷◌, ◌++◌, map,
  All, Perm, if_cases, if◌then◌else◌, arith,
}
use bigdataexpress_c.Base.Keyed.{str_lt}
use bigdataexpress_c.GridMap.Text.{trim, is_prefix, is_quote, is_blank, split_string}
use bigdataexpress_c.GridMap.Lines.{Readable, read_line-quoted_line}
use bigdataexpress_c.GridMap.{
  Entries, Result, undefined, throws, gives, Reading, emplace, add_entry, switch_section,
  read_quoted, read_unquoted, read_trimmed, read_line, read_lines, quoted_line, and_then,
  begin_marker, end_marker,
}

unfoldable pub emplace_all : Entries → Entries → Entries
emplace_all [] m = m
emplace_all (e ∷ es) m = emplace_all es (emplace e m)

emplace-perm : (e : String × String) (m : Entries) → Perm (emplace e m) (e ∷ m)
unfolding emplace
emplace-perm (k, v) [] = Perm.refl ((k, v) ∷ [])
emplace-perm (k, v) ((j, w) ∷ m) =
    if_cases (λ r. Perm r ((k, v) ∷ (j, w) ∷ m)) (str_lt k j) (λ _. Perm.refl ((k, v) ∷ (j, w) ∷ m))
      (λ _. Perm.trans (Perm.cons (j, w) (emplace-perm (k, v) m)) (Perm.swap (k, v) (j, w) m))

pub emplace_all-perm : (es m : Entries) → Perm (emplace_all es m) (es ++ m)
unfolding emplace_all
emplace_all-perm [] m = Perm.refl m
emplace_all-perm (e ∷ es) m =
    Perm.trans (emplace_all-perm es (emplace e m))
      (Perm.trans (Perm.append_left es (emplace-perm e m)) (perm_middle es m))

and_then_assoc :
    (v : Result Reading) (f g h : Reading → Result Reading)
    → ((r : Reading) → f r ≡ and_then (g r) h)
    → and_then v f ≡ and_then (and_then v g) h
and_then_assoc undefined f g h e = refl
and_then_assoc (throws x) f g h e = refl
and_then_assoc (gives r) f g h e = e r

pub read_lines-append :
    (ls ms : List String) (r : Reading)
    → read_lines (ls ++ ms) r ≡ and_then (read_lines ls r) (read_lines ms)
unfolding read_lines
read_lines-append [] ms r = refl
read_lines-append (l ∷ ls) ms r =
    and_then_assoc (read_line l r) (read_lines (ls ++ ms)) (read_lines ls) (read_lines ms)
      (λ r'. read_lines-append ls ms r')

pub read_lines-section :
    (es : Entries) (r : Reading)
    → All Readable es
    → r.system ≡ false
    → read_lines (map quoted_line es) r
      ≡ gives (record r { bde_entries = emplace_all es r.bde_entries })
unfolding read_lines emplace_all add_entry
read_lines-section [] r h s = refl
read_lines-section (e ∷ es) r h s =
    ap (λ v. and_then v (read_lines (map quoted_line es))) (read_line-quoted_line e r h.0)
    ∙ ap
        (λ b. read_lines (map quoted_line es) (
          if b
          then record r { system_entries = emplace e r.system_entries }
          else record r { bde_entries = emplace e r.bde_entries }))
        s
    ∙ read_lines-section es (record r { bde_entries = emplace e r.bde_entries }) h.1 s

-- A line that no marker starts.
pub record Unmarked (l : String) : Type 0 where
  pub not_begin : is_prefix begin_marker (trim l) ≡ false
  pub not_end : is_prefix end_marker (trim l) ≡ false

abbrev pub with_bde : Entries → Reading → Reading
with_bde m r = record r { bde_entries = m }

-- Reading with other entries below the markers gives the same, and stays in the section above.
abbrev pub Framed : Entries → Entries → Result Reading → Result Reading → Type 0
Framed b m undefined w = w ≡ undefined
Framed b m (throws e) w = w ≡ throws e
Framed b m (gives r) w = (w ≡ gives (with_bde m r)) × (r.system ≡ true) × (r.bde_entries ≡ b)

if_Framed :
    (b : Entries) (m : Entries) (c : Bool) (x x' y y' : Result Reading)
    → Framed b m x x'
    → Framed b m y y'
    → Framed b m (if c then x else y) (if c then x' else y')
if_Framed b m true x x' y y' h k = h
if_Framed b m false x x' y y' h k = k

and_then-Framed :
    (b m : Entries) (f : Reading → Result Reading) (v w : Result Reading)
    → Framed b m v w
    → ((r : Reading) → r.system ≡ true → r.bde_entries ≡ b → Framed b m (f r) (f (with_bde m r)))
    → Framed b m (and_then v f) (and_then w f)
and_then-Framed b m f undefined w h k = ap (λ u. and_then u f) h
and_then-Framed b m f (throws e) w h k = ap (λ u. and_then u f) h
and_then-Framed b m f (gives r) w h k =
    subst (λ u. Framed b m (f r) (and_then u f)) (sym h.0) (k r h.1 h.2)

module _ (m : Entries) (r : Reading) (s : r.system ≡ true) where
  read_quoted-Framed :
      (v : List String) → Framed r.bde_entries m (read_quoted v r) (read_quoted v (with_bde m r))
  unfolding read_quoted add_entry
  read_quoted-Framed [] = refl
  read_quoted-Framed (a ∷ []) = refl
  read_quoted-Framed (a ∷ b ∷ []) = ground (arith, s)
  read_quoted-Framed (a ∷ b ∷ c ∷ v) = refl

  read_unquoted-Framed :
      (v : List String)
      → Framed r.bde_entries m (read_unquoted v r) (read_unquoted v (with_bde m r))
  unfolding read_unquoted
  read_unquoted-Framed [] = refl
  read_unquoted-Framed (a ∷ []) = refl
  read_unquoted-Framed (a ∷ b ∷ []) = refl
  read_unquoted-Framed (a ∷ b ∷ c ∷ v) = refl

  read_trimmed-Framed :
      (l : String) → Framed r.bde_entries m (read_trimmed l r) (read_trimmed l (with_bde m r))
  unfolding read_trimmed
  read_trimmed-Framed l =
      if_Framed r.bde_entries m (str_eq l "" || is_prefix "#" l) _ _ _ _ (refl, s, refl)
        (if_Framed r.bde_entries m (is_prefix "\"" l) _ _ _ _
          (read_quoted-Framed (split_string is_quote l))
          (read_unquoted-Framed (split_string is_blank l)))

switch_section-Unmarked : (l : String) (r : Reading) → Unmarked l → switch_section (trim l) r ≡ r
unfolding switch_section
switch_section-Unmarked l r u = ground (arith, u.not_begin, u.not_end)

read_line-Framed :
    (l : String) (m : Entries) (r : Reading)
    → Unmarked l
    → r.system ≡ true
    → Framed r.bde_entries m (read_line l r) (read_line l (with_bde m r))
unfolding read_line
read_line-Framed l m r u s =
    subst
      (λ q.
        Framed r.bde_entries m (read_trimmed (trim l) q)
          (read_trimmed (trim l) (switch_section (trim l) (with_bde m r))))
      (sym (switch_section-Unmarked l r u))
      (subst (λ q. Framed r.bde_entries m (read_trimmed (trim l) r) (read_trimmed (trim l) q))
        (sym (switch_section-Unmarked l (with_bde m r) u)) (read_trimmed-Framed m r s (trim l)))

pub read_lines-Framed :
    (ls : List String) (m : Entries) (r : Reading)
    → All Unmarked ls
    → r.system ≡ true
    → Framed r.bde_entries m (read_lines ls r) (read_lines ls (with_bde m r))
unfolding read_lines
read_lines-Framed [] m r u s = (refl, s, refl)
read_lines-Framed (l ∷ ls) m r u s =
    and_then-Framed r.bde_entries m (read_lines ls) (read_line l r) (read_line l (with_bde m r))
      (read_line-Framed l m r u.0 s)
      (λ q t e.
        subst (λ b. Framed b m (read_lines ls q) (read_lines ls (with_bde m q))) e
          (read_lines-Framed ls m q u.1 t))
