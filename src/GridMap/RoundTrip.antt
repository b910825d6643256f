-- ===== src/GridMap/RoundTrip.antt =====
-- A push into a map file that has the section, and the reading of what it leaves.
use mathlib.Core.List.{append-nil}
use bigdataexpress_c.Base.{
  ℕ, ◌+◌, ◌-◌, ◌≤◌, String, str_append, ◌≡◌, refl, sym, subst, ap, ◌∙◌, true, false, none, some,
  List, [], ◌∷◌, ◌++◌, map, length, All, All-append, Perm, arith,
}
use bigdataexpress_c.GridMap.Text.{trim, is_prefix, break_lines}
use bigdataexpress_c.GridMap.Words.{space-Without, break_lines-quoted}
use bigdataexpress_c.GridMap.Lines.{Readable}
use bigdataexpress_c.GridMap.Section.{
  emplace_all, emplace_all-perm, read_lines-append, read_lines-section, Unmarked, with_bde, Framed,
  read_lines-Framed,
}
use bigdataexpress_c.GridMap.{
  Entries, Result, undefined, throws, gives, Reading, switch_section, read_trimmed, read_line,
  read_lines, get_entries, empty_reading, find_line, quoted_line, insert_all, new_lines, and_then,
  begin_marker, end_marker, Files, written, replace_file, push_entries,
}

read_line-begin_marker :
    (r : Reading) → read_line begin_marker r ≡ gives (record r { system = false })
unfolding read_line switch_section read_trimmed trim is_prefix
read_line-begin_marker r = refl

read_line-end_marker : (r : Reading) → read_line end_marker r ≡ gives (record r { system = true })
unfolding read_line switch_section read_trimmed trim is_prefix
read_line-end_marker r = refl

read_lines-end_marker :
    (rest : List String) (r : Reading)
    → read_lines (end_marker ∷ rest) r ≡ read_lines rest (record r { system = true })
unfolding read_lines
read_lines-end_marker rest r = ap (λ v. and_then v (read_lines rest)) (read_line-end_marker r)

module _ (es : Entries) (readable : All Readable es) (rest : List String) where
  read_lines-marked :
      (r : Reading)
      → r.system ≡ true
      → read_lines (begin_marker ∷ (map quoted_line es ++ (end_marker ∷ rest))) r
        ≡ read_lines rest (with_bde (emplace_all es r.bde_entries) r)
  unfolding read_lines
  read_lines-marked r s =
      let inside = record r { system = false } in
      let bde = emplace_all es r.bde_entries in
      ap (λ v. and_then v (read_lines (map quoted_line es ++ (end_marker ∷ rest))))
        (read_line-begin_marker r)
      ∙ read_lines-append (map quoted_line es) (end_marker ∷ rest) inside
      ∙ ap (λ v. and_then v (read_lines (end_marker ∷ rest)))
          (read_lines-section es inside readable refl)
      ∙ read_lines-end_marker rest (with_bde bde inside)
      ∙ ap (λ b. read_lines rest (record r { system = b; bde_entries = bde })) (sym s)

-- A line as a reader finds it holds no newline.
abbrev pub OneLine : String → Type 0
OneLine l = break_lines l ≡ l ∷ []

pub written_lines : (ls : List String) → All OneLine ls → written ls ≡ ls
unfolding written
written_lines [] h = refl
written_lines (l ∷ ls) h =
    ap (λ ms. ms ++ written ls) h.0 ∙ ap (λ ms. l ∷ ms) (written_lines ls h.1)

quoted_lines-OneLine : (es : Entries) → All Readable es → All OneLine (map quoted_line es)
quoted_lines-OneLine [] h = tt
quoted_lines-OneLine ((k, v) ∷ es) h = (
  break_lines-quoted k (str_append " " v) h.0.name_plain (space-Without v h.0.user_plain),
  quoted_lines-OneLine es h.1,
)

marked_lines-OneLine :
    (before : List String) (es : Entries) (rest : List String)
    → All OneLine before
    → All Readable es
    → All OneLine rest
    → All OneLine (before ++ (begin_marker ∷ (map quoted_line es ++ (end_marker ∷ rest))))
unfolding break_lines
marked_lines-OneLine before es rest h r k =
    All-append OneLine before (begin_marker ∷ (map quoted_line es ++ (end_marker ∷ rest))) h (
      refl,
      All-append OneLine (map quoted_line es) (end_marker ∷ rest) (quoted_lines-OneLine es r)
          (refl, k),
    )

after_before :
    (rest : List String) (es : Entries) (r : Reading) (v : Result Reading)
    → All Unmarked rest
    → All Readable es
    → Framed [] [] v v
    → and_then v (read_lines rest) ≡ gives r
    → and_then v (read_lines (begin_marker ∷ (map quoted_line es ++ (end_marker ∷ rest))))
      ≡ gives (with_bde (emplace_all es []) r)
after_before rest es r undefined hr he f e = absurd (cc)
after_before rest es r (throws x) hr he f e = absurd (cc)
after_before rest es r (gives q) hr he f e =
    let bde = emplace_all es [] in
    read_lines-marked es he rest q f.1
    ∙ ap (λ m. read_lines rest (with_bde (emplace_all es m) q)) f.2
    ∙ (subst (λ v. Framed q.bde_entries bde v (read_lines rest (with_bde bde q))) e
        (read_lines-Framed rest bde q hr f.1)).0

read_marked :
    (before rest : List String) (es : Entries) (r : Reading)
    → All Unmarked before
    → All Unmarked rest
    → All Readable es
    → get_entries (some (before ++ rest)) ≡ gives r
    → get_entries (some (before ++ (begin_marker ∷ (map quoted_line es ++ (end_marker ∷ rest)))))
      ≡ gives (with_bde (emplace_all es []) r)
unfolding get_entries
read_marked before rest es r hb hr he e =
    let v = read_lines before empty_reading in
    let marked = begin_marker ∷ (map quoted_line es ++ (end_marker ∷ rest)) in
    read_lines-append before marked empty_reading
    ∙ after_before rest es r v hr he (read_lines-Framed before [] empty_reading hb refl)
        (sym (read_lines-append before rest empty_reading) ∙ e)

-- A map file with a section, and the lines before it, in it and behind it.
pub record Sectioned (lines before old rest : List String) : Type 0 where
  pub behind : List String
  pub begins : find_line begin_marker lines ≡ some (before, behind)
  pub ends : find_line end_marker behind ≡ some (old, rest)
  pub before_whole : All OneLine before
  pub rest_whole : All OneLine rest
  pub before_unmarked : All Unmarked before
  pub rest_unmarked : All Unmarked rest

new_lines-Sectioned :
    (capacity : ℕ) (es : Entries) (lines before old rest : List String)
    → Sectioned lines before old rest
    → length es ≤ capacity - (length before + 2 + length rest) + 1
    → new_lines capacity es lines
      ≡ gives (before ++ (begin_marker ∷ (map quoted_line es ++ (end_marker ∷ rest))))
unfolding new_lines insert_all
new_lines-Sectioned capacity es lines before old rest h fits =
    ground (arith, h.begins, h.ends, fits)

pub push_entries-replaces :
    (capacity : ℕ) (es : Entries) (f : Files) (lines new : List String)
    → f.mapfile ≡ some lines
    → new_lines capacity es lines ≡ gives new
    → All OneLine new
    → push_entries capacity (true, true) es f
      ≡ (gives tt, record { mapfile = some new; save = some lines; work = none })
unfolding push_entries replace_file
push_entries-replaces capacity es f lines new file e h =
    ground (arith, file, e, written_lines new h)

-- The entries that a push puts into a map file with a section come back when it is read, in some
-- order, with the entries of the other lines as they were; the backup has the old lines.
pub push_entries-get_entries :
    (capacity : ℕ) (es : Entries) (f : Files) (lines before old rest : List String) (r : Reading)
    → f.mapfile ≡ some lines
    → Sectioned lines before old rest
    → length es ≤ capacity - (length before + 2 + length rest) + 1
    → All Readable es
    → get_entries (some (before ++ rest)) ≡ gives r
    → let (outcome, g) = push_entries capacity (true, true) es f in
      (outcome ≡ gives tt)
      × (g.save ≡ some lines)
      × (g.work ≡ none)
      × ((bde : Entries) × Perm bde es × (get_entries g.mapfile ≡ gives (with_bde bde r)))
push_entries-get_entries capacity es f lines before old rest r file h fits readable e =
    let new = before ++ (begin_marker ∷ (map quoted_line es ++ (end_marker ∷ rest))) in
    let pushed =
      push_entries-replaces capacity es f lines new file
        (new_lines-Sectioned capacity es lines before old rest h fits)
        (marked_lines-OneLine before es rest h.before_whole readable h.rest_whole) in
    (
      ap (λ p. p.0) pushed,
      ap (λ p. p.1.save) pushed,
      ap (λ p. p.1.work) pushed,
      (
        emplace_all es [],
        subst (Perm (emplace_all es [])) (append-nil es) (emplace_all-perm es []),
        ap (λ p. get_entries p.1.mapfile) pushed
            ∙ read_marked before rest es r h.before_unmarked h.rest_unmarked readable e,
      ),
    )
