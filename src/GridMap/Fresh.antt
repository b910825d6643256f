-- ===== src/GridMap/Fresh.antt =====
-- A push of utils/grid-mapfile.cc that has to make the section, or the file.
use Prim.Native.Char.{Char, code}
use Prim.Native.String.append
use bigdataexpress_c.Base.{
  ℕ, eq_iff, String, str_append, ◌≡◌, ◌≢◌, refl, sym, subst, ap, ◌∙◌, true, false, none, some, List,
  [], ◌∷◌, ◌++◌, map, All, All-append, Option-cases, inl, inr, arith, ◌==◌,
}
use bigdataexpress_c.Base.Keyed.{or_else}
use bigdataexpress_c.GridMap.Text.{
  is_space, trim, trim_left, trim_right, before_trimmed, is_prefix, break_lines, is_blank,
  split_string,
}
use bigdataexpress_c.GridMap.Words.{cons-full}
use bigdataexpress_c.GridMap.Section.{read_lines-append}
use bigdataexpress_c.GridMap.RoundTrip.{OneLine, written_lines, push_entries-replaces}
use bigdataexpress_c.GridMap.{
  Entries, Result, undefined, throws, gives, Reading, switch_section, read_unquoted, read_trimmed,
  read_line, read_lines, get_entries, empty_reading, find_line, unquoted_line, new_section,
  new_lines, and_then, begin_marker, end_marker, Files, push_entries,
}

-- What is not a result.
abbrev pub Fails : Result Reading → Type 0
Fails v = (r : Reading) → v ≢ gives r

and_then-Fails_first :
    (v : Result Reading) (f : Reading → Result Reading) → Fails v → Fails (and_then v f)
and_then-Fails_first undefined f h r e = h r e
and_then-Fails_first (throws x) f h r e = cc
and_then-Fails_first (gives q) f h r e = h q refl

and_then-Fails :
    (v : Result Reading) (f : Reading → Result Reading)
    → ((r : Reading) → Fails (f r))
    → Fails (and_then v f)
and_then-Fails undefined f h r e = cc
and_then-Fails (throws x) f h r e = cc
and_then-Fails (gives q) f h r e = h q r e

read_unquoted-Fails : (v : List String) (r : Reading) → Fails (read_unquoted v r)
unfolding read_unquoted
read_unquoted-Fails [] r q e = cc
read_unquoted-Fails (a ∷ []) r q e = cc
read_unquoted-Fails (a ∷ b ∷ []) r q e = cc
read_unquoted-Fails (a ∷ b ∷ c ∷ v) r q e = cc

-- A character that begins neither a comment nor a quoted name, and is no space.
pub record Bare (c : Char) : Type 0 where
  pub no_space : is_space c ≡ false
  pub no_comment : (code c == 35) ≡ false
  pub no_quote : (code c == 34) ≡ false

trim_left-head :
    (c : Char) (s : String) → is_space c ≡ false → trim_left (String.◌∷◌ c s) ≡ String.◌∷◌ c s
unfolding trim_left
trim_left-head c s h = ground (arith, h)

before_trimmed-head :
    (c : Char) (s : String)
    → is_space c ≡ false
    → (t : String) × (before_trimmed c s ≡ String.◌∷◌ c t)
unfolding before_trimmed
before_trimmed-head c String.[] h = ("", ground (arith, h))
before_trimmed-head c (String.◌∷◌ d s) h = (String.◌∷◌ d s, refl)

trim-head :
    (c : Char) (s : String)
    → is_space c ≡ false
    → (t : String) × (trim (String.◌∷◌ c s) ≡ String.◌∷◌ c t)
unfolding trim trim_right
trim-head c s h =
    let (t, e) = before_trimmed-head c (trim_right s) h in
    (t, ap trim_right (trim_left-head c s h) ∙ e)

read_trimmed-Bare :
    (c : Char) (s : String) (r : Reading)
    → Bare c
    → read_trimmed (String.◌∷◌ c s) r ≡ read_unquoted (split_string is_blank (String.◌∷◌ c s)) r
unfolding read_trimmed is_prefix
read_trimmed-Bare c s r h =
    ground (arith, h.no_comment, h.no_quote, eq_iff (String.◌∷◌ c s) "", cons-full c s)

read_line-Fails :
    (c : Char) (s : String) (r : Reading) → Bare c → Fails (read_line (String.◌∷◌ c s) r)
unfolding read_line
read_line-Fails c s r h =
    let (t, e) = trim-head c s h.no_space in
    subst (λ u. Fails (read_trimmed u (switch_section u r))) (sym e)
      (subst Fails (sym (read_trimmed-Bare c t (switch_section (String.◌∷◌ c t) r) h)) (
        read_unquoted-Fails (split_string is_blank (String.◌∷◌ c t))
          (switch_section (String.◌∷◌ c t) r)))

-- The name of an entry begins with a character that is bare.
abbrev pub BareName : String × String → Type 0
BareName (String.[], user) = ⊥
BareName (String.◌∷◌ c s, user) = Bare c

unquoted_line-Fails :
    (e : String × String) (r : Reading) → BareName e → Fails (read_line (unquoted_line e) r)
unquoted_line-Fails (String.[], user) r h = absurd h
unquoted_line-Fails (String.◌∷◌ c s, user) r h =
    subst (λ l. Fails (read_line l r)) (sym (append.cons c s (str_append " " user)))
      (read_line-Fails c (str_append s (str_append " " user)) r h)

new_section-Fails :
    (e : String × String) (es : Entries) (r : Reading)
    → BareName e
    → Fails (read_lines (new_section (e ∷ es)) r)
unfolding read_lines new_section
new_section-Fails e es r h =
    and_then-Fails (read_line begin_marker r) _
      (λ q. and_then-Fails_first (read_line (unquoted_line e) q) _ (unquoted_line-Fails e q h))

fresh-Fails :
    (ls : List String) (e : String × String) (es : Entries)
    → BareName e
    → Fails (get_entries (some (ls ++ new_section (e ∷ es))))
unfolding get_entries
fresh-Fails ls e es h =
    subst Fails (sym (read_lines-append ls (new_section (e ∷ es)) empty_reading)) (
      and_then-Fails (read_lines ls empty_reading) (read_lines (new_section (e ∷ es)))
        (λ q. new_section-Fails e es q h))

new_section-OneLine :
    (es : Entries) → All OneLine (map unquoted_line es) → All OneLine (new_section es)
unfolding new_section break_lines
new_section-OneLine es h =
    (refl, All-append OneLine (map unquoted_line es) (end_marker ∷ []) h (refl, tt))

new_lines_fresh :
    (capacity : ℕ) (es : Entries) (lines : List String)
    → find_line begin_marker lines ≡ none
    → new_lines capacity es lines ≡ gives (lines ++ new_section es)
unfolding new_lines
new_lines_fresh capacity es lines h = ground (arith, h)

push_entries_absent :
    (capacity : ℕ) (es : Entries) (f : Files)
    → f.mapfile ≡ none
    → All OneLine (new_section es)
    → push_entries capacity (true, true) es f
      ≡ (gives tt, record f { mapfile = some (new_section es) })
unfolding push_entries
push_entries_absent capacity es f absent h =
    ground (arith, absent, written_lines (new_section es) h)

push_entries-mapfile :
    (capacity : ℕ) (es : Entries) (f : Files)
    → find_line begin_marker (or_else f.mapfile []) ≡ none
    → All OneLine (or_else f.mapfile [])
    → All OneLine (map unquoted_line es)
    → ((push_entries capacity (true, true) es f).0 ≡ gives tt)
      × ((push_entries capacity (true, true) es f).1.mapfile
          ≡ some (or_else f.mapfile [] ++ new_section es))
push_entries-mapfile capacity es f missing old new = elim (Option-cases f.mapfile) [
  | inl absent ↦
      let pushed = push_entries_absent capacity es f absent (new_section-OneLine es new) in
      (
        ap (λ p. p.0) pushed,
        ap (λ p. p.1.mapfile) pushed ∙ ap (λ o. some (or_else o [] ++ new_section es)) (sym absent),
      )
  | inr (lines, present) ↦
      let at_lines = ap (λ o. or_else o []) present in
      let pushed =
        push_entries-replaces capacity es f lines (lines ++ new_section es) present
          (new_lines_fresh capacity es lines
            (subst (λ ls. find_line begin_marker ls ≡ none) at_lines missing))
          (All-append OneLine lines (new_section es) (subst (All OneLine) at_lines old)
            (new_section-OneLine es new)) in
      (
        ap (λ p. p.0) pushed,
        ap (λ p. p.1.mapfile) pushed ∙ ap (λ ls. some (ls ++ new_section es)) (sym at_lines),
      )
]

-- Where the map file has no section, or is not there, a push succeeds, but if the first name
-- begins with a character that is neither a space, `#` nor a quote, no reader accepts the file.
pub push_entries-new_section :
    (capacity : ℕ) (e : String × String) (es : Entries) (f : Files)
    → find_line begin_marker (or_else f.mapfile []) ≡ none
    → All OneLine (or_else f.mapfile [])
    → All OneLine (map unquoted_line (e ∷ es))
    → BareName e
    → let (outcome, g) = push_entries capacity (true, true) (e ∷ es) f in
      (outcome ≡ gives tt) × ((r : Reading) → get_entries g.mapfile ≢ gives r)
push_entries-new_section capacity e es f missing old new h =
    let pushed = push_entries-mapfile capacity (e ∷ es) f missing old new in
    (
      pushed.0,
      subst (λ o. Fails (get_entries o)) (sym pushed.1) (fresh-Fails (or_else f.mapfile []) e es h),
    )
