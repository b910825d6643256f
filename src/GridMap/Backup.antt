-- ===== src/GridMap/Backup.antt =====
-- The renames of a push of utils/grid-mapfile.cc, where they fail.
use bigdataexpress_c.Base.{
  ℕ, ◌≡◌, sym, subst, ◌⊎◌, inl, inr, Bool, true, false, some, String, List, arith,
}
use bigdataexpress_c.GridMap.{
  Entries, Result, undefined, throws, gives, new_lines, Files, written, replace_file, push_entries,
}

abbrev pub Keeps : List String → Files → Type 0
Keeps lines f = (f.mapfile ≡ some lines) ⊎ (f.save ≡ some lines)

replace_file-Keeps :
    (renames : Bool × Bool) (lines : List String) (f : Files)
    → f.mapfile ≡ some lines
    → Keeps lines (replace_file renames f).1
unfolding replace_file
replace_file-Keeps (false, second) lines f h = inl h
replace_file-Keeps (true, false) lines f h = inr h
replace_file-Keeps (true, true) lines f h = inr h

-- The files behind a push, by what it made of the lines.
abbrev after_lines : Bool × Bool → Files → Result (List String) → Files
after_lines renames f undefined = f
after_lines renames f (throws e) = f
after_lines renames f (gives new) =
    (replace_file renames (record f { work = some (written new) })).1

after_lines-Keeps :
    (renames : Bool × Bool) (lines : List String) (f : Files) (v : Result (List String))
    → f.mapfile ≡ some lines
    → Keeps lines (after_lines renames f v)
after_lines-Keeps renames lines f undefined h = inl h
after_lines-Keeps renames lines f (throws e) h = inl h
after_lines-Keeps renames lines f (gives new) h =
    replace_file-Keeps renames lines (record f { work = some (written new) }) h

push_entries-some :
    (capacity : ℕ) (renames : Bool × Bool) (es : Entries) (lines : List String) (f : Files)
    → f.mapfile ≡ some lines
    → (push_entries capacity renames es f).1 ≡ after_lines renames f (new_lines capacity es lines)
unfolding push_entries
push_entries-some capacity renames es lines f h = ground (arith, h)

-- Whatever fails in a push, the lines of a map file that was there are in the map file or in its
-- backup.
pub push_entries-Keeps :
    (capacity : ℕ) (renames : Bool × Bool) (es : Entries) (lines : List String) (f : Files)
    → f.mapfile ≡ some lines
    → Keeps lines (push_entries capacity renames es f).1
push_entries-Keeps capacity renames es lines f h =
    subst (Keeps lines) (sym (push_entries-some capacity renames es lines f h))
      (after_lines-Keeps renames lines f (new_lines capacity es lines) h)
