-- ===== src/GridMap/Tests.antt =====
-- A map file with a section, and one entry that is pushed into it.
use bigdataexpress_c.Base.{
  String, ◌≡◌, ◌≢◌, refl, ◌⊎◌, true, false, none, some, List, [], ◌∷◌, Perm, All, map, arith,
}
use bigdataexpress_c.GridMap.Text.{
  is_space, is_quote, is_newline, trim, trim_left, trim_right, before_trimmed, is_prefix,
  break_lines,
}
use bigdataexpress_c.GridMap.Words.{cons-full}
use bigdataexpress_c.GridMap.Lines.{Readable}
use bigdataexpress_c.GridMap.Section.{with_bde}
use bigdataexpress_c.GridMap.RoundTrip.{Sectioned, OneLine, push_entries-get_entries}
use bigdataexpress_c.GridMap.Fresh.{Bare, push_entries-new_section}
use bigdataexpress_c.GridMap.Backup.{push_entries-Keeps}
use bigdataexpress_c.GridMap.{
  Entries, gives, Reading, get_entries, read_line, read_trimmed, switch_section, find_line,
  begin_marker, end_marker, unquoted_line, Files, push_entries,
}

abbrev above : List String
above = "# local users" ∷ []

abbrev lines : List String
lines = "# local users" ∷ begin_marker ∷ "\"/CN=a\" u" ∷ end_marker ∷ []

abbrev files : Files
files = record { mapfile = some lines; save = none; work = none }

abbrev no_files : Files
no_files = record { mapfile = none; save = none; work = none }

abbrev entries : Entries
entries = ("/CN=b", "u") ∷ ("/CN=c", "v") ∷ []

abbrev above_only : Reading
above_only = record { system = true; system_entries = []; bde_entries = [] }

lines-Sectioned : Sectioned lines above ("\"/CN=a\" u" ∷ []) []
unfolding find_line break_lines trim is_prefix
lines-Sectioned = record {
  behind = "\"/CN=a\" u" ∷ end_marker ∷ [];
  begins = refl;
  ends = refl;
  before_whole = (refl, tt);
  rest_whole = tt;
  before_unmarked = (record { not_begin = refl; not_end = refl }, tt);
  rest_unmarked = tt;
}

b-Readable : Readable ("/CN=b", "u")
unfolding is_quote is_newline trim_left trim_right is_space before_trimmed
b-Readable = record {
  name_plain = (refl, (refl, (refl, (refl, (refl, tt)))));
  name_full = cons-full "/" "CN=b";
  user_plain = (refl, tt);
  user_trimmed = (refl, refl, cons-full "u" "");
}

c-Readable : Readable ("/CN=c", "v")
unfolding is_quote is_newline trim_left trim_right is_space before_trimmed
c-Readable = record {
  name_plain = (refl, (refl, (refl, (refl, (refl, tt)))));
  name_full = cons-full "/" "CN=c";
  user_plain = (refl, tt);
  user_trimmed = (refl, refl, cons-full "v" "");
}

above_read : get_entries (some above) ≡ gives above_only
unfolding get_entries read_line switch_section read_trimmed trim is_prefix
above_read = refl

push_entries-get_entries_example :
    let (outcome, g) = push_entries 8 (true, true) entries files in
    (outcome ≡ gives tt)
    × (g.save ≡ some lines)
    × (g.work ≡ none)
    × ((bde : Entries) × Perm bde entries
        × (get_entries g.mapfile ≡ gives (with_bde bde above_only)))
push_entries-get_entries_example =
    push_entries-get_entries 8 entries files lines above ("\"/CN=a\" u" ∷ []) [] above_only refl
      lines-Sectioned (omega arith) (b-Readable, (c-Readable, tt)) above_read

no_marker : find_line begin_marker [] ≡ none
unfolding find_line
no_marker = refl

unquoted-OneLine : All OneLine (map unquoted_line entries)
unfolding break_lines
unquoted-OneLine = (refl, (refl, tt))

slash-Bare : Bare "/"
unfolding is_space
slash-Bare = record { no_space = refl; no_comment = refl; no_quote = refl }

push_entries-new_section_example :
    let (outcome, g) = push_entries 8 (true, true) entries no_files in
    (outcome ≡ gives tt) × ((r : Reading) → get_entries g.mapfile ≢ gives r)
push_entries-new_section_example =
    push_entries-new_section 8 ("/CN=b", "u") (("/CN=c", "v") ∷ []) no_files no_marker tt
      unquoted-OneLine slash-Bare

push_entries-Keeps_example :
    ((push_entries 8 (true, false) entries files).1.mapfile ≡ some lines)
    ⊎ ((push_entries 8 (true, false) entries files).1.save ≡ some lines)
push_entries-Keeps_example = push_entries-Keeps 8 (true, false) entries lines files refl
