-- ===== src/GridMap.antt =====
-- utils/grid-mapfile.{h,cc}: the file that maps the names of certificates to local users, of which
-- the program owns the section between two markers. A file is the list of its lines; the two
-- renames at the end of a push are parameters.
pub mod Text
pub mod Words
pub mod Lines
pub mod Section
pub mod RoundTrip
pub mod Fresh
pub mod Backup
pub mod Tests
use bigdataexpress_c.Base.{
  ℕ, ◌+◌, ◌-◌, String, str_append, str_eq, Bool, true, false, Option, none, some, List, [], ◌∷◌,
  ◌++◌, map, length, leb, if◌then◌else◌, ◌||◌,
}
use bigdataexpress_c.Base.Keyed.{str_lt}
use bigdataexpress_c.GridMap.Text.{trim, is_prefix, split_string, is_blank, is_quote, break_lines}

abbrev pub begin_marker : String
begin_marker = "## BEGIN-BDE-SECTION"

abbrev pub end_marker : String
end_marker = "## END-BDE-SECTION"

-- `std::multimap`: an entry goes behind those with the same key.
abbrev pub Entries : Type 0
Entries = List (String × String)

unfoldable pub emplace : String × String → Entries → Entries
unfolding str_lt
emplace e [] = e ∷ []
emplace (k, v) ((j, w) ∷ m) =
    let rest = emplace (k, v) m in if str_lt k j then (k, v) ∷ (j, w) ∷ m else (j, w) ∷ rest

pub data Error : Type 0 where
  does_not_exist malformed_line out_of_range no_end_marker cannot_rename : Error

-- `undefined` is an insertion through an iterator that a reallocation has made invalid.
pub data Result {ℓ} (V : Type ℓ) : Type ℓ where
  undefined : Result V
  throws : Error → Result V
  gives : V → Result V

abbrev pub and_then {ℓ κ} : {V : Type ℓ} {W : Type κ} → Result V → (V → Result W) → Result W
and_then undefined f = undefined
and_then (throws e) f = throws e
and_then (gives v) f = f v

pub record Reading : Type 0 where
  pub system : Bool
  pub system_entries : Entries
  pub bde_entries : Entries

unfoldable pub add_entry : String × String → Reading → Reading
add_entry e r =
    if r.system
    then record r { system_entries = emplace e r.system_entries }
    else record r { bde_entries = emplace e r.bde_entries }

-- The markers switch between the two sections, the end marker last.
unfoldable pub switch_section : String → Reading → Reading
switch_section line r = record r {
  system =
      if is_prefix end_marker line
      then true
      else if is_prefix begin_marker line
      then false
      else r.system;
}

-- What stands between the quotes, and what follows them.
unfoldable pub read_quoted : List String → Reading → Result Reading
unfolding add_entry
read_quoted (dn ∷ user ∷ []) r = gives (add_entry (dn, trim user) r)
read_quoted [] r = throws malformed_line
read_quoted (dn ∷ []) r = throws malformed_line
read_quoted (dn ∷ user ∷ more ∷ v) r = throws malformed_line

-- `v.at(2)` of a vector of two throws.
unfoldable pub read_unquoted : List String → Reading → Result Reading
read_unquoted (dn ∷ user ∷ []) r = throws out_of_range
read_unquoted [] r = throws malformed_line
read_unquoted (dn ∷ []) r = throws malformed_line
read_unquoted (dn ∷ user ∷ more ∷ v) r = throws malformed_line

-- A line without its outer spaces.
unfoldable pub read_trimmed : String → Reading → Result Reading
unfolding read_quoted read_unquoted
read_trimmed line r =
    if str_eq line "" || is_prefix "#" line
    then gives r
    else if is_prefix "\"" line
    then read_quoted (split_string is_quote line) r
    else read_unquoted (split_string is_blank line) r

unfoldable pub read_line : String → Reading → Result Reading
unfolding switch_section read_trimmed
read_line raw r = read_trimmed (trim raw) (switch_section (trim raw) r)

unfoldable pub read_lines : List String → Reading → Result Reading
unfolding read_line
read_lines [] r = gives r
read_lines (l ∷ ls) r = and_then (read_line l r) (read_lines ls)

abbrev pub empty_reading : Reading
empty_reading = record { system = true; system_entries = []; bde_entries = [] }

unfoldable pub get_entries : Option (List String) → Result Reading
unfolding read_lines
get_entries none = throws does_not_exist
get_entries (some lines) = read_lines lines empty_reading

-- The lines before the first that is `m`, and those behind it.
unfoldable pub find_line : String → List String → Option (List String × List String)
find_line m [] = none
find_line m (l ∷ ls) =
    if str_eq l m
    then some ([], ls)
    else elim (find_line m ls) [ none ↦ none | some (before, behind) ↦ some (l ∷ before, behind) ]

abbrev pub unquoted_line : String × String → String
unquoted_line (k, v) = str_append k (str_append " " v)

abbrev pub quoted_line : String × String → String
quoted_line (k, v) = str_append "\"" (str_append k (str_append "\"" (str_append " " v)))

-- The section where the file has none, or where there is no file.
unfoldable pub new_section : Entries → List String
new_section entries = begin_marker ∷ (map unquoted_line entries ++ (end_marker ∷ []))

-- The insertions behind the marker: with room for so many lines the vector does not move. The
-- insertion that moves it is still made, and the next uses the old iterator.
unfoldable pub insert_all : ℕ → Entries → Result (List String)
insert_all room entries =
    if leb (length entries) (room + 1) then gives (map quoted_line entries) else undefined

-- The new lines of a file that exists; `capacity` is that of the vector of its lines.
unfoldable pub new_lines : ℕ → Entries → List String → Result (List String)
unfolding find_line insert_all new_section
new_lines capacity entries lines = elim (find_line begin_marker lines) [
  | none ↦ gives (lines ++ new_section entries)
  | some (before, behind) ↦ (elim (find_line end_marker behind) [
    | none ↦ throws no_end_marker
    | some (old, rest) ↦
        and_then (insert_all (capacity - (length before + 2 + length rest)) entries)
          (λ section. gives (before ++ (begin_marker ∷ (section ++ (end_marker ∷ rest)))))
  ])
]

-- The map file, the backup and the working file, each with its lines if it exists.
pub record Files : Type 0 where
  pub mapfile : Option (List String)
  pub save : Option (List String)
  pub work : Option (List String)

-- What a reader finds of written lines: a newline in a text ends a line.
unfoldable pub written : List String → List String
unfolding break_lines
written [] = []
written (l ∷ ls) = break_lines l ++ written ls

-- `std::rename` of the map file to the backup, and of the working file to the map file. Where one
-- fails the call throws.
unfoldable pub replace_file : Bool × Bool → Files → Result (Unit {0}) × Files
replace_file (false, second) f = (throws cannot_rename, f)
replace_file (true, false) f = (throws cannot_rename, record f { mapfile = none; save = f.mapfile })
replace_file (true, true) f = (gives tt, record { mapfile = f.work; save = f.mapfile; work = none })

unfoldable pub push_entries : ℕ → Bool × Bool → Entries → Files → Result (Unit {0}) × Files
unfolding new_lines new_section written replace_file
push_entries capacity renames entries f = elim f.mapfile [
  | none ↦ (gives tt, record f { mapfile = some (written (new_section entries)) })
  | some lines ↦ (elim (new_lines capacity entries lines) [
    | undefined ↦ (undefined, f)
    | throws e ↦ (throws e, f)
    | gives new ↦ replace_file renames (record f { work = some (written new) })
  ])
]
