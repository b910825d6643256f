-- ===== src/GridMap/Text.antt =====
-- The walks over text of utils/grid-mapfile.cc: trimming, splitting and prefixes.
use Prim.Native.Char.{Char, code}
use bigdataexpress_c.Base.{
  String, Bool, true, false, ◌&&◌, ◌||◌, List, [], ◌∷◌, leb, ◌==◌, if◌then◌else◌,
}

-- `isspace`: tab, line feed, vertical tab, form feed, carriage return and space.

unfoldable pub is_space : Char → Bool
is_space c = (leb 9 (code c) && leb (code c) 13) || code c == 32

-- `WHITESPACE_CHARS`
unfoldable pub is_blank : Char → Bool
is_blank c = code c == 32 || code c == 9 || code c == 10

unfoldable pub is_quote : Char → Bool
is_quote c = code c == 34

unfoldable pub is_newline : Char → Bool
is_newline c = code c == 10

unfoldable pub trim_left : String → String
unfolding is_space
trim_left String.[] = ""
trim_left (String.◌∷◌ c s) = let rest = trim_left s in if is_space c then rest else String.◌∷◌ c s

-- A character before a text that has been trimmed at its end.
unfoldable pub before_trimmed : Char → String → String
unfolding is_space
before_trimmed c String.[] = if is_space c then "" else String.◌∷◌ c ""
before_trimmed c (String.◌∷◌ d s) = String.◌∷◌ c (String.◌∷◌ d s)

unfoldable pub trim_right : String → String
unfolding before_trimmed
trim_right String.[] = ""
trim_right (String.◌∷◌ c s) = before_trimmed c (trim_right s)

unfoldable pub trim : String → String
unfolding trim_left trim_right
trim s = trim_right (trim_left s)

-- `compare(0, p.length(), p) == 0`
unfoldable pub is_prefix : String → String → Bool
is_prefix String.[] s = true
is_prefix (String.◌∷◌ c p) String.[] = false
is_prefix (String.◌∷◌ c p) (String.◌∷◌ d s) = code c == code d && is_prefix p s

-- A piece is kept where it is not empty.
unfoldable pub keep : String → List String → List String
keep String.[] v = v
keep (String.◌∷◌ c s) v = String.◌∷◌ c s ∷ v

-- The piece at the start of a text, and those that are kept of the rest.
unfoldable pub pieces : (Char → Bool) → String → String × List String
unfolding keep
pieces sep String.[] = ("", [])
pieces sep (String.◌∷◌ c s) =
    let (piece, v) = pieces sep s in if sep c then ("", keep piece v) else (String.◌∷◌ c piece, v)

-- `getline` ends a piece at a newline, as a delimiter does.
unfoldable pub split_string : (Char → Bool) → String → List String
unfolding pieces is_newline
split_string sep s = let (piece, v) = pieces (λ c. sep c || is_newline c) s in keep piece v

-- A character before the first of some lines, or an empty line before them.
unfoldable pub before_lines : Bool → Char → List String → List String
before_lines true c v = "" ∷ v
before_lines false c [] = String.◌∷◌ c "" ∷ []
before_lines false c (l ∷ v) = String.◌∷◌ c l ∷ v

-- The lines of a text that is written with a newline behind it.
unfoldable pub break_lines : String → List String
unfolding is_newline before_lines
break_lines String.[] = "" ∷ []
break_lines (String.◌∷◌ c s) = before_lines (is_newline c) c (break_lines s)
