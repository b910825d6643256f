-- ===== src/Bootstrap/Paths.antt =====
-- `split` of utils/utils.h, and the identifiers of files: a site, a DTN, a name at the DTN and a path.
use Prim.Native.Char.{Char, code}
use bigdataexpress_c.Base.{
  String, Bool, ◌||◌, Option, none, some, List, [], ◌∷◌, ◌==◌, str_append, if◌then◌else◌,
}

-- The first character of a piece.
unfoldable pub put_before : Char → List String → List String
put_before c [] = String.◌∷◌ c "" ∷ []
put_before c (piece ∷ pieces) = String.◌∷◌ c piece ∷ pieces

-- By `getline`: behind a last delimiter there is no piece.
unfoldable pub split : (Char → Bool) → String → List String
unfolding put_before
split is_delim String.[] = []
split is_delim (String.◌∷◌ c s) =
    let rest = split is_delim s in if is_delim c then "" ∷ rest else put_before c rest

abbrev pub is_bar : Char → Bool
is_bar c = code c == 124

abbrev pub is_comma : Char → Bool
is_comma c = code c == 44

pub record FileId : Type 0 where
  pub site : String
  pub dtn : String
  pub disk : String
  pub path : String

unfoldable pub four_pieces : List String → Option FileId
four_pieces (site ∷ dtn ∷ disk ∷ path ∷ []) =
    some (record { site = site; dtn = dtn; disk = disk; path = path })
four_pieces _ = none

unfoldable pub parse_id : String → Option FileId
unfolding split four_pieces
parse_id text = four_pieces (split is_bar text)

abbrev pub storage_of : FileId → String
storage_of f = str_append f.dtn (str_append "|" f.disk)

-- `find_last_of("/\\")`: the text up to the last slash, and the rest.
unfoldable pub is_slash : Char → Bool
is_slash c = code c == 47 || code c == 92

unfoldable pub add_front : Char → String × String → String × String
unfolding is_slash
add_front c (String.[], file) =
    if is_slash c then (String.◌∷◌ c "", file) else ("", String.◌∷◌ c file)
add_front c (String.◌∷◌ d dir, file) = (String.◌∷◌ c (String.◌∷◌ d dir), file)

unfoldable pub cut_path : String → String × String
unfolding add_front
cut_path String.[] = ("", "")
cut_path (String.◌∷◌ c s) = add_front c (cut_path s)

-- `none` where `back()` reads before the start of an empty text.
unfoldable pub with_slash : String → Option String
with_slash String.[] = none
with_slash (String.◌∷◌ c String.[]) =
    some (if code c == 47 then String.◌∷◌ c "" else String.◌∷◌ c "/")
with_slash (String.◌∷◌ c (String.◌∷◌ d s)) = elim (with_slash (String.◌∷◌ d s)) [
  | none ↦ none
  | some t ↦ some (String.◌∷◌ c t)
]

-- `dsts[3]` with the slash; `none` where there are fewer pieces.
unfoldable pub dst_dir : List String → Option String
unfolding with_slash
dst_dir (site ∷ dtn ∷ disk ∷ path ∷ rest) = with_slash path
dst_dir _ = none
