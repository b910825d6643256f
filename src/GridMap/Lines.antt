-- ===== src/GridMap/Lines.antt =====
-- How utils/grid-mapfile.cc reads a line that a push has written.
use Prim.Native.String.append
use bigdataexpress_c.Base.{String, str_append, ◌≡◌, ◌≢◌, ap, ◌∙◌, eq_iff, arith}
use bigdataexpress_c.GridMap.Text.{is_prefix, is_quote, split_string}
use bigdataexpress_c.GridMap.Words.{
  Without, Trimmed, ends, trim-space, trim-quoted, split_string-quoted, Closed, append-Closed,
  space-Without,
}
use bigdataexpress_c.GridMap.{
  gives, Reading, add_entry, switch_section, read_quoted, read_trimmed, read_line, quoted_line,
}

-- An entry whose line can be read: a name with no quote or newline, a user that has besides no
-- spaces outside; neither is empty.
pub record Readable (e : String × String) : Type 0 where
  pub name_plain : Without ends e.0
  pub name_full : e.0 ≢ ""
  pub user_plain : Without ends e.1
  pub user_trimmed : Trimmed e.1

switch_section-quoted : (s : String) (r : Reading) → switch_section (str_append "\"" s) r ≡ r
unfolding switch_section is_prefix
switch_section-quoted s r = ground (arith, append.cons "\"" "" s, append.nil s)

read_trimmed-quoted :
    (s : String) (r : Reading)
    → Closed s
    → read_trimmed (str_append "\"" s) r ≡ read_quoted (split_string is_quote (str_append "\"" s)) r
unfolding read_trimmed is_prefix
read_trimmed-quoted s r h = ground (
  arith,
  eq_iff (str_append "\"" s) "",
  (append-Closed "\"" s h).1,
  append.cons "\"" "" s,
  append.nil s,
)

read_line-quoted :
    (s : String) (r : Reading)
    → Closed s
    → read_line (str_append "\"" s) r ≡ read_quoted (split_string is_quote (str_append "\"" s)) r
unfolding read_line
read_line-quoted s r h =
    ap (λ t. read_trimmed t (switch_section t r)) (trim-quoted s h)
    ∙ ap (read_trimmed (str_append "\"" s)) (switch_section-quoted s r)
    ∙ read_trimmed-quoted s r h

pub read_line-quoted_line :
    (e : String × String) (r : Reading)
    → Readable e
    → read_line (quoted_line e) r ≡ gives (add_entry e r)
unfolding read_quoted
read_line-quoted_line (k, v) r h =
    let user = str_append " " v in
    let closed = append-Closed " " v (h.user_trimmed.1, h.user_trimmed.2) in
    read_line-quoted (str_append k (str_append "\"" user)) r
      (append-Closed k (str_append "\"" user) (append-Closed "\"" user closed))
    ∙ ap (λ ws. read_quoted ws r)
        (split_string-quoted k user h.name_plain (space-Without v h.user_plain) h.name_full
          closed.1)
    ∙ ap (λ u. gives (add_entry (k, u) r)) (trim-space v h.user_trimmed)
