-- ===== src/GridMap/Words.antt =====
-- The walks of utils/grid-mapfile.cc on the lines that a push writes: a name between quotes, a
-- space, a user.
use Prim.Native.Char.{Char}
use Prim.Native.String.append
use bigdataexpress_c.Base.{
  String, str_append, sym, subst, ◌≡◌, ◌≢◌, refl, ap, ◌∙◌, Bool, false, ◌||◌, List, [], ◌∷◌, arith,
}
use bigdataexpress_c.GridMap.Text.{
  is_space, is_quote, is_newline, trim_left, before_trimmed, trim_right, trim, keep, pieces,
  split_string, before_lines, break_lines,
}

-- No character of a text passes a test.
abbrev pub Without : (Char → Bool) → String → Type 0
Without sep String.[] = Unit
Without sep (String.◌∷◌ c s) = (sep c ≡ false) × Without sep s

-- No spaces outside, and no empty text.
abbrev pub Trimmed : String → Type 0
Trimmed s = (trim_left s ≡ s) × (trim_right s ≡ s) × (s ≢ "")

pub cons-full : (c : Char) (s : String) → String.◌∷◌ c s ≢ ""
cons-full c s e = cc

before_trimmed_full : (c : Char) (s : String) → s ≢ "" → before_trimmed c s ≡ String.◌∷◌ c s
unfolding before_trimmed
before_trimmed_full c String.[] n = absurd (n refl)
before_trimmed_full c (String.◌∷◌ d s) n = refl

append-full : (s t : String) → t ≢ "" → str_append s t ≢ ""
append-full String.[] t n e = n (sym (append.nil t) ∙ e)
append-full (String.◌∷◌ c s) t n e = cons-full c (str_append s t) (sym (append.cons c s t) ∙ e)

pub pieces-Without :
    (sep : Char → Bool) (s t : String)
    → Without sep s
    → pieces sep (str_append s t) ≡ (str_append s (pieces sep t).0, (pieces sep t).1)
unfolding pieces
pieces-Without sep String.[] t h = ground (arith, append.nil t, append.nil (pieces sep t).0)
pieces-Without sep (String.◌∷◌ c s) t h =
    ground
      (arith, h.0, append.cons c s t, append.cons c s (pieces sep t).0, pieces-Without sep s t h.1)

trim_right-append :
    (s t : String) → trim_right t ≡ t → t ≢ "" → trim_right (str_append s t) ≡ str_append s t
unfolding trim_right
trim_right-append String.[] t h n = ground (arith, h, append.nil t)
trim_right-append (String.◌∷◌ c s) t h n = ground (
  arith,
  append.cons c s t,
  trim_right-append s t h n,
  before_trimmed_full c (str_append s t) (append-full s t n),
)

break_lines-Without : (s : String) → Without is_newline s → break_lines s ≡ s ∷ []
unfolding break_lines before_lines
break_lines-Without String.[] h = refl
break_lines-Without (String.◌∷◌ c s) h = ground (arith, h.0, break_lines-Without s h.1)

trim_left-open : (t : String) → trim_left (str_append "\"" t) ≡ str_append "\"" t
unfolding trim_left is_space
trim_left-open t = ground (arith, append.cons "\"" "" t, append.nil t)

pub trim-space : (v : String) → Trimmed v → trim (str_append " " v) ≡ v
unfolding trim trim_left is_space
trim-space v h = ground (arith, append.cons " " "" v, append.nil v, h.0, h.1)

-- What ends with a trimmed text is as it is behind a quote.
abbrev pub Closed : String → Type 0
Closed t = (trim_right t ≡ t) × (t ≢ "")

pub append-Closed : (s t : String) → Closed t → Closed (str_append s t)
append-Closed s t h = (trim_right-append s t h.0 h.1, append-full s t h.1)

pub trim-quoted : (t : String) → Closed t → trim (str_append "\"" t) ≡ str_append "\"" t
unfolding trim
trim-quoted t h = ap trim_right (trim_left-open t) ∙ (append-Closed "\"" t h).0

-- What ends a piece of a line that is split at its quotes.
abbrev pub ends : Char → Bool
ends c = is_quote c || is_newline c

pieces-quote :
    (t : String) → pieces ends (str_append "\"" t) ≡ ("", keep (pieces ends t).0 (pieces ends t).1)
unfolding pieces is_quote is_newline
pieces-quote t = ground (arith, append.cons "\"" "" t, append.nil t)

pieces_whole : (v : String) → Without ends v → pieces ends v ≡ (v, [])
unfolding pieces
pieces_whole String.[] h = refl
pieces_whole (String.◌∷◌ c v) h = ground (arith, h.0, pieces_whole v h.1)

keep_full : (k : String) (v : List String) → k ≢ "" → keep k v ≡ k ∷ v
unfolding keep
keep_full String.[] v n = absurd (n refl)
keep_full (String.◌∷◌ c k) v n = refl

append_nil : (k : String) → str_append k "" ≡ k
append_nil String.[] = append.nil ""
append_nil (String.◌∷◌ c k) = append.cons c k "" ∙ ap (String.◌∷◌ c) (append_nil k)

-- The pieces of a quoted name and what stands behind it.
pub split_string-quoted :
    (k v : String)
    → Without ends k
    → Without ends v
    → k ≢ ""
    → v ≢ ""
    → split_string is_quote (str_append "\"" (str_append k (str_append "\"" v))) ≡ k ∷ v ∷ []
unfolding split_string keep
split_string-quoted k v hk hv nk nv =
    ap (λ p. keep p.0 p.1) (pieces-quote (str_append k (str_append "\"" v)))
    ∙ ap (λ p. keep p.0 p.1) (pieces-Without ends k (str_append "\"" v) hk)
    ∙ ap (λ p. keep (str_append k p.0) p.1) (pieces-quote v)
    ∙ ap (λ p. keep (str_append k "") (keep p.0 p.1)) (pieces_whole v hv)
    ∙ ap (λ s. keep s (keep v [])) (append_nil k)
    ∙ keep_full k (keep v []) nk
    ∙ ap (λ ws. k ∷ ws) (keep_full v [] nv)

pub space-Without : (v : String) → Without ends v → Without ends (str_append " " v)
unfolding is_quote is_newline
space-Without v h =
    subst (Without ends) (sym (append.cons " " "" v ∙ ap (String.◌∷◌ " ") (append.nil v))) (refl, h)

Without-append :
    (sep : Char → Bool) (s t : String)
    → Without sep s
    → Without sep t
    → Without sep (str_append s t)
Without-append sep String.[] t h k = subst (Without sep) (sym (append.nil t)) k
Without-append sep (String.◌∷◌ c s) t h k =
    subst (Without sep) (sym (append.cons c s t)) (h.0, Without-append sep s t h.1 k)

newline-Without : (s : String) → Without ends s → Without is_newline s
newline-Without String.[] h = tt
newline-Without (String.◌∷◌ c s) h = (ground (arith, h.0), newline-Without s h.1)

-- A quoted name and what stands behind it are one line.
pub break_lines-quoted :
    (k v : String)
    → Without ends k
    → Without ends v
    → break_lines (str_append "\"" (str_append k (str_append "\"" v)))
      ≡ str_append "\"" (str_append k (str_append "\"" v)) ∷ []
unfolding is_newline
break_lines-quoted k v hk hv =
    break_lines-Without (str_append "\"" (str_append k (str_append "\"" v))) (
      Without-append is_newline "\"" (str_append k (str_append "\"" v)) (refl, tt)
        (Without-append is_newline k (str_append "\"" v) (newline-Without k hk)
          (Without-append is_newline "\"" v (refl, tt) (newline-Without v hv))))
