-- ===== src/DirTree/Walker.antt =====
-- `DirectoryWalker` of utils/paths/dirwalker.cc: the constructor's walk.
use mathlib.Core.List.{append_assoc, append-nil}
use bigdataexpress_c.Base.{
  ℕ, ◌+◌, ◌%◌, ◌<◌, ◌≡◌, refl, ap, subst, sym, ◌∙◌, Bool, true, false, ◌&&◌, ◌||◌, [], ◌∷◌, ◌++◌,
  if◌then◌else◌, Bool-cases, inl, inr, ◌⊎◌, arith,
}
use bigdataexpress_c.FilePath.{FilePath, is_regular_file, is_directory}
use bigdataexpress_c.PathGroups.{Paths, add_size, size_mod}
use bigdataexpress_c.DirTree.{Forest, none_left, entry}

pub record Walker : Type 0 where
  pub paths : Paths
  pub size : ℕ

-- The constructor throws, and there is no walker.
pub data Walk : Type 0 where
  throws : Walk
  walked : Walker → Walk

abbrev pub then_walk : Walk → (Walker → Walk) → Walk
then_walk throws f = throws
then_walk (walked w) f = f w

unfoldable pub count_path : FilePath → Walker → Walker
count_path p w = record {
  paths = w.paths ++ p ∷ [];
  size = if is_regular_file p then add_size w.size p.size else w.size;
}

module _ (recurse throw_exception : Bool) where
  -- A directory that does not open is passed over, or the walk throws.
  abbrev refused : Walker → Walk
  refused w = if throw_exception then throws else walked w

  unfoldable pub walk : Forest → Walker → Walk
  unfolding count_path is_directory
  walk none_left w = walked w
  walk (entry p opens children rest) w =
      let inside = walk children (count_path p w) in
      then_walk
        (if recurse && is_directory p
          then if opens then inside else refused (count_path p w)
          else walked (count_path p w))
        (walk rest)

  -- The constructor, for a root with its entries.
  unfoldable pub walker : FilePath → Bool → Forest → Walk
  unfolding walk is_directory
  walker root opens children =
      let new : Walker = record { paths = []; size = 0 } in
      if is_directory root && opens then walk children new else refused new

-- The entries that are to be visited, each directory before what is in it.
unfoldable pub listing : Bool → Forest → Paths
listing recurse none_left = []
listing recurse (entry p opens children rest) =
    let inside = listing recurse children in
    p ∷ ((if recurse && is_directory p && opens then inside else []) ++ listing recurse rest)

-- A directory below that does not open.
unfoldable pub blocked : Bool → Forest → Bool
blocked recurse none_left = false
blocked recurse (entry p opens children rest) =
    let inside = blocked recurse children in
    (recurse && is_directory p && (if opens then inside else true)) || blocked recurse rest

abbrev count_paths : Paths → Walker → Walker
count_paths [] w = w
count_paths (p ∷ ps) w = count_paths ps (count_path p w)

count_paths-append :
    (ps qs : Paths) (w : Walker) → count_paths (ps ++ qs) w ≡ count_paths qs (count_paths ps w)
count_paths-append [] qs w = refl
count_paths-append (p ∷ ps) qs w = count_paths-append ps qs (count_path p w)

-- What a walk comes to: the entries in order, unless it meets a directory that does not open and
-- has been told to throw.
abbrev outcome : Bool → Bool → Forest → Walker → Walk
outcome recurse throw_exception f w =
    if throw_exception && blocked recurse f
    then throws
    else walked (count_paths (listing recurse f) w)

walk-outcome :
    (recurse throw_exception : Bool) (f : Forest) (w : Walker)
    → walk recurse throw_exception f w ≡ outcome recurse throw_exception f w
unfolding walk listing blocked
walk-outcome r t none_left w = ground arith
walk-outcome r t (entry p opens children rest) w =
    let met = count_path p w in
    let inside = count_paths (listing r children) met in
    ground (
      arith,
      walk-outcome r t children met,
      walk-outcome r t rest met,
      walk-outcome r t rest inside,
      count_paths-append (listing r children) (listing r rest) met,
    )

count_paths-paths : (ps : Paths) (w : Walker) → (count_paths ps w).paths ≡ w.paths ++ ps
unfolding count_path
count_paths-paths [] w = sym (append-nil w.paths)
count_paths-paths (p ∷ ps) w =
    count_paths-paths ps (count_path p w) ∙ append_assoc w.paths (p ∷ []) ps

-- The bytes of the regular files among some paths.
unfoldable pub regular_sum : Paths → ℕ
regular_sum [] = 0
regular_sum (p ∷ ps) = (if is_regular_file p then p.size else 0) + regular_sum ps

mod_add : (a b : ℕ) → (a % size_mod + b) % size_mod ≡ (a + b) % size_mod
mod_add a b = omega arith

count_path-size :
    (p : FilePath) (w : Walker)
    → w.size < size_mod
    → (count_path p w).size ≡ (w.size + (if is_regular_file p then p.size else 0)) % size_mod
unfolding count_path add_size
count_path-size p w h = ground (arith, h)

count_paths-size :
    (ps : Paths) (w : Walker)
    → w.size < size_mod
    → (count_paths ps w).size ≡ (w.size + regular_sum ps) % size_mod
unfolding regular_sum
count_paths-size [] w h = ground (arith, h)
count_paths-size (p ∷ ps) w h =
    let counted = count_path-size p w h in
    omega (
      arith,
      counted,
      count_paths-size ps (count_path p w) (omega (arith, counted)),
      mod_add (w.size + (if is_regular_file p then p.size else 0)) (regular_sum ps),
    )

-- What the constructor of a walker keeps of its entries, `listed`.
abbrev pub Lists : Paths → Walk → Type 0
Lists listed throws = ⊥
Lists listed (walked w) = (w.paths ≡ listed) × (w.size ≡ regular_sum listed % size_mod)

abbrev fresh : Walker
fresh = record { paths = []; size = 0 }

walker-outcome :
    (recurse throw_exception : Bool) (root : FilePath) (f : Forest)
    → is_directory root ≡ true
    → walker recurse throw_exception root true f ≡ outcome recurse throw_exception f fresh
unfolding walker
walker-outcome r t root f d = ground (arith, d, walk-outcome r t f fresh)

Lists-fresh : (ps : Paths) → Lists ps (walked (count_paths ps fresh))
Lists-fresh ps =
    (count_paths-paths ps fresh, omega (arith, count_paths-size ps fresh (omega arith)))

-- A walker of a directory that opens lists every entry below, or those of the directory only, each
-- directory before what is in it, and its size is that of the regular files among them; but it
-- throws where it is told to and meets a directory that does not open.
pub walker-listing :
    (recurse throw_exception : Bool) (root : FilePath) (f : Forest)
    → is_directory root ≡ true
    → ((throw_exception && blocked recurse f ≡ true)
        × (walker recurse throw_exception root true f ≡ throws))
      ⊎ ((throw_exception && blocked recurse f ≡ false)
          × Lists (listing recurse f) (walker recurse throw_exception root true f))
walker-listing r t root f d =
    let whole = walker-outcome r t root f d in
    let listed = listing r f in
    elim (Bool-cases (t && blocked r f)) [
      | inl e ↦ inl (e, whole ∙ ap (λ b. if b then throws else walked (count_paths listed fresh)) e)
      | inr e ↦ inr (
        e,
        subst (Lists listed)
            (sym (whole ∙ ap (λ b. if b then throws else walked (count_paths listed fresh)) e))
            (Lists-fresh listed),
      )
    ]
