-- ===== src/Bootstrap/Gathers.antt =====
-- The gathering of files by storage, against a filter of the files.
use bigdataexpress_c.Base.{
  ℕ, String, ◌≡◌, refl, sym, ap, ◌∙◌, Bool, true, false, Option, none, some, List, [], ◌∷◌, ◌++◌,
  ◌==◌, str_eq, if◌then◌else◌, if_cases, All, arith, eq_iff, subst,
}
use mathlib.Core.List.{append-nil, append_assoc}
use bigdataexpress_c.Base.Keyed.{
  Keyed, lookup, emplace, is_some, or_else, Unique, Unique-emplace, Unique-update, lookup-emplace,
  lookup-update, map_option,
}
use bigdataexpress_c.Bootstrap.{Ask, BootEnv, Answer, gives}
use bigdataexpress_c.Bootstrap.Yields.{
  Yields, Any, bind-Yields, pure-Yields, ask-Yields, true-Yields, weaker,
}
use bigdataexpress_c.Bootstrap.Paths.{FileId, parse_id, storage_of}
use bigdataexpress_c.Bootstrap.Sources.{
  Source, Sources, dtn_info, append_path, new_source, put_entry, gather_file, add_item, collect,
}

-- Every answer of a portal has the status 200.
abbrev pub Reached : BootEnv → Type 0
Reached env = (asked : List Ask) → (env.info_reply asked).status ≡ 200

status_200 : (n : ℕ) → n ≡ 200 → (n == 200) ≡ true
status_200 n h = ground arith

dtn_info-Yields :
    (env : BootEnv) (url site dtn : String) (known : Keyed String)
    → Reached env
    → Yields Any (dtn_info env url site dtn known)
unfolding dtn_info
dtn_info-Yields env url site dtn known reached =
    if_cases (Yields Any) (is_some (lookup dtn known)) (λ _. pure-Yields _ tt)
      (λ _.
        bind-Yields {P = λ r. r.status ≡ 200} (ask-Yields env.info_reply _ reached)
          (λ r h. true-Yields _ (r.status == 200) (status_200 r.status h) (pure-Yields _ tt)))

module _ {P : Type 0} where
  abbrev pub paths_of : Option (Source P) → List P
  paths_of none = []
  paths_of (some s) = s.paths

  abbrev pub paths_at : String → Keyed (Source P) → List P
  paths_at k m = paths_of (lookup k m)

  abbrev pub entry_list : Answer P → List P
  entry_list (gives p) = p ∷ []
  entry_list _ = []

  abbrev pub entry_at : String → Option FileId → (String → Answer P) → List P
  entry_at k none entry = []
  entry_at k (some f) entry = if str_eq (storage_of f) k then entry_list (entry f.path) else []

  -- The entries of the files of a storage, in the order of the files.
  abbrev pub entries :
      {A : Type 0} → String → (A → String) → (A → String → Answer P) → List A → List P
  entries k text entry [] = []
  entries k text entry (x ∷ xs) =
      entry_at k (parse_id (text x)) (entry x) ++ entries k text entry xs

  -- An identifier with four pieces, of this site, whose entry can be made.
  abbrev pub IsFile : String → Option FileId → (String → Answer P) → Type 0
  IsFile site none entry = ⊥
  IsFile site (some f) entry = (str_eq site f.site ≡ true) × ((p : P) × (entry f.path ≡ gives p))

  abbrev push : P → Source P → Source P
  push p s = record s { paths = s.paths ++ p ∷ [] }

  pushed :
      (p : P) (new : Source P) (b : Bool) (own found : Option (Source P))
      → new.paths ≡ []
      → (b ≡ true → own ≡ found)
      → paths_of (
          if b
          then map_option (push p) (if b then some (or_else own new) else found)
          else if b
          then some (or_else own new)
          else found)
        ≡ paths_of found ++ (if b then p ∷ [] else [])
  pushed p new false own found e h = sym (append-nil (paths_of found))
  pushed p new true none found e h =
      subst (λ o. new.paths ++ p ∷ [] ≡ paths_of o ++ p ∷ []) (h refl) (ap (λ ps. ps ++ p ∷ []) e)
  pushed p new true (some s) found e h =
      subst (λ o. s.paths ++ p ∷ [] ≡ paths_of o ++ p ∷ []) (h refl) refl

  module _ (env : BootEnv) (url site : String) where
    paths_at-append_path :
        (f : FileId) (known : Keyed String) (p : P) (k : String) (m : Keyed (Source P))
        → paths_at k (append_path env url site f known p m)
          ≡ paths_at k m ++ (if str_eq (storage_of f) k then p ∷ [] else [])
    paths_at-append_path f known p k m =
        let new = new_source env url site f known in
        let own = storage_of f in
        ap paths_of (
          lookup-update own k (push p) (emplace own new m)
          ∙ ap (λ o. if str_eq own k then map_option (push p) o else o)
              (lookup-emplace own k new m))
        ∙ pushed p new (str_eq own k) (lookup own m) (lookup k m) refl
            (λ e. ap (λ i. lookup i m) ((eq_iff own k).0 e))

    -- What one file adds.
    abbrev pub Appends : Option FileId → (String → Answer P) → Sources P → Sources P → Type 0
    Appends none entry acc next = ⊥
    Appends (some f) entry acc next =
        (known : Keyed String) × (p : P) × (entry f.path ≡ gives p)
        × (next ≡ record { smap = append_path env url site f known p acc.smap; dtninfo = known })

    put_entry-Yields :
        (f : FileId) (entry : String → Answer P) (p : P) (acc : Sources P) (known : Keyed String)
        → entry f.path ≡ gives p
        → Yields (Appends (some f) entry acc) (put_entry env url site f (entry f.path) acc known)
    put_entry-Yields f entry p acc known e =
        subst (λ a. Yields (Appends (some f) entry acc) (put_entry env url site f a acc known))
          (sym e) (pure-Yields _ (known, p, e, refl))

    pub add_item-Yields :
        (f : Option FileId) (entry : String → Answer P) (acc : Sources P)
        → Reached env
        → IsFile site f entry
        → Yields (Appends f entry acc) (add_item env url site f entry acc)
    unfolding add_item gather_file
    add_item-Yields none entry acc reached h = absurd h
    add_item-Yields (some f) entry acc reached (here, (p, e)) =
        true-Yields _ (str_eq site f.site) here (
          bind-Yields (dtn_info-Yields env url site f.dtn acc.dtninfo reached)
            (λ known k. put_entry-Yields f entry p acc known e))

    -- To the entries of each storage, and to no storage twice.
    abbrev pub Adds : (String → List P) → Keyed (Source P) → Sources P → Type 0
    Adds added m acc =
        ((k : String) → paths_at k acc.smap ≡ paths_at k m ++ added k)
        × (Unique m → Unique acc.smap)

    Appends-Adds :
        (f : Option FileId) (entry : String → Answer P) (acc next : Sources P)
        → Appends f entry acc next
        → Adds (λ k. entry_at k f entry) acc.smap next
    Appends-Adds none entry acc next h = absurd h
    Appends-Adds (some f) entry acc next (known, p, e, is_next) =
        subst (λ n. Adds (λ k. entry_at k (some f) entry) acc.smap n) (sym is_next)
          (
            (λ k.
                paths_at-append_path f known p k acc.smap
                ∙ ap
                    (λ a.
                      paths_at k acc.smap ++ (if str_eq (storage_of f) k then entry_list a else []))
                    (sym e)),
            (λ u.
                Unique-update (storage_of f) (push p) _
                  (Unique-emplace (storage_of f) _ acc.smap u)),
          )

    -- Where the portals answer with the status 200 and every file is of the site and has an entry, the
    -- loop gives an answer: each storage has the entries of its files, in order, after those that it
    -- had, and no storage comes to stand there twice.
    pub collect-Yields :
        {A : Type 0} (text : A → String) (entry : A → String → Answer P) (xs : List A)
        (acc : Sources P)
        → Reached env
        → All (λ x. IsFile site (parse_id (text x)) (entry x)) xs
        → Yields
            (Adds (λ k. entries k text entry xs) acc.smap)
            (collect env url site text entry xs acc)
    unfolding collect
    collect-Yields text entry [] acc reached h =
        pure-Yields _ ((λ k. sym (append-nil (paths_at k acc.smap))), (λ u. u))
    collect-Yields text entry (x ∷ xs) acc reached h =
        bind-Yields (add_item-Yields (parse_id (text x)) (entry x) acc reached h.0) (λ next it.
          let one = Appends-Adds (parse_id (text x)) (entry x) acc next it in
          weaker (collect-Yields text entry xs next reached h.1) (λ last rest. (
            (λ k.
                rest.0 k
                ∙ ap (λ ps. ps ++ entries k text entry xs) (one.0 k)
                ∙ append_assoc (paths_at k acc.smap) (entry_at k (parse_id (text x)) (entry x))
                    (entries k text entry xs)),
            (λ u. rest.1 (one.1 u)),
          )))
