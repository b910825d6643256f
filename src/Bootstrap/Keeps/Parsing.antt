-- ===== src/Bootstrap/Keeps/Parsing.antt =====
-- What the parsing of a raw job leaves of the site store, and the blocks that it makes.
use bigdataexpress_c.Base.{
  ◌⊎◌, inl, inr, ℕ, String, ◌≡◌, refl, ap, true, Option, none, some, List, [], ◌∷◌, str_eq,
  if_cases, All, arith, ◌==◌, ◌&&◌,
}
use bigdataexpress_c.Base.Int.{ℤ, pos, ◌+ℤ◌, eqb_ℤ}
use bigdataexpress_c.Base.Keyed.{Keyed, is_some, emplace, lookup}
use bigdataexpress_c.Store.{Rawjob, BlockFiles, DatasetFile, UserCert, get_user_keys}
use bigdataexpress_c.Store.Ledger.{total_tx}
use bigdataexpress_c.Bootstrap.{
  BootEnv, Boot, Answer, gives, fails, crashes, B, crash, get, ◌>>=◌, Group, ExpandReply,
}
use bigdataexpress_c.Bootstrap.Paths.{FileId, parse_id, split, is_comma, is_bar, dst_dir}
use bigdataexpress_c.Bootstrap.Sources.{
  Source, Sources, no_sources, dtn_info, gather_file, add_item, put_entry, collect,
}
use bigdataexpress_c.Bootstrap.Expand.{
  Draft, unsigned, site_url, entry_of, entry_in, base_rate, insert_block, insert_groups, on_groups,
  expand, Entry, single_block, each, record_size, parse_raw_job_src, parse_raw_job_src_ds,
}
use bigdataexpress_c.Bootstrap.Run.{
  create_raw_job_proxy_cert, save_certs, put_certs, parse_raw_job_dst, ask_dst, parse_source, Dst,
}
use bigdataexpress_c.Bootstrap.Keeps.{
  Same, Keeps, Anything, bind-Keeps, pure-Keeps, refuse-Keeps, crash-Keeps, get-Keeps, ask-Keeps,
  draw-Keeps, if-Keeps, update_rawjob-Keeps, Holds, blocks-Keeps,
}

-- No proxy is made of the user's certificate for one of the two sites.
abbrev pub NoProxy : BootEnv → Rawjob → Boot → Type 0
NoProxy env r s =
    (c : UserCert) × (env.proxy_cert c.key c.cert ≡ none)
    × ((get_user_keys r.request.user r.src_site s.store ≡ some c)
        ⊎ (get_user_keys r.request.user r.dst_site s.store ≡ some c))

module _ (env : BootEnv) (id : String) where
  put_certs-Same :
      (src dst : UserCert) (p q : Option (String × String)) (s : Boot)
      → Same s (put_certs env id src dst p q s).1
  put_certs-Same src dst none q s = (crash-Keeps {P = Anything} tt).same s
  put_certs-Same src dst (some p) none s = (crash-Keeps {P = Anything} tt).same s
  put_certs-Same src dst (some p) (some q) s =
      (bind-Keeps {F = Unit} (update_rawjob-Keeps id _ (λ r. refl))
          (λ done h. update_rawjob-Keeps id _ (λ r. refl))).same
        s

  save_certs-Same : (src dst : Option UserCert) (s : Boot) → Same s (save_certs env id src dst s).1
  save_certs-Same none dst s = (refuse-Keeps {F = Unit} {P = Anything} _).same s
  save_certs-Same (some src) none s = (refuse-Keeps {F = Unit} {P = Anything} _).same s
  save_certs-Same (some src) (some dst) s = put_certs-Same src dst _ _ s

  module _ (F : Type 0) (s : Boot) where
    put_certs-Holds :
        (src dst : UserCert) (p q : Option (String × String))
        → (p ≡ none → F)
        → (q ≡ none → F)
        → Holds F Anything (put_certs env id src dst p q s).0
    unfolding crash
    put_certs-Holds src dst none q f g = f refl
    put_certs-Holds src dst (some p) none f g = g refl
    put_certs-Holds src dst (some p) (some q) f g =
        (bind-Keeps {F = F} {P = Anything} {Q = Anything} (update_rawjob-Keeps id _ (λ r. refl))
            (λ done h. update_rawjob-Keeps id _ (λ r. refl))).holds
          s

    save_certs-Holds :
        (src dst : Option UserCert)
        → ((c : UserCert) → src ≡ some c → env.proxy_cert c.key c.cert ≡ none → F)
        → ((c : UserCert) → dst ≡ some c → env.proxy_cert c.key c.cert ≡ none → F)
        → Holds F Anything (save_certs env id src dst s).0
    save_certs-Holds none dst f g = (refuse-Keeps {F = F} {P = Anything} _).holds s
    save_certs-Holds (some src) none f g = (refuse-Keeps {F = F} {P = Anything} _).holds s
    save_certs-Holds (some src) (some dst) f g =
        put_certs-Holds src dst _ _ (f src refl) (g dst refl)

module _ (env : BootEnv) (r : Rawjob) (s : Boot) where
  pub create_raw_job_proxy_cert-Same : Same s (create_raw_job_proxy_cert env r s).1
  unfolding create_raw_job_proxy_cert get ◌>>=◌
  create_raw_job_proxy_cert-Same = save_certs-Same env r.id _ _ s

  pub create_raw_job_proxy_cert-Holds :
      Holds (NoProxy env r s) Anything (create_raw_job_proxy_cert env r s).0
  unfolding create_raw_job_proxy_cert get ◌>>=◌
  create_raw_job_proxy_cert-Holds =
      save_certs-Holds env r.id (NoProxy env r s) s _ _ (λ c e none_made. (c, none_made, inl e))
        (λ c e none_made. (c, none_made, inr e))

module _ (F : Type 0) (env : BootEnv) where
  ask_dst-Keeps :
      (dst_site : String) (f : Option FileId) → Keeps F Anything (ask_dst env dst_site f)
  unfolding ask_dst
  ask_dst-Keeps dst_site none = refuse-Keeps _
  ask_dst-Keeps dst_site (some f) =
      if-Keeps (str_eq dst_site f.site)
        (bind-Keeps get-Keeps (λ s h.
          bind-Keeps (ask-Keeps _ _)
            (λ r k. if-Keeps (r.status == 200) (pure-Keeps _ tt) (refuse-Keeps _))))
        (refuse-Keeps _)

  pub parse_raw_job_dst-Keeps : (r : Rawjob) → Keeps F Anything (parse_raw_job_dst env r)
  unfolding parse_raw_job_dst
  parse_raw_job_dst-Keeps r = ask_dst-Keeps r.dst_site (parse_id r.request.dst_file)

  dtn_info-Keeps :
      (url site dtn : String) (known : Keyed String)
      → Keeps F Anything (dtn_info env url site dtn known)
  unfolding dtn_info
  dtn_info-Keeps url site dtn known = if-Keeps (is_some (lookup dtn known)) (pure-Keeps _ tt) (
      bind-Keeps (ask-Keeps _ _)
        (λ r h. if-Keeps (r.status == 200) (pure-Keeps _ tt) (refuse-Keeps _)))

  module _ {P : Type 0} (url site : String) where
    put_entry-Keeps :
        (f : FileId) (entry : Answer P) (acc : Sources P) (known : Keyed String)
        → Holds F Anything entry
        → Keeps F Anything (put_entry env url site f entry acc known)
    put_entry-Keeps f (gives p) acc known h = pure-Keeps _ tt
    put_entry-Keeps f (fails e) acc known h = refuse-Keeps _
    put_entry-Keeps f crashes acc known h = crash-Keeps h

    add_item-Keeps :
        (f : Option FileId) (entry : String → Answer P) (acc : Sources P)
        → ((path : String) → Holds F Anything (entry path))
        → Keeps F Anything (add_item env url site f entry acc)
    unfolding add_item gather_file
    add_item-Keeps none entry acc h = refuse-Keeps _
    add_item-Keeps (some f) entry acc h =
        if-Keeps (str_eq site f.site)
          (bind-Keeps (dtn_info-Keeps url site f.dtn acc.dtninfo)
            (λ known k. put_entry-Keeps f (entry f.path) acc known (h f.path)))
          (refuse-Keeps _)

    pub collect-Keeps :
        {A : Type 0} (text : A → String) (entry : A → String → Answer P) (xs : List A)
        (acc : Sources P)
        → All (λ x. (path : String) → Holds F Anything (entry x path)) xs
        → Keeps F Anything (collect env url site text entry xs acc)
    unfolding collect
    collect-Keeps text entry [] acc h = pure-Keeps _ tt
    collect-Keeps text entry (x ∷ xs) acc h =
        bind-Keeps (add_item-Keeps (parse_id (text x)) (entry x) acc h.0)
          (λ next k. collect-Keeps text entry xs next h.1)

is_zero : (n : ℕ) → (n == 0) ≡ true → n ≡ 0
is_zero n h = ground arith

-- Nothing of the blocks of a draft has been sent.
abbrev pub Fresh : Draft → Type 0
Fresh d = total_tx d.blocks ≡ pos 0

zero_sum : (n : ℤ) → n ≡ pos 0 → pos 0 +ℤ n ≡ pos 0
unfolding ◌+ℤ◌
zero_sum n h = ap (λ m. pos 0 +ℤ m) h

module _ (F : Type 0) (env : BootEnv) where
  base_rate-Keeps :
      (size : ℕ) (deadline : ℤ)
      → (unsigned deadline ≡ 0 → F)
      → Keeps F Anything (base_rate size deadline)
  unfolding base_rate
  base_rate-Keeps size deadline fatal =
      if_cases (Keeps F Anything) (unsigned deadline == 0)
        (λ e. crash-Keeps (fatal (is_zero (unsigned deadline) e))) (λ _. pure-Keeps _ tt)

  insert_block-Keeps : (files : BlockFiles) → Keeps F Anything (insert_block env files)
  unfolding insert_block
  insert_block-Keeps files = bind-Keeps (draw-Keeps env) (λ id h.
      bind-Keeps (blocks-Keeps (λ db. emplace id files db.block_files)) (λ done k. pure-Keeps _ tt))

  insert_groups-Keeps :
      (gs : List Group) → Keeps F (λ blocks. total_tx blocks ≡ pos 0) (insert_groups env gs)
  unfolding insert_groups
  insert_groups-Keeps [] = pure-Keeps _ refl
  insert_groups-Keeps (g ∷ gs) =
      bind-Keeps (insert_block-Keeps _)
        (λ id h. bind-Keeps (insert_groups-Keeps gs) (λ blocks k. pure-Keeps _ (zero_sum _ k)))

  on_groups-Keeps :
      (deadline : ℤ) (src : Source String) (r : ExpandReply)
      → (unsigned deadline ≡ 0 → F)
      → Keeps F Fresh (on_groups env deadline src r)
  unfolding on_groups
  on_groups-Keeps deadline src r fatal =
      if-Keeps (r.status == 200)
        (if-Keeps (str_eq r.error "OK" && eqb_ℤ r.code (pos 0))
          (bind-Keeps (base_rate-Keeps r.total_size deadline fatal)
            (λ rate h. bind-Keeps (insert_groups-Keeps r.groups) (λ blocks k. pure-Keeps _ k)))
          (refuse-Keeps _))
        (refuse-Keeps _)

  expand-Keeps :
      (url dst_path : String) (deadline : ℤ) (src : Source String)
      → (unsigned deadline ≡ 0 → F)
      → Keeps F Fresh (expand env url dst_path deadline src)
  unfolding expand
  expand-Keeps url dst_path deadline src fatal =
      bind-Keeps (ask-Keeps _ _) (λ r h. on_groups-Keeps deadline src r fatal)

  single_block-Keeps :
      (deadline : ℤ) (src : Source Entry)
      → (unsigned deadline ≡ 0 → F)
      → Keeps F Fresh (single_block env deadline src)
  unfolding single_block
  single_block-Keeps deadline src fatal = bind-Keeps (insert_block-Keeps _) (λ id h.
      bind-Keeps (base_rate-Keeps _ deadline fatal) (λ rate k. pure-Keeps _ (zero_sum _ refl)))

  each-Keeps :
      {P : Type 0} (f : Source P → B Draft) (m : Keyed (Source P))
      → ((src : Source P) → Keeps F Fresh (f src))
      → Keeps F (All Fresh) (each f m)
  unfolding each
  each-Keeps f [] h = pure-Keeps _ tt
  each-Keeps f ((storage, src) ∷ m) h =
      bind-Keeps (h src)
        (λ draft fresh. bind-Keeps (each-Keeps f m h) (λ drafts rest. pure-Keeps _ (fresh, rest)))

  record_size-Keeps :
      (id : String) (drafts : List Draft)
      → All Fresh drafts
      → Keeps F (All Fresh) (record_size env id drafts)
  record_size-Keeps id drafts h =
      bind-Keeps (update_rawjob-Keeps id _ (λ r. refl)) (λ done k. pure-Keeps _ h)

-- The ways to end of a data set, whose destinations the code takes apart without a test, and of
-- every job: a file of it, or the deadline.
abbrev pub SomeBad : List DatasetFile → Type 0
SomeBad [] = ⊥
SomeBad (f ∷ fs) = (dst_dir (split is_bar f.dst) ≡ none) ⊎ SomeBad fs

abbrev pub Fatal : Rawjob → Type 0
Fatal r = (unsigned r.request.deadline ≡ 0) ⊎ ((r.request.dataset ≡ true) × SomeBad r.request.files)

module _ (F : Type 0) where
  entry_in-Holds :
      (f : DatasetFile) (path : String) (dir : Option String)
      → (dir ≡ none → F)
      → Holds F Anything (entry_in f path dir)
  entry_in-Holds f path none fatal = fatal refl
  entry_in-Holds f path (some dir) fatal = tt

  entry_of-Holds :
      (f : DatasetFile) (path : String)
      → (dst_dir (split is_bar f.dst) ≡ none → F)
      → Holds F Anything (entry_of f path)
  unfolding entry_of
  entry_of-Holds f path fatal = entry_in-Holds f path (dst_dir (split is_bar f.dst)) fatal

  entries-All :
      (fs : List DatasetFile)
      → (SomeBad fs → F)
      → All (λ f. (path : String) → Holds F Anything (entry_of f path)) fs
  entries-All [] fatal = tt
  entries-All (f ∷ fs) fatal =
      (λ path. entry_of-Holds f path (λ e. fatal (inl e)), entries-All fs (λ b. fatal (inr b)))

  texts-All : (xs : List String) → All (λ x. (path : String) → Holds F Anything (gives path)) xs
  texts-All [] = tt
  texts-All (x ∷ xs) = (λ path. tt, texts-All xs)

module _ (env : BootEnv) (r : Rawjob) where
  of_files : r.request.dataset ≡ true → Keeps (Fatal r) (All Fresh) (parse_raw_job_src_ds env r)
  unfolding parse_raw_job_src_ds
  of_files is_dataset = bind-Keeps get-Keeps (λ s h.
      bind-Keeps
        (collect-Keeps (Fatal r) env (site_url r.src_site s) r.src_site (λ file. file.src) entry_of
          r.request.files no_sources
          (entries-All (Fatal r) r.request.files (λ b. inr (is_dataset, b))))
        (λ acc k.
          bind-Keeps
            (each-Keeps (Fatal r) env _ acc.smap
              (λ src. single_block-Keeps (Fatal r) env r.request.deadline src inl))
            (λ drafts fresh. record_size-Keeps (Fatal r) env r.id drafts fresh)))

  of_paths : (dst_path : String) → Keeps (Fatal r) (All Fresh) (parse_raw_job_src env r dst_path)
  unfolding parse_raw_job_src
  of_paths dst_path = bind-Keeps get-Keeps (λ s h.
      bind-Keeps
        (collect-Keeps (Fatal r) env (site_url r.src_site s) r.src_site (λ text. text)
          (λ text path. gives path) (split is_comma r.request.src_file) no_sources
          (texts-All (Fatal r) (split is_comma r.request.src_file)))
        (λ acc k.
          bind-Keeps
            (each-Keeps (Fatal r) env _ acc.smap (λ src.
              expand-Keeps (Fatal r) env (site_url r.src_site s) dst_path r.request.deadline src
                inl))
            (λ drafts fresh. record_size-Keeps (Fatal r) env r.id drafts fresh)))

  pub parse_source-Keeps : (dst : Dst) → Keeps (Fatal r) (All Fresh) (parse_source env r dst)
  unfolding parse_source
  parse_source-Keeps dst =
      if_cases (Keeps (Fatal r) (All Fresh)) r.request.dataset of_files (λ _. of_paths dst.path)
