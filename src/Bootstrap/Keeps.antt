-- ===== src/Bootstrap/Keeps.antt =====
-- What an action leaves of the site store, and rules to show it.
pub mod Parsing
use bigdataexpress_c.Base.{
  ℕ, String, ◌≡◌, refl, sym, ap, ◌∙◌, Bool, true, false, Option, none, some, List, [], ◌∷◌, str_eq,
  if_cases, All, arith, ◌==◌, ◌&&◌, if◌then◌else◌,
}
use bigdataexpress_c.Base.Int.{ℤ, pos, ◌+ℤ◌, int_laws, eqb_ℤ}
use bigdataexpress_c.Base.Keyed.{Keyed, is_some, emplace, lookup}
use bigdataexpress_c.Store.{
  Database, Block, Rawjob, find_one, update_one, update_rawjob, get_rawjob_from_id, BlockFiles,
  DatasetFile, UserCert,
}
use bigdataexpress_c.Store.Ledger.{total_tx}
use bigdataexpress_c.Bootstrap.{
  Ask, BootEnv, Boot, Answer, gives, fails, crashes, B, pure, refuse, crash, ◌>>=◌, ◌>>◌, on_answer,
  write_store, get, ask, draw, Group, ExpandReply,
}
use bigdataexpress_c.Bootstrap.Paths.{FileId, parse_id}
use bigdataexpress_c.Bootstrap.Sources.{
  Source, Sources, dtn_info, gather_file, add_item, put_entry, collect,
}
use bigdataexpress_c.Bootstrap.Expand.{
  Draft, base_rate, insert_block, insert_groups, on_groups, expand, Entry, single_block, each,
  record_size, parse_raw_job_src, parse_raw_job_src_ds,
}
use bigdataexpress_c.Bootstrap.Run.{
  create_raw_job_proxy_cert, save_certs, parse_raw_job_dst, ask_dst, on_info, parse_source, Dst,
}

-- The same jobs, and the same raw jobs to be found.
pub record Same (s t : Boot) : Type 0 where
  pub same_sjobs : t.store.sjobs ≡ s.store.sjobs
  pub same_found :
      (id : String)
      → is_some (get_rawjob_from_id id t.store) ≡ is_some (get_rawjob_from_id id s.store)

pub Same-refl : (s : Boot) → Same s s
Same-refl s = record { same_sjobs = refl; same_found = λ id. refl }

pub Same-trans : {s t u : Boot} → Same s t → Same t u → Same s u
Same-trans p q = record {
  same_sjobs = q.same_sjobs ∙ p.same_sjobs;
  same_found = λ id. q.same_found id ∙ p.same_found id;
}

-- What holds of an answer: P where one is given, and the reason F where the program ends.
abbrev pub Holds : {A : Type 0} → Type 0 → (A → Type 0) → Answer A → Type 0
Holds F P (gives a) = P a
Holds F P (fails e) = Unit
Holds F P crashes = F

pub record Keeps {A : Type 0} (F : Type 0) (P : A → Type 0) (m : B A) : Type 0 where
  pub same : (s : Boot) → Same s (m s).1
  pub holds : (s : Boot) → Holds F P (m s).0

-- Nothing is known of the answer.
abbrev pub Anything : {A : Type 0} → A → Type 0
Anything a = Unit

module _ {A C : Type 0} (F : Type 0) (P : A → Type 0) (Q : C → Type 0) (f : A → B C) where
  on_answer-Keeps :
      (a : Answer A) (s : Boot)
      → Holds F P a
      → ((x : A) → P x → Keeps F Q (f x))
      → Same s (on_answer a s f).1 × Holds F Q (on_answer a s f).0
  on_answer-Keeps (gives x) s h k = ((k x h).same s, (k x h).holds s)
  on_answer-Keeps (fails e) s h k = (Same-refl s, tt)
  on_answer-Keeps crashes s h k = (Same-refl s, h)

-- One step, and then the others.
pub bind-Keeps :
    {A C F : Type 0} {P : A → Type 0} {Q : C → Type 0} {m : B A} {f : A → B C}
    → Keeps F P m
    → ((x : A) → P x → Keeps F Q (f x))
    → Keeps F Q (m >>= f)
unfolding ◌>>=◌
bind-Keeps {F} {P} {Q} {m} {f} h k = record {
  same = λ s. Same-trans (h.same s) (on_answer-Keeps F P Q f (m s).0 (m s).1 (h.holds s) k).0;
  holds = λ s. (on_answer-Keeps F P Q f (m s).0 (m s).1 (h.holds s) k).1;
}

pub pure-Keeps : {A F : Type 0} {P : A → Type 0} (a : A) → P a → Keeps F P (pure a)
unfolding pure
pure-Keeps a h = record { same = Same-refl; holds = λ s. h }

pub refuse-Keeps : {A F : Type 0} {P : A → Type 0} (e : String) → Keeps F P (refuse e)
unfolding refuse
refuse-Keeps e = record { same = Same-refl; holds = λ s. tt }

pub crash-Keeps : {A F : Type 0} {P : A → Type 0} → F → Keeps F P crash
unfolding crash
crash-Keeps h = record { same = Same-refl; holds = λ s. h }

pub get-Keeps : {F : Type 0} → Keeps F Anything get
unfolding get
get-Keeps = record { same = Same-refl; holds = λ s. tt }

pub ask-Keeps : {R F : Type 0} (reply : List Ask → R) (a : Ask) → Keeps F Anything (ask reply a)
unfolding ask
ask-Keeps reply a = record {
  same = λ s. record { same_sjobs = refl; same_found = λ id. refl };
  holds = λ s. tt;
}

pub draw-Keeps : {F : Type 0} (env : BootEnv) → Keeps F Anything (draw env)
unfolding draw
draw-Keeps env = record {
  same = λ s. record { same_sjobs = refl; same_found = λ id. refl };
  holds = λ s. tt;
}

pub if-Keeps :
    {A F : Type 0} {P : A → Type 0} {m k : B A} (b : Bool)
    → Keeps F P m
    → Keeps F P k
    → Keeps F P (if b then m else k)
if-Keeps true h j = h
if-Keeps false h j = j

-- Updates that keep the identifiers of raw jobs.
found-update_one :
    (id rid : String) (f : Rawjob → Rawjob) (rs : List Rawjob)
    → ((r : Rawjob) → (f r).id ≡ r.id)
    → is_some (find_one (λ r. str_eq r.id id) (update_one (λ r. str_eq r.id rid) f rs))
      ≡ is_some (find_one (λ r. str_eq r.id id) rs)
unfolding find_one update_one
found-update_one id rid f [] k = refl
found-update_one id rid f (r ∷ rs) k = ground (arith, k r, found-update_one id rid f rs k)

pub update_rawjob-Keeps :
    {F : Type 0} (rid : String) (f : Rawjob → Rawjob)
    → ((r : Rawjob) → (f r).id ≡ r.id)
    → Keeps F Anything (write_store (update_rawjob rid f))
unfolding write_store update_rawjob get_rawjob_from_id
update_rawjob-Keeps rid f k = record {
  same = λ s. record {
    same_sjobs = refl;
    same_found = λ id. found-update_one id rid f s.store.rawjobs k;
  };
  holds = λ s. tt;
}

pub blocks-Keeps :
    {F : Type 0} (f : Database → Keyed BlockFiles)
    → Keeps F Anything (write_store (λ db. record db { block_files = f db }))
unfolding write_store get_rawjob_from_id
blocks-Keeps f = record {
  same = λ s. record { same_sjobs = refl; same_found = λ id. refl };
  holds = λ s. tt;
}
