-- ===== src/Store.antt =====
-- server/sitestore.{h,cc} and server/typedefs.h: the documents of the site store that a running
-- transfer reads and writes. A collection is the list of its documents, in the order in which the
-- database finds them; a counter is an integer (the source's `int64_t` below 2 ^ 63).
mod Documents
pub use Documents.*
pub mod Laws
pub mod Ledger
pub mod Counting
pub mod Profile
pub mod Singles
use bigdataexpress_c.Base.{
  ℕ, String, Bool, true, false, ◌&&◌, ◌||◌, not, Option, none, some, List, [], ◌∷◌, ◌++◌, str_eq,
  if◌then◌else◌,
}
use bigdataexpress_c.Base.Int.{ℤ, ◌+ℤ◌}
use bigdataexpress_c.Base.Keyed.{Keyed, lookup, emplace, update, is_some}
use bigdataexpress_c.Network.{Dtn, SjobState, SjobStage}

module _ {ℓ} {A : Type ℓ} where
  unfoldable pub any : (A → Bool) → List A → Bool
  any p [] = false
  any p (x ∷ xs) = p x || any p xs

  unfoldable pub find_one : (A → Bool) → List A → Option A
  find_one p [] = none
  find_one p (x ∷ xs) = if p x then some x else find_one p xs

  -- `update_one`, and the positional `$` inside a document: the first that matches.
  unfoldable pub update_one : (A → Bool) → (A → A) → List A → List A
  update_one p f [] = []
  update_one p f (x ∷ xs) = let rest = update_one p f xs in if p x then f x ∷ xs else x ∷ rest

  unfoldable pub find_all : (A → Bool) → List A → List A
  find_all p [] = []
  find_all p (x ∷ xs) = let rest = find_all p xs in if p x then x ∷ rest else rest

abbrev pub has_task : String → Flow → Bool
has_task task f = str_eq f.task task

abbrev pub has_block_id : String → Block → Bool
has_block_id id b = str_eq b.id id

abbrev pub has_flow : String → Sjob → Bool
has_flow task s = any (has_task task) s.flows

abbrev pub has_block : String → Sjob → Bool
has_block id s = any (has_block_id id) s.blocks

abbrev pub has_id : String → Sjob → Bool
has_id id s = str_eq s.id id

unfoldable pub get_sjob_from_task_id : String → Database → Option Sjob
unfolding any find_one
get_sjob_from_task_id task db = find_one (has_flow task) db.sjobs

unfoldable pub get_sjobs_from_rawjob_id : String → Database → List Sjob
unfolding find_all
get_sjobs_from_rawjob_id id db = find_all (λ s. str_eq s.rawjob id) db.sjobs

unfoldable pub get_rawjobs_from_state : (RawjobState → Bool) → Database → List Rawjob
unfolding find_all
get_rawjobs_from_state p db = find_all (λ r. p r.state) db.rawjobs

unfoldable pub get_rawjob_from_id : String → Database → Option Rawjob
unfolding find_one
get_rawjob_from_id id db = find_one (λ r. str_eq r.id id) db.rawjobs

unfoldable pub get_user_keys : String → String → Database → Option UserCert
unfolding find_one
get_user_keys user site db = find_one (λ c. str_eq c.user user && str_eq c.site site) db.usercerts

unfoldable pub get_site_info : String → Database → Option Site
unfolding find_one
get_site_info id db = find_one (λ s. str_eq s.id id) db.sites

unfoldable pub get_block_files : String → Database → Option BlockFiles
get_block_files id db = lookup id db.block_files

unfoldable pub del_sjobs : String → Database → Database
unfolding find_all
del_sjobs id db = record db { sjobs = find_all (λ s. not (str_eq s.rawjob id)) db.sjobs }

unfoldable pub insert_flow : String → Flow → Database → Database
unfolding update_one
insert_flow id f db = record db {
  sjobs = update_one (has_id id) (λ s. record s { flows = s.flows ++ f ∷ [] }) db.sjobs;
}

-- The document that has an id, updated.
unfoldable pub update_sjob : String → (Sjob → Sjob) → Database → Database
unfolding update_one
update_sjob id f db = record db { sjobs = update_one (has_id id) f db.sjobs }

unfoldable pub update_sjob_state : String → SjobState → Database → Database
unfolding update_sjob
update_sjob_state id state db =
    let db' = update_sjob id (λ s. record s { state = state }) db in
    record db' { sjobevents = db'.sjobevents ++ (id, state) ∷ [] }

unfoldable pub set_stage : String → SjobStage → Keyed SjobStage → Keyed SjobStage
set_stage stage v stages =
    if is_some (lookup stage stages) then update stage (λ _. v) stages else emplace stage v stages

unfoldable pub update_sjob_stage : String → String → SjobStage → Database → Database
unfolding update_sjob set_stage
update_sjob_stage id stage v =
    update_sjob id (λ s. record s { stages = set_stage stage v s.stages })

-- The first document with a flow of the task, and in it the first such flow.
unfoldable pub update_sjob_flow : String → (Flow → Flow) → Database → Database
unfolding any update_one
update_sjob_flow task f db = record db {
  sjobs =
      update_one (has_flow task) (λ s. record s { flows = update_one (has_task task) f s.flows })
        db.sjobs;
}

unfoldable pub update_sjob_block : String → (Block → Block) → Database → Database
unfolding any update_one
update_sjob_block id f db = record db {
  sjobs =
      update_one (has_block id) (λ s. record s { blocks = update_one (has_block_id id) f s.blocks })
        db.sjobs;
}

unfoldable pub update_rawjob : String → (Rawjob → Rawjob) → Database → Database
unfolding update_one
update_rawjob id f db = record db { rawjobs = update_one (λ r. str_eq r.id id) f db.rawjobs }

unfoldable pub update_site : String → (Site → Site) → Database → Database
unfolding update_one
update_site id f db = record db { sites = update_one (λ s. str_eq s.id id) f db.sites }

abbrev pub increment_sjob_block : String → ℤ → Database → Database
increment_sjob_block id n = update_sjob_block id (λ b. record b { tx_bytes = b.tx_bytes +ℤ n })

abbrev pub increment_sjob_flow : String → ℤ → Database → Database
increment_sjob_flow task n = update_sjob_flow task (λ f. record f { tx_bytes = f.tx_bytes +ℤ n })

abbrev pub increment_sjob : String → ℤ → Database → Database
increment_sjob id n = update_sjob id (λ s. record s { tx_bytes = s.tx_bytes +ℤ n })

abbrev pub increment_rawjob : String → ℤ → Database → Database
increment_rawjob id n = update_rawjob id (λ r. record r { tx_bytes = r.tx_bytes +ℤ n })

abbrev pub update_rawjob_size : String → ℕ → Database → Database
update_rawjob_size id n = update_rawjob id (λ r. record r { size = some n })

abbrev pub update_sjob_flow_state : String → FlowState → Database → Database
update_sjob_flow_state task state = update_sjob_flow task (λ f. record f { state = state })

abbrev pub update_sjob_block_state : String → BlockState → Database → Database
update_sjob_block_state id state = update_sjob_block id (λ b. record b { state = state })

abbrev pub update_rawjob_state : String → RawjobState → Database → Database
update_rawjob_state id state = update_rawjob id (λ r. record r { state = state })
