-- ===== src/Store/Singles.antt =====
-- Jobs of the site store with one flow at most, and the owners of blocks.
use bigdataexpress_c.Base.{String, ◌≡◌, sym, subst, ◌⊎◌, inl, inr, List, [], ◌∷◌, All}
use bigdataexpress_c.Store.{Sjob, Database}
use bigdataexpress_c.Store.Ledger.{Owns}
use bigdataexpress_c.Store.Profile.{entry, profile, Carried}

-- An entry with no flow, or with one whose block belongs to the job.
abbrev pub Single : List Sjob → String × List String → Type 0
Single ss p = (p.1 ≡ []) ⊎ ((block : String) × (p.1 ≡ block ∷ []) × Owns block p.0 ss)

module _ (ss ts : List Sjob)
    (owns : (block id : String) → Owns block id ss → Owns block id ts) where
  pub Single-Owns : (p : String × List String) → Single ss p → Single ts p
  Single-Owns p (inl e) = inl e
  Single-Owns p (inr (block, e, o)) = inr (block, e, owns block p.0 o)

pub Singles-Carried :
    {a b : Database} (js : List Sjob)
    → Carried a b
    → All (λ j. Single a.sjobs (entry j)) js
    → All (λ j. Single b.sjobs (entry j)) js
Singles-Carried [] c h = tt
Singles-Carried {a} {b} (j ∷ js) c h =
    (Single-Owns a.sjobs b.sjobs c.owns (entry j) h.0, Singles-Carried js c h.1)

pub All-profile :
    (P : String × List String → Type 0) (ss : List Sjob)
    → All P (profile ss)
    → All (λ s. P (entry s)) ss
unfolding profile
All-profile P [] h = tt
All-profile P (s ∷ ss) h = (h.0, All-profile P ss h.1)

pub profile-All :
    (P : String × List String → Type 0) (ss : List Sjob)
    → All (λ s. P (entry s)) ss
    → All P (profile ss)
unfolding profile
profile-All P [] h = tt
profile-All P (s ∷ ss) h = (h.0, profile-All P ss h.1)

-- Each job has at most one flow, whose block is its own.
abbrev pub Singles : List Sjob → Type 0
Singles ss = All (λ j. Single ss (entry j)) ss

pub store-Singles : {a b : Database} → Carried a b → Singles a.sjobs → Singles b.sjobs
store-Singles {a} {b} c h = All-profile (Single b.sjobs) b.sjobs (
    subst (All (Single b.sjobs)) (sym c.same_profile)
      (profile-All (Single b.sjobs) a.sjobs (Singles-Carried a.sjobs c h)))
