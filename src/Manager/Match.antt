-- ===== src/Manager/Match.antt =====
-- `match_path_dtns` of server/resourcemanager.cc: the rates that the DTNs of two sites can carry
-- are paired off. An index into a vector is the rest of the vector from there on; an index past the
-- end is a fault only where it is followed.
use bigdataexpress_c.Base.{
  ℕ, zero, suc, ◌+◌, ◌≤◌, ◌<◌, ◌∙◌, ◌≡◌, refl, ap, String, true, if_cases, List, [], ◌∷◌, length,
  if◌then◌else◌, arith,
}
use bigdataexpress_c.Base.Int.{ℤ, pos, ◌+ℤ◌, ◌-ℤ◌, ltb_ℤ, eqb_ℤ, int_laws}

abbrev pub Rated : Type 0
Rated = List (String × ℤ)

abbrev pub Pairs : Type 0
Pairs = List (String × String × ℤ)

-- The rest of a vector behind its next entry; an index past the end stays there.
abbrev pub skip : Rated → Rated
skip [] = []
skip (d ∷ ds) = ds

-- How the matching ends; `out_of_range` follows an index past the end.
pub data Matching : Type 0 where
  paired : Pairs → Matching
  mismatch out_of_range out_of_fuel : Matching

-- What one round leaves: a pair, and the rests of the two vectors.
pub record Round : Type 0 where
  pub pair : String × String × ℤ
  pub src : Rated
  pub dst : Rated

-- Equal rates take the first block and then the `else` of the second `if`.
unfoldable pub pair_round : String × ℤ → Rated → String × ℤ → Rated → Round
pair_round (s, s_rate) ss (d, d_rate) ds =
    if eqb_ℤ s_rate d_rate
    then record { pair = (s, d, s_rate); src = skip ss; dst = ds }
    else if ltb_ℤ d_rate s_rate
    then record { pair = (s, d, d_rate); src = (s, s_rate -ℤ d_rate) ∷ ss; dst = ds }
    else record { pair = (s, d, s_rate); src = ss; dst = (d, d_rate -ℤ s_rate) ∷ ds }

abbrev pub with_pair : String × String × ℤ → Matching → Matching
with_pair p (paired ps) = paired (p ∷ ps)
with_pair p mismatch = mismatch
with_pair p out_of_range = out_of_range
with_pair p out_of_fuel = out_of_fuel

-- The tests at the end of a round, and the rounds behind it.
unfoldable pub after_round : String × String × ℤ → Rated → Rated → Matching → Matching
after_round p [] [] next = paired (p ∷ [])
after_round p [] (d ∷ ds) next = mismatch
after_round p (s ∷ ss) [] next = mismatch
after_round p (s ∷ ss) (d ∷ ds) next = with_pair p next

unfoldable pub match_from : ℕ → Rated → Rated → Matching
unfolding pair_round after_round
match_from zero src dst = out_of_fuel
match_from (suc n) [] dst = out_of_range
match_from (suc n) (s ∷ ss) [] = out_of_range
match_from (suc n) (s ∷ ss) (d ∷ ds) =
    let r = pair_round s ss d ds in after_round r.pair r.src r.dst (match_from n r.src r.dst)

-- Each round leaves fewer entries in all.
unfoldable pub match_path_dtns : Rated → Rated → Matching
unfolding match_from
match_path_dtns src dst = match_from (length src + length dst) src dst

-- The matching ends by its own tests.
abbrev pub Ends : Matching → Type 0
Ends (paired ps) = Unit
Ends mismatch = Unit
Ends out_of_range = ⊥
Ends out_of_fuel = ⊥

length-skip : (ss : Rated) → length (skip ss) ≤ length ss
length-skip [] = omega arith
length-skip (s ∷ ss) = omega arith

pair_round-shorter :
    (s : String × ℤ) (ss : Rated) (d : String × ℤ) (ds : Rated)
    → suc (length (pair_round s ss d ds).src + length (pair_round s ss d ds).dst)
      ≤ length (s ∷ ss) + length (d ∷ ds)
unfolding pair_round
pair_round-shorter (s, s_rate) ss (d, d_rate) ds = ground (arith, length-skip ss)

with_pair-Ends : (p : String × String × ℤ) (next : Matching) → Ends next → Ends (with_pair p next)
with_pair-Ends p (paired ps) h = tt
with_pair-Ends p mismatch h = tt
with_pair-Ends p out_of_range h = absurd h
with_pair-Ends p out_of_fuel h = absurd h

after_round-Ends :
    (p : String × String × ℤ) (src dst : Rated) (next : Matching)
    → (0 < length src → 0 < length dst → Ends next)
    → Ends (after_round p src dst next)
unfolding after_round
after_round-Ends p [] [] next h = tt
after_round-Ends p [] (d ∷ ds) next h = tt
after_round-Ends p (s ∷ ss) [] next h = tt
after_round-Ends p (s ∷ ss) (d ∷ ds) next h = with_pair-Ends p next (h (omega arith) (omega arith))

match_from-Ends :
    (n : ℕ) (src dst : Rated)
    → 0 < length src
    → 0 < length dst
    → length src + length dst ≤ n
    → Ends (match_from n src dst)
unfolding match_from
match_from-Ends zero src dst hs hd h = absurd (omega (arith, hs, h))
match_from-Ends (suc n) [] dst hs hd h = absurd (omega (arith, hs))
match_from-Ends (suc n) (s ∷ ss) [] hs hd h = absurd (omega (arith, hd))
match_from-Ends (suc n) (s ∷ ss) (d ∷ ds) hs hd h =
    let r = pair_round s ss d ds in
    after_round-Ends r.pair r.src r.dst (match_from n r.src r.dst) (λ ks kd.
      match_from-Ends n r.src r.dst ks kd (omega (arith, pair_round-shorter s ss d ds, h)))

-- With a DTN on each side the matching ends within as many rounds as there are DTNs, and follows
-- no index past the end of a vector.
pub match_path_dtns-Ends :
    (src dst : Rated) → 0 < length src → 0 < length dst → Ends (match_path_dtns src dst)
unfolding match_path_dtns
match_path_dtns-Ends src dst hs hd =
    match_from-Ends (length src + length dst) src dst hs hd (omega arith)

abbrev pub total_rated : Rated → ℤ
total_rated [] = pos 0
total_rated ((d, rate) ∷ ds) = rate +ℤ total_rated ds

abbrev pub total_paired : Pairs → ℤ
total_paired [] = pos 0
total_paired ((s, d, rate) ∷ ps) = rate +ℤ total_paired ps

eqb_ℤ→eq : (a b : ℤ) → eqb_ℤ a b ≡ true → a ≡ b
eqb_ℤ→eq a b h = ground (arith, h)

rest_rate : (a b c : ℤ) → a +ℤ (b -ℤ a +ℤ c) ≡ b +ℤ c
rest_rate a b c = omega int_laws

pair_round-rate :
    (s : String × ℤ) (ss : Rated) (d : String × ℤ) (ds : Rated)
    → (pair_round s ss d ds).pair.2 +ℤ total_rated (pair_round s ss d ds).dst ≡ total_rated (d ∷ ds)
unfolding pair_round
pair_round-rate (s, s_rate) ss (d, d_rate) ds =
    if_cases (λ (r : Round). r.pair.2 +ℤ total_rated r.dst ≡ d_rate +ℤ total_rated ds)
      (eqb_ℤ s_rate d_rate) (λ e. ap (λ a. a +ℤ total_rated ds) (eqb_ℤ→eq s_rate d_rate e))
      (λ _.
        if_cases (λ (r : Round). r.pair.2 +ℤ total_rated r.dst ≡ d_rate +ℤ total_rated ds)
          (ltb_ℤ d_rate s_rate) (λ _. refl) (λ _. rest_rate s_rate d_rate (total_rated ds)))

after_round-rate :
    (p : String × String × ℤ) (src dst : Rated) (next : Matching) (ps : Pairs)
    → ((qs : Pairs) → next ≡ paired qs → total_paired qs ≡ total_rated dst)
    → after_round p src dst next ≡ paired ps
    → total_paired ps ≡ p.2 +ℤ total_rated dst
unfolding after_round
after_round-rate p [] [] next ps h e = ground (arith, e)
after_round-rate p [] (d ∷ ds) next ps h e = absurd (cc)
after_round-rate p (s ∷ ss) [] next ps h e = absurd (cc)
after_round-rate p (s ∷ ss) (d ∷ ds) (paired qs) ps h e = ground (arith, e, h qs refl)
after_round-rate p (s ∷ ss) (d ∷ ds) mismatch ps h e = absurd (cc)
after_round-rate p (s ∷ ss) (d ∷ ds) out_of_range ps h e = absurd (cc)
after_round-rate p (s ∷ ss) (d ∷ ds) out_of_fuel ps h e = absurd (cc)

match_from-rate :
    (n : ℕ) (src dst : Rated) (ps : Pairs)
    → match_from n src dst ≡ paired ps
    → total_paired ps ≡ total_rated dst
unfolding match_from
match_from-rate zero src dst ps e = absurd (cc)
match_from-rate (suc n) [] dst ps e = absurd (cc)
match_from-rate (suc n) (s ∷ ss) [] ps e = absurd (cc)
match_from-rate (suc n) (s ∷ ss) (d ∷ ds) ps e =
    let r = pair_round s ss d ds in
    after_round-rate r.pair r.src r.dst (match_from n r.src r.dst) ps
      (match_from-rate n r.src r.dst) e
    ∙ pair_round-rate s ss d ds

-- Where the matching returns pairs, these carry together the rates of all the DTNs of the
-- destination.
pub match_path_dtns-rate :
    (src dst : Rated) (ps : Pairs)
    → match_path_dtns src dst ≡ paired ps
    → total_paired ps ≡ total_rated dst
unfolding match_path_dtns
match_path_dtns-rate src dst ps = match_from-rate (length src + length dst) src dst ps
