-- ===== src/Network/Tries.antt =====
-- The tries of `setup_sdn_path` of server/scheduler.cc at one site: which reservations were asked
-- for, and how they were answered.
use bigdataexpress_c.Base.{
  ℕ, zero, suc, ◌+◌, ◌<◌, ◌≤◌, String, Bool, true, false, Option, none, some, [], ◌∷◌, ◌≡◌, ◌≢◌,
  refl, sym, ap, subst, ◌∙◌, if◌then◌else◌, ◌⊎◌, inl, inr, arith, ◌==◌, ==_iff,
}
use bigdataexpress_c.Base.Int.{ℤ, pos, eqb_ℤ, eq_of_parts}
use bigdataexpress_c.Network.{
  SdnRequest, SdnReply, sends, World, Net, M, sdn_reserve, update_stage, update_stage_if, SjobStage,
  working, pure, ◌>>◌,
}
use bigdataexpress_c.Network.Setup

-- How many reservations of a path inside a site were asked for.
unfoldable pub reserves : World → ℕ
reserves [] = 0
reserves (sends (sdn_reserve url r) ∷ w) = suc (reserves w)
reserves (e ∷ w) = reserves w

-- What the code and the path of an answer say, by the path that is read of it.
Reads : ℤ → Option ℤ → Option ℤ → Type 0
Reads code id none = (code ≢ pos 0) ⊎ (id ≡ none)
Reads code id (some i) = (code ≡ pos 0) × (id ≡ some i)

none-Reads : (code : ℤ) (id : Option ℤ) → Reads code id none → (code ≢ pos 0) ⊎ (id ≡ none)
unfolding Reads
none-Reads code id h = h

read_zero : (code : ℤ) (id : Option ℤ) → code ≡ pos 0 → Reads code id id
unfolding Reads
read_zero code none e = inr refl
read_zero code (some i) e = (e, refl)

read_by :
    (code : ℤ) (id : Option ℤ) (b : Bool)
    → (b ≡ true → code ≡ pos 0)
    → (b ≡ false → code ≢ pos 0)
    → Reads code id (if b then id else none)
read_by code id true e n = read_zero code id (e refl)
read_by code id false e n = unfold Reads in inl (n refl)

path_of-Reads : (reply : SdnReply) → Reads reply.code reply.installed_path_id (Setup.path_of reply)
unfolding Setup.path_of
path_of-Reads reply =
    read_by reply.code reply.installed_path_id (eqb_ℤ reply.code (pos 0))
      (λ e. eq_of_parts reply.code (pos 0) ((==_iff _ _).0 e))
      (λ e h. ground (arith, ap (λ c. eqb_ℤ c (pos 0)) (sym h) ∙ e))

le_cases : (k m : ℕ) → k < suc m → (k < m) ⊎ (k ≡ m)
le_cases k m h = ground (arith, h)

module _ (net : Net) where
  -- The reservation that was asked for after so many others: the site, the request, the answer.
  unfoldable pub asked : ℕ → World → Option (String × SdnRequest × SdnReply)
  unfolding reserves
  asked k [] = none
  asked k (sends (sdn_reserve url r) ∷ w) =
      if k == reserves w
      then some (url, r, net.sdn_reply (sends (sdn_reserve url r) ∷ w))
      else asked k w
  asked k (e ∷ w) = asked k w

  asked_last :
      (url : String) (r : SdnRequest) (w : World) (m : ℕ)
      → reserves w ≡ m
      → asked m (sends (sdn_reserve url r) ∷ w)
        ≡ some (url, r, net.sdn_reply (sends (sdn_reserve url r) ∷ w))
  unfolding asked
  asked_last url r w m h = rw ((==_iff m (reserves w)).1 (sym h))

  asked_before :
      (url : String) (r : SdnRequest) (w : World) (k : ℕ)
      → k < reserves w
      → asked k (sends (sdn_reserve url r) ∷ w) ≡ asked k w
  unfolding asked
  asked_before url r w k h = ground (arith, h)

  module _ (url : String) (r : SdnRequest) where
    -- This reservation was answered with code 0 and the path.
    unfoldable pub Granted : ℕ → ℤ → World → Type 0
    Granted k i w =
        (reply : SdnReply) × (asked k w ≡ some (url, r, reply))
        × (reply.code ≡ pos 0)
        × (reply.installed_path_id ≡ some i)

    -- Each of these reservations was answered with another code, or without a path.
    unfoldable pub AllDenied : ℕ → ℕ → World → Type 0
    AllDenied a b w =
        (k : ℕ)
        → a ≤ k
        → k < b
        → (reply : SdnReply) × (asked k w ≡ some (url, r, reply))
          × ((reply.code ≢ pos 0) ⊎ (reply.installed_path_id ≡ none))

    pub stays-Granted :
        (m : ℕ) (i : ℤ) (u w : World) → asked m w ≡ asked m u → Granted m i u → Granted m i w
    unfolding Granted
    stays-Granted m i u w e (reply, at, code, path) = (reply, e ∙ at, code, path)

    pub stays-AllDenied :
        (a b : ℕ) (u w : World)
        → ((k : ℕ) → k < b → asked k w ≡ asked k u)
        → AllDenied a b u
        → AllDenied a b w
    unfolding AllDenied
    stays-AllDenied a b u w e denied k l h =
        let (reply, at, fails) = denied k l h in (reply, e k h ∙ at, fails)

    module _ (n : ℕ) (old : ℕ → Option (String × SdnRequest × SdnReply)) where
      -- All of the reservations from the n-th on were in vain, the ones before it are as they were.
      unfoldable pub Vain : ℕ → World → Type 0
      unfolding AllDenied
      Vain m w = ((k : ℕ) → k < n → asked k w ≡ old k) × AllDenied n m w

      -- One more reservation, which is in vain or grants the path.
      sent-Vain :
          (m : ℕ) (w : World)
          → n ≤ m
          → reserves w ≡ m
          → Vain m w
          → Vain m (sends (sdn_reserve url r) ∷ w)
      unfolding Vain AllDenied
      sent-Vain m w l e (keeps, denied) = (
        λ k h. asked_before url r w k (ground (arith, h, l, e)) ∙ keeps k h,
        λ k a b.
            let (reply, at, fails) = denied k a b in
            (reply, asked_before url r w k (ground (arith, b, e)) ∙ at, fails),
      )

      more-Vain :
          (m : ℕ) (w : World) (reply : SdnReply)
          → asked m w ≡ some (url, r, reply)
          → (reply.code ≢ pos 0) ⊎ (reply.installed_path_id ≡ none)
          → Vain m w
          → Vain (suc m) w
      unfolding Vain AllDenied
      more-Vain m w reply at fails (keeps, denied) = (
        keeps,
        λ k a b. elim (le_cases k m b) [
          | inl less ↦ denied k a less
          | inr same ↦ (reply, ap (λ j. asked j w) same ∙ at, fails)
        ],
      )

      -- What one site's loop says of its tries, with so many retries allowed.
      unfoldable pub Tried : ℕ → ℕ → Setup.Reserved → World → Type 0
      unfolding Vain Granted
      Tried left before (Setup.reserved i) w =
          (m : ℕ) × (before ≤ m)
          × (m ≤ left + before)
          × (reserves w ≡ suc m)
          × Vain m w
          × Granted m i w
      Tried left before (Setup.refused reply) w =
          (m : ℕ) × (m ≡ suc left + before) × (reserves w ≡ m) × Vain m w

      on_reply-Tried :
          (network teardown : String) (sdn : Bool) (path : Option ℤ) (again : M Setup.Reserved)
          (left before : ℕ) (w : World)
          → (reserves w ≡ suc before)
          → Vain before w
          → (reply : SdnReply) → asked before w ≡ some (url, r, reply)
          → Reads reply.code reply.installed_path_id path
          → (path ≡ none → Tried left before (again w).0 (again w).1)
          → Tried left before
              (Setup.on_reply network teardown sdn path again w).0
              (Setup.on_reply network teardown sdn path again w).1
      unfolding Setup.on_reply Tried Reads Granted Vain AllDenied asked reserves
      on_reply-Tried network teardown true (some i) again left before w e v reply at h k =
          (before, omega arith, omega arith, e, v, (reply, at, h.0, h.1))
      on_reply-Tried network teardown false (some i) again left before w e v reply at h k =
          (before, omega arith, omega arith, e, v, (reply, at, h.0, h.1))
      on_reply-Tried network teardown sdn none again left before w e v reply at h k = k refl

      more-Tried :
          (left before : ℕ) (res : Setup.Reserved) (w : World)
          → Tried left (suc before) res w
          → Tried (suc left) before res w
      unfolding Tried
      more-Tried left before (Setup.reserved i) w (m, a, b, e, v, g) =
          (m, omega (arith, a), omega (arith, b), e, v, g)
      more-Tried left before (Setup.refused reply) w (m, a, e, v) = (m, omega (arith, a), e, v)

      stage_if-Vain :
          (b : Bool) (name : String) (s : SjobStage) (m : ℕ) (w : World)
          → (reserves w ≡ m) × Vain m w
          → (reserves (update_stage_if b name s w).1 ≡ m) × Vain m (update_stage_if b name s w).1
      unfolding reserves Vain AllDenied asked
      stage_if-Vain true name s m w h = h
      stage_if-Vain false name s m w h = h

      failed-Vain :
          (m : ℕ) (w : World)
          → n ≤ m
          → (reserves w ≡ m) × Vain m w
          → Setup.path_of (net.sdn_reply (sends (sdn_reserve url r) ∷ w)) ≡ none
          → (reserves (sends (sdn_reserve url r) ∷ w) ≡ suc m)
            × Vain (suc m) (sends (sdn_reserve url r) ∷ w)
      unfolding reserves
      failed-Vain m w l (count, vain) e =
          let reply = net.sdn_reply (sends (sdn_reserve url r) ∷ w) in
          (
            ap suc count,
            more-Vain m _ reply (asked_last url r w m count)
                (none-Reads _ _ (subst (Reads _ _) e (path_of-Reads reply)))
                (sent-Vain m w l count vain),
          )

      refused-Tried :
          (network : String) (reply : SdnReply) (m : ℕ) (w : World)
          → (reserves w ≡ suc m) × Vain (suc m) w
          → Tried zero m (Setup.refused reply) (update_stage network SjobStage.error w).1
      unfolding Tried Vain AllDenied asked reserves
      refused-Tried network reply m w (count, vain) = (suc m, omega arith, count, vain)

      pub reserve_site-Tried :
          (network teardown : String) (sdn : Bool) (left before : ℕ) (w : World)
          → n ≤ before
          → (reserves w ≡ before) × Vain before w
          → Tried left before
              (Setup.reserve_site net network teardown sdn url r left w).0
              (Setup.reserve_site net network teardown sdn url r left w).1
      unfolding Setup.reserve_site reserves
      reserve_site-Tried network teardown sdn zero before w l h =
          let u : World = (update_stage_if sdn network working w).1 in
          let v : World = sends (sdn_reserve url r) ∷ u in
          let reply = net.sdn_reply v in
          let (count, vain) = stage_if-Vain sdn network working before w h in
          on_reply-Tried network teardown sdn (Setup.path_of reply)
            (update_stage network SjobStage.error >> pure (Setup.refused reply)) zero before v
            (ap suc count) (sent-Vain before u l count vain) reply (asked_last url r u before count)
            (path_of-Reads reply)
            (λ e. refused-Tried network reply before v (failed-Vain before u l (count, vain) e))
      reserve_site-Tried network teardown sdn (suc left) before w l h =
          let u : World = (update_stage_if sdn network working w).1 in
          let v : World = sends (sdn_reserve url r) ∷ u in
          let reply = net.sdn_reply v in
          let (count, vain) = stage_if-Vain sdn network working before w h in
          on_reply-Tried network teardown sdn (Setup.path_of reply)
            (Setup.reserve_site net network teardown sdn url r left) (suc left) before v
            (ap suc count) (sent-Vain before u l count vain) reply (asked_last url r u before count)
            (path_of-Reads reply)
            (λ e. more-Tried left before _ _ (
              reserve_site-Tried network teardown sdn left (suc before) v (omega (arith, l))
                (failed-Vain before u l (count, vain) e)))
