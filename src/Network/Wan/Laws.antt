-- ===== src/Network/Wan/Laws.antt =====
-- The retries of the requests that give a path back.
use bigdataexpress_c.Base.{
  ℕ, zero, suc, Bool, true, false, ◌∷◌, ◌≡◌, refl, if◌then◌else◌, ◌⊎◌, inl, inr, ◌≤◌, ◌==◌, arith,
  ==_iff, ◌<◌, ◌≢◌,
}
use bigdataexpress_c.Network.{Request, sends, World, Net, get_token, pure}
use bigdataexpress_c.Network.Wan

module _ (net : Net) where
  -- So many rounds of a request: each is a token and the request.
  abbrev pub rounds : ℕ → Request → World → World
  rounds zero r w = w
  rounds (suc n) r w = rounds n r (sends r ∷ sends get_token ∷ w)

  -- No one of the first `n` rounds was answered with 200.
  unfoldable pub AllRefused : ℕ → Request → World → Type 0
  AllRefused n r w = (j : ℕ) → j < n → net.status (rounds (suc j) r w) ≢ 200

  -- All of the `n` rounds in vain, or some of them, the last with an answer of 200, the others in
  -- vain.
  unfoldable pub Retried : ℕ → Request → World → Bool × World → Type 0
  unfolding AllRefused
  Retried n r w out =
      ((out ≡ (false, rounds n r w)) × AllRefused n r w)
      ⊎ ((k : ℕ) × (suc k ≤ n)
          × (out ≡ (true, rounds (suc k) r w))
          × (net.status (rounds (suc k) r w) ≡ 200)
          × AllRefused k r w)

  first_refused :
      (n : ℕ) (r : Request) (w : World)
      → net.status (rounds 1 r w) ≢ 200
      → AllRefused n r (rounds 1 r w)
      → AllRefused (suc n) r w
  unfolding AllRefused
  first_refused n r w h all zero l = h
  first_refused n r w h all (suc j) l = all j (ground arith)

  next_round :
      (n : ℕ) (r : Request) (w : World) (b : Bool)
      → (b ≡ true → net.status (rounds 1 r w) ≡ 200)
      → (b ≡ false → net.status (rounds 1 r w) ≢ 200)
      → Retried n r (rounds 1 r w) (Wan.retry_request net n r (rounds 1 r w))
      → Retried (suc n) r w ((if b then pure true else Wan.retry_request net n r) (rounds 1 r w))
  unfolding Retried AllRefused
  next_round n r w true h k t = inr (0, ground arith, refl, h refl, λ j l. ground arith)
  next_round n r w false h k (inl (e, all)) = inl (e, first_refused n r w (k refl) all)
  next_round n r w false h k (inr (i, l, e, s, all)) =
      inr (suc i, ground arith, e, s, first_refused i r w (k refl) all)

  -- The request is repeated until its first answer of 200 and no further: with n rounds allowed,
  -- either all n were made, none was answered with 200 and the result is false, or the result is
  -- true, at most n were made, one at least, the last was answered with 200 and none before it.
  pub retry_request_lem :
      (n : ℕ) (r : Request) (w : World) → Retried n r w (Wan.retry_request net n r w)
  unfolding Wan.retry_request
  retry_request_lem zero r w = unfold Retried AllRefused in inl (refl, λ j l. ground arith)
  retry_request_lem (suc n) r w =
      next_round n r w (net.status (rounds 1 r w) == 200)
        (λ e. (==_iff (net.status (rounds 1 r w)) 200).0 e)
        (λ e h. ground (arith, e, (==_iff (net.status (rounds 1 r w)) 200).1 h))
        (retry_request_lem n r (rounds 1 r w))
