-- ===== src/Network/Bounds.antt =====
-- What the answer of `setup_sdn_path` of server/scheduler.cc says of the tries at the two sites.
use bigdataexpress_c.Base.{ℕ, suc, ◌+◌, ◌≤◌, Bool, true, false, ◌≡◌, refl, ◌⊎◌, inl, inr, arith}
use bigdataexpress_c.Base.Int.{ℤ, pos, negsuc}
use bigdataexpress_c.Network.{Dtn, SdnRequest, World, Net}
use bigdataexpress_c.Network.Setup
use bigdataexpress_c.Network.Tries.{
  reserves, asked, Granted, AllDenied, Vain, Tried, stays-Granted, stays-AllDenied,
  reserve_site-Tried,
}

module _ (net : Net) where
  module _ (src dst : Dtn) (rate oscars_src oscars_dst : ℤ) where
    abbrev pub src_request : SdnRequest
    src_request = Setup.sdn_rpc src dst rate oscars_src

    abbrev pub dst_request : SdnRequest
    dst_request = Setup.sdn_rpc dst src rate oscars_dst

    -- What the answer says of the reservations that were asked for.
    unfoldable pub IsTold : ℕ → Setup.SdnPaths → World → Type 0
    unfolding Granted AllDenied
    IsTold before paths w =
        ((paths.code ≡ pos 0)
          × ((m : ℕ) × (before ≤ m)
              × (m ≤ 2 + before)
              × AllDenied net src.site_url src_request before m w
              × Granted net src.site_url src_request m paths.src_path_id w
              × ((k : ℕ) × (suc m ≤ k)
                  × (k ≤ 3 + m)
                  × (reserves w ≡ suc k)
                  × AllDenied net dst.site_url dst_request (suc m) k w
                  × Granted net dst.site_url dst_request k paths.dst_path_id w)))
        ⊎ ((paths.code ≡ negsuc 0)
            × (paths.src_path_id ≡ negsuc 0)
            × (paths.dst_path_id ≡ negsuc 0)
            × (reserves w ≡ 3 + before)
            × AllDenied net src.site_url src_request before (3 + before) w)
        ⊎ ((paths.code ≡ negsuc 1)
            × (paths.dst_path_id ≡ negsuc 0)
            × ((m : ℕ) × (before ≤ m)
                × (m ≤ 2 + before)
                × AllDenied net src.site_url src_request before m w
                × Granted net src.site_url src_request m paths.src_path_id w
                × (reserves w ≡ 4 + m)
                × AllDenied net dst.site_url dst_request (suc m) (4 + m) w))

    at_destination-IsTold :
        (i : ℤ) (r : Setup.Reserved) (before m : ℕ) (u w : World)
        → (before ≤ m) × (m ≤ 2 + before)
        → AllDenied net src.site_url src_request before m u
        → Granted net src.site_url src_request m i u
        → Tried net dst.site_url dst_request (suc m) (λ k. asked net k u) 2 (suc m) r w
        → IsTold before (Setup.at_destination net i r w).0 (Setup.at_destination net i r w).1
    unfolding Tried IsTold Setup.at_destination Vain
    at_destination-IsTold i (Setup.reserved j) before m u w h denied granted
          (k, low, high, count, (keeps, failed), given) =
        inl (
          refl,
          (
            m,
            h.0,
            h.1,
            stays-AllDenied net src.site_url src_request before m u w
                (λ l b. keeps l (omega (arith, b))) denied,
            stays-Granted net src.site_url src_request m i u w (keeps m (omega arith)) granted,
            (k, low, omega (arith, high), count, failed, given),
          ),
        )
    at_destination-IsTold i (Setup.refused reply) before m u w h denied granted
          (k, end, count, (keeps, failed)) =
        inr (
          inr (
            refl,
            refl,
            (
              m,
              h.0,
              h.1,
              stays-AllDenied net src.site_url src_request before m u w
                  (λ l b. keeps l (omega (arith, b))) denied,
              stays-Granted net src.site_url src_request m i u w (keeps m (omega arith)) granted,
              omega (arith, count, end),
              λ l a b. failed l a (omega (arith, b, end)),
            ),
          ))

    at_source-IsTold :
        (r : Setup.Reserved) (before : ℕ) (u w : World)
        → Tried net src.site_url src_request before (λ k. asked net k u) 2 before r w
        → IsTold before
            (Setup.at_source net src dst rate oscars_dst r w).0
            (Setup.at_source net src dst rate oscars_dst r w).1
    unfolding Tried Setup.at_source Vain AllDenied
    at_source-IsTold (Setup.reserved i) before u w (m, low, high, count, (keeps, failed), given) =
        at_destination-IsTold i _ before m w _ (low, omega (arith, high)) failed given
          (reserve_site-Tried net dst.site_url dst_request (suc m) (λ k. asked net k w)
            "network.lan_dst" "teardown.lan_dst" dst.sdn_setup 2 (suc m) w (omega arith)
            (count, ((λ k l. refl), λ k a b. ground (arith, a, b))))
    at_source-IsTold (Setup.refused reply) before u w (m, end, count, (keeps, failed)) =
        unfold IsTold in
        inr (
          inl (
            refl,
            refl,
            refl,
            omega (arith, count, end),
            λ k a b. failed k a (omega (arith, b, end)),
          ))

    pre_pings-reserves :
        (b : Bool) (w : World) → reserves (Setup.pre_pings net b src dst w).1 ≡ reserves w
    unfolding Setup.pre_pings reserves
    pre_pings-reserves true w = refl
    pre_pings-reserves false w = refl

    -- The set-up of the paths inside the two sites ends after at most three reservations at a site,
    -- and its code tells how it went, whatever the sites answer. Code 0: at the source, then at the
    -- destination, some reservations were answered with another code or without a path, and the
    -- last, the third at the latest, with code 0 and the path whose number the answer has. Code -1:
    -- all three at the source were in vain, none was made at the destination, and the answer has no
    -- path. Code -2: the source granted its path, and all three at the destination were in vain.
    pub setup_sdn_path-IsTold :
        (pre_ping : Bool) (w : World)
        → IsTold
            (reserves w)
            (Setup.setup_sdn_path net src dst rate pre_ping oscars_src oscars_dst w).0
            (Setup.setup_sdn_path net src dst rate pre_ping oscars_src oscars_dst w).1
    unfolding Setup.setup_sdn_path
    setup_sdn_path-IsTold pre_ping w =
        let u : World = (Setup.pre_pings net pre_ping src dst w).1 in
        at_source-IsTold _ (reserves w) u _ (
          reserve_site-Tried net src.site_url src_request (reserves w) (λ k. asked net k u)
            "network.lan_src" "teardown.lan_src" src.sdn_setup 2 (reserves w) u (omega arith)
            (
              pre_pings-reserves pre_ping w,
              unfold Vain AllDenied in ((λ k l. refl), λ k a b. ground (arith, a, b)),
            ))
