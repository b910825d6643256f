-- ===== src/Network/Accounts.antt =====
-- The paths of the WAN service that the code has created, given back, or still holds.
pub mod Giving
pub mod Creating
pub mod Kept
pub mod Private
use bigdataexpress_c.Base.{
  ℕ, zero, suc, String, Bool, true, false, Option, none, some, List, [], ◌∷◌, ◌++◌, ◌≡◌, refl,
  str_eq, ◌∙◌, if◌then◌else◌, ◌||◌, ◌⊎◌, inl, inr, if_cases, eq_iff, arith, ◌==◌,
}
use bigdataexpress_c.Base.Int.{ℤ, pos, negsuc, eqb_ℤ}
use bigdataexpress_c.Network.{
  Label, Dtn, Request, wan_create, wan_release, wan_terminate, wan_delete, Event, sends, World, Net,
  M, get_token, pure, update_stage_if, SjobStage, stage_is, success, pending, working, SdnRequest,
  sdn_reserve, icmp_ping, PingReply, state_is, sdn_release, ask, ◌>>◌, ◌>>=◌,
}
use bigdataexpress_c.Network.Wan
use bigdataexpress_c.Network.Setup
use bigdataexpress_c.Network.Teardown

unfoldable pub is_create : Event → Bool
is_create (sends (wan_create a b c d)) = true
is_create e = false

-- A request to release or delete the path.
unfoldable pub gives_back : String → Event → Bool
gives_back u (sends (wan_release v)) = str_eq v u
gives_back u (sends (wan_delete v)) = str_eq v u
gives_back u e = false

-- The service answered a creation with this id.
unfoldable pub created : Net → String → World → Bool
unfolding is_create
created net u [] = false
created net u (e ∷ w) =
    let before = created net u w in
    if is_create e then str_eq (net.create_reply (e ∷ w)).service_uuid u || before else before

unfoldable pub given_back : String → World → Bool
unfolding gives_back
given_back u [] = false
given_back u (e ∷ w) = gives_back u e || given_back u w

module _ (net : Net) (u : String) where
  -- What happened between two worlds created no path, and takes no giving back.
  pub record Quiet (w w' : World) : Type 0 where
    pub same : created net u w' ≡ created net u w
    pub kept : given_back u w ≡ true → given_back u w' ≡ true

  Quiet-refl : (w : World) → Quiet w w
  Quiet-refl w = record { same = refl; kept = λ e. e }

  infixr 5 ◌then◌
  ◌then◌ : {w v x : World} → Quiet w v → Quiet v x → Quiet w x
  p then q = record { same = q.same ∙ p.same; kept = λ e. q.kept (p.kept e) }

  Quiet-step : (e : Event) (w : World) → is_create e ≡ false → Quiet w (e ∷ w)
  unfolding created given_back
  Quiet-step e w calm = record { same = ground arith; kept = ground arith }

  abbrev pub IsQuiet : {A : Type 0} → M A → Type 0
  IsQuiet m = (w : World) → Quiet w (m w).1

  two-Quiet :
      (d e : Event) (w : World) → is_create d ≡ false → is_create e ≡ false → Quiet w (e ∷ d ∷ w)
  two-Quiet d e w p q = Quiet-step d w p then Quiet-step e (d ∷ w) q

  cond-Quiet :
      {A : Type 0} (b : Bool) (m k : M A) (w : World)
      → Quiet w (m w).1
      → Quiet w (k w).1
      → Quiet w ((if b then m else k) w).1
  cond-Quiet true m k w p q = p
  cond-Quiet false m k w p q = q

  retry-IsQuiet :
      (n : ℕ) → (r : Request) → is_create (sends r) ≡ false → IsQuiet (Wan.retry_request net n r)
  unfolding Wan.retry_request is_create
  retry-IsQuiet zero r calm w = Quiet-refl w
  retry-IsQuiet (suc n) r calm w =
      let after : World = sends r ∷ sends get_token ∷ w in
      two-Quiet (sends get_token) (sends r) w refl calm
      then cond-Quiet (net.status after == 200) (pure true) (Wan.retry_request net n r) after
          (Quiet-refl after) (retry-IsQuiet n r calm after)

  stage_if-IsQuiet : (b : Bool) (name : String) (s : SjobStage) → IsQuiet (update_stage_if b name s)
  unfolding is_create
  stage_if-IsQuiet true name s w = Quiet-step (stage_is name s) w refl
  stage_if-IsQuiet false name s w = Quiet-refl w

  on_reply-IsQuiet :
      (network teardown : String) (sdn : Bool) (path : Option ℤ) (again : M Setup.Reserved)
      → IsQuiet again
      → IsQuiet (Setup.on_reply network teardown sdn path again)
  unfolding Setup.on_reply
  on_reply-IsQuiet network teardown sdn (some id) again q w =
      stage_if-IsQuiet sdn network success w then stage_if-IsQuiet sdn teardown pending _
  on_reply-IsQuiet network teardown sdn none again q w = q w

  attempt-Quiet :
      (network : String) (sdn : Bool) (url : String) (r : SdnRequest) (w : World)
      → Quiet w (sends (sdn_reserve url r) ∷ (update_stage_if sdn network working w).1)
  unfolding is_create
  attempt-Quiet network sdn url r w =
      stage_if-IsQuiet sdn network working w then Quiet-step (sends (sdn_reserve url r)) _ refl

  reserve_site-IsQuiet :
      (network teardown : String) (sdn : Bool) (url : String) (r : SdnRequest) (left : ℕ)
      → IsQuiet (Setup.reserve_site net network teardown sdn url r left)
  unfolding Setup.reserve_site is_create
  reserve_site-IsQuiet network teardown sdn url r zero w =
      attempt-Quiet network sdn url r w
      then on_reply-IsQuiet network teardown sdn _ _
          (λ x. Quiet-step (stage_is network SjobStage.error) x refl) _
  reserve_site-IsQuiet network teardown sdn url r (suc left) w =
      attempt-Quiet network sdn url r w
      then on_reply-IsQuiet network teardown sdn _ _
          (reserve_site-IsQuiet network teardown sdn url r left) _

  at_destination-IsQuiet : (i : ℤ) (r : Setup.Reserved) → IsQuiet (Setup.at_destination net i r)
  unfolding Setup.at_destination
  at_destination-IsQuiet i (Setup.reserved j) w = Quiet-refl w
  at_destination-IsQuiet i (Setup.refused reply) w = Quiet-refl w

  at_source-IsQuiet :
      (src dst : Dtn) (rate oscars : ℤ) (r : Setup.Reserved)
      → IsQuiet (Setup.at_source net src dst rate oscars r)
  unfolding Setup.at_source
  at_source-IsQuiet src dst rate oscars (Setup.reserved i) w =
      reserve_site-IsQuiet "network.lan_dst" "teardown.lan_dst" dst.sdn_setup dst.site_url
        (Setup.sdn_rpc dst src rate oscars) 2 w
      then at_destination-IsQuiet i _ _
  at_source-IsQuiet src dst rate oscars (Setup.refused reply) w = Quiet-refl w

  pre_pings-IsQuiet : (b : Bool) (src dst : Dtn) → IsQuiet (Setup.pre_pings net b src dst)
  unfolding Setup.pre_pings is_create
  pre_pings-IsQuiet true src dst w =
      two-Quiet (sends (icmp_ping src.site_url src.id dst.data_ip))
        (sends (icmp_ping dst.site_url dst.id src.data_ip)) w refl refl
  pre_pings-IsQuiet false src dst w = Quiet-refl w

  pub setup_sdn_path-IsQuiet :
      (src dst : Dtn) (rate : ℤ) (pre_ping : Bool) (a b : ℤ)
      → IsQuiet (Setup.setup_sdn_path net src dst rate pre_ping a b)
  unfolding Setup.setup_sdn_path
  setup_sdn_path-IsQuiet src dst rate pre_ping a b w =
      pre_pings-IsQuiet pre_ping src dst w
      then reserve_site-IsQuiet "network.lan_src" "teardown.lan_src" src.sdn_setup src.site_url
          (Setup.sdn_rpc src dst rate a) 2 _
      then at_source-IsQuiet src dst rate b _ _

  verify_tries-IsQuiet : (src dst : Dtn) (n : ℕ) → IsQuiet (Setup.verify_tries net src dst n)
  unfolding Setup.verify_tries is_create
  verify_tries-IsQuiet src dst zero w = Quiet-step _ w refl
  verify_tries-IsQuiet src dst (suc n) w =
      let v : World = sends (icmp_ping src.site_url src.id dst.data_ip) ∷ w in
      Quiet-step (sends (icmp_ping src.site_url src.id dst.data_ip)) w refl
      then cond-Quiet (eqb_ℤ (net.ping_reply v).code (pos 0)) (pure (net.ping_reply v))
          (Setup.verify_tries net src dst n) v (Quiet-refl v) (verify_tries-IsQuiet src dst n v)

  pub verify_path-IsQuiet : (src dst : Dtn) → IsQuiet (Setup.verify_path net src dst)
  unfolding Setup.verify_path
  verify_path-IsQuiet src dst w = verify_tries-IsQuiet src dst _ w

  release_site-IsQuiet :
      (stage : String) (here there : Dtn) → IsQuiet (Teardown.release_site net stage here there)
  unfolding Teardown.release_site is_create
  release_site-IsQuiet stage here there w =
      let request : Request = sdn_release here.site_url here.path_id here.id there.data_ip in
      cond-Quiet (eqb_ℤ here.path_id (negsuc 0)) (pure tt)
        (update_stage_if here.sdn_setup stage working >> ask net.sdn_reply request >>= λ _.
          update_stage_if here.sdn_setup stage success)
        w (Quiet-refl w)
        (stage_if-IsQuiet here.sdn_setup stage working w
          then Quiet-step (sends request) _ refl
          then stage_if-IsQuiet here.sdn_setup stage success _)

  teardown_sdn_path-IsQuiet : (src dst : Dtn) → IsQuiet (Teardown.teardown_sdn_path net src dst)
  unfolding Teardown.teardown_sdn_path is_create
  teardown_sdn_path-IsQuiet src dst w =
      Quiet-step (state_is _) w refl
      then release_site-IsQuiet "teardown.lan_src" src dst _
      then release_site-IsQuiet "teardown.lan_dst" dst src _

  after_delete-IsQuiet : (b : Bool) → IsQuiet (Teardown.after_delete net b)
  unfolding Teardown.after_delete is_create
  after_delete-IsQuiet true w = Quiet-step _ w refl
  after_delete-IsQuiet false w = Quiet-step _ w refl

  after_terminate-IsQuiet : (v : String) (b : Bool) → IsQuiet (Teardown.after_terminate net v b)
  unfolding Teardown.after_terminate Wan.del is_create
  after_terminate-IsQuiet v true w =
      retry-IsQuiet 4 (wan_delete v) refl w then after_delete-IsQuiet _ _
  after_terminate-IsQuiet v false w = Quiet-step _ w refl

  after_release-IsQuiet : (v : String) (b : Bool) → IsQuiet (Teardown.after_release net v b)
  unfolding Teardown.after_release Wan.terminate is_create
  after_release-IsQuiet v true w =
      retry-IsQuiet 4 (wan_terminate v) refl w then after_terminate-IsQuiet v _ _
  after_release-IsQuiet v false w = Quiet-step _ w refl
