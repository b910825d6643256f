-- ===== src/Requests/Undone.antt =====
-- server/scheduler.cc: what a reservation of a path sends and what its release sends.
use bigdataexpress_c.Base.{
  String, ◌≡◌, refl, sym, ap, subst, ◌⊎◌, inl, inr, Bool, true, false, Option, none, some, List, [],
  ◌∷◌, All, arith,
}
use bigdataexpress_c.Base.Int.{ℤ, pos, ltb_ℤ}
use bigdataexpress_c.Base.Keyed.{lookup, is_some}
use bigdataexpress_c.Graph.{Node, RGraph, has_dtn_node, has_general_node, sdn_id}
use bigdataexpress_c.Graph.Build.{get_dtn_node, get_general_node, get_sdn}
use bigdataexpress_c.Requests.{
  Command, Sent, Log, Agents, pure, lift, ◌>>=◌, call, dtn_add_neighbor, dtn_add_route,
  dtn_delete_neighbor, dtn_delete_route, sdn_reserve, release_request,
}
use bigdataexpress_c.Requests.Sdn.{
  SdnParams, ReleaseParams, sdn_reserve_request, sdn_release_request,
}

module _ {V : Type 0} where
  abbrev pub Sends : String → Command V → List (Sent V) → Type 0
  Sends q c [] = ⊥
  Sends q c (s ∷ sent) = ((q ≡ s.queue) × (c ≡ s.command)) ⊎ Sends q c sent

  -- What takes a command back is sent to where it went.
  abbrev Undoes : ℤ → String → Command V → List (Sent V) → Type 0
  Undoes path q (dtn_add_neighbor t ip mac) sent = Sends q (dtn_delete_neighbor t ip) sent
  Undoes path q (dtn_add_route t ip via) sent = Sends q (dtn_delete_route t ip) sent
  Undoes path q (sdn_reserve body) sent = Sends q (release_request path) sent
  Undoes path q c sent = Unit

  abbrev pub Undone : ℤ → List (Sent V) → Sent V → Type 0
  Undone path sent s = Undoes path s.queue s.command sent

  abbrev pub no_log : Log V
  no_log = record { sent = []; answers = [] }

  abbrev pub release_of : SdnParams V → ℤ → ReleaseParams
  release_of p path = record { installed_path_id = path; dtn = p.src_id; ip = p.dst_ip }

  -- What the two requests send, by the nodes that they find; the second before what was sent.
  abbrev entries_put : SdnParams V → Node → List (Sent V)
  entries_put p d =
      record { queue = d.queue; command = dtn_add_route d.rid p.dst_ip p.src_ip }
      ∷ record { queue = d.queue; command = dtn_add_neighbor d.rid p.dst_ip p.dst_mac }
      ∷ []

  abbrev reserve_sends : SdnParams V → Option Node → Option Node → Bool → List (Sent V)
  reserve_sends p none sdn setup = []
  reserve_sends p (some d) (some s) true =
      record { queue = s.queue; command = sdn_reserve p.body } ∷ entries_put p d
  reserve_sends p (some d) none true = entries_put p d
  reserve_sends p (some d) sdn false = entries_put p d

  abbrev entries_sends : ReleaseParams → Option Node → List (Sent V) → List (Sent V)
  entries_sends p none sent = sent
  entries_sends p (some d) sent =
      record { queue = d.queue; command = dtn_delete_neighbor p.dtn p.ip }
      ∷ record { queue = d.queue; command = dtn_delete_route p.dtn p.ip }
      ∷ sent

  abbrev path_sends : ReleaseParams → Node → List (Sent V) → List (Sent V)
  path_sends p s sent =
      record { queue = s.queue; command = release_request p.installed_path_id } ∷ sent

  abbrev release_sends :
      ReleaseParams → Option Node → Option Node → Bool → List (Sent V) → List (Sent V)
  release_sends p dtn none true sent = sent
  release_sends p dtn (some s) true sent = entries_sends p dtn (path_sends p s sent)
  release_sends p dtn sdn false sent = entries_sends p dtn sent

  entries-Undone :
      (p : SdnParams V) (path : ℤ) (d : Node) (sent : List (Sent V))
      → d.rid ≡ p.src_id
      → All (Undone path (entries_sends (release_of p path) (some d) sent)) (entries_put p d)
  entries-Undone p path d sent own = (
    inr (inl (refl, ap (λ t. dtn_delete_route t p.dst_ip) own)),
    (inl (refl, ap (λ t. dtn_delete_neighbor t p.dst_ip) own), tt),
  )

  sends-Undone :
      (p : SdnParams V) (path : ℤ) (o s : Option Node) (setup positive : Bool)
      (sent : List (Sent V))
      → ((n : Node) → o ≡ some n → n.rid ≡ p.src_id)
      → (setup ≡ true → positive ≡ true)
      → (positive ≡ true → is_some s ≡ true)
      → All
          (Undone path (release_sends (release_of p path) o s positive sent))
          (reserve_sends p o s setup)
  sends-Undone p path none s setup positive sent own h k = tt
  sends-Undone p path (some d) none true positive sent own h k = absurd (ground (arith, k (h refl)))
  sends-Undone p path (some d) none false true sent own h k = absurd (ground (arith, k refl))
  sends-Undone p path (some d) none false false sent own h k =
      entries-Undone p path d sent (own d refl)
  sends-Undone p path (some d) (some s) true false sent own h k = absurd (ground (arith, h refl))
  sends-Undone p path (some d) (some s) true true sent own h k = (
    inr (inr (inl (refl, refl))),
    entries-Undone p path d (path_sends (release_of p path) s sent) (own d refl),
  )
  sends-Undone p path (some d) (some s) false true sent own h k =
      entries-Undone p path d (path_sends (release_of p path) s sent) (own d refl)
  sends-Undone p path (some d) (some s) false false sent own h k =
      entries-Undone p path d sent (own d refl)

  module _ (env : Agents V) (g : RGraph) where
    reserve_sends_lem :
        (p : SdnParams V)
        → (sdn_reserve_request env g p no_log).1.sent
          ≡ reserve_sends p
              (lookup p.src_id g.dtn_nodes)
              (lookup sdn_id g.general_nodes)
              p.sdn_setup
    unfolding sdn_reserve_request has_dtn_node has_general_node get_dtn_node get_general_node
        get_sdn pure lift ◌>>=◌ call
    reserve_sends_lem p = ground arith

    release_sends_lem :
        (p : ReleaseParams) (l : Log V)
        → (sdn_release_request env g p l).1.sent
          ≡ release_sends p
              (lookup p.dtn g.dtn_nodes)
              (lookup sdn_id g.general_nodes)
              (ltb_ℤ (pos 0) p.installed_path_id)
              l.sent
    unfolding sdn_release_request has_dtn_node has_general_node get_dtn_node get_general_node
        get_sdn pure lift ◌>>=◌ call
    release_sends_lem p l = ground arith

    -- Where the DTN stands under its own identifier, the path that was set up has a positive
    -- identifier, and for a positive one the SDN agent is there: whatever a reservation sends to
    -- put an ARP entry, a route or a path, the release, later and from whatever state, sends to the
    -- same queue what takes it back. Where the DTN is offline nothing is sent.
    pub sdn_release_request-Undone :
        (p : SdnParams V) (path : ℤ) (l : Log V)
        → ((n : Node) → lookup p.src_id g.dtn_nodes ≡ some n → n.rid ≡ p.src_id)
        → (p.sdn_setup ≡ true → ltb_ℤ (pos 0) path ≡ true)
        → (ltb_ℤ (pos 0) path ≡ true → is_some (lookup sdn_id g.general_nodes) ≡ true)
        → All
            (Undone path ((sdn_release_request env g (release_of p path) l).1.sent))
            ((sdn_reserve_request env g p no_log).1.sent)
    sdn_release_request-Undone p path l own positive online =
        subst (λ sent. All (Undone path sent) (sdn_reserve_request env g p no_log).1.sent)
          (sym (release_sends_lem (release_of p path) l))
          (subst (All (Undone path _)) (sym (reserve_sends_lem p))
            (sends-Undone p path _ _ p.sdn_setup _ l.sent own positive online))
