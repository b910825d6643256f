-- ===== src/Manager/Gateway.antt =====
-- The key of the gateway in the graph that `construct` of server/resourcemanager.cc builds, and the
-- key under which `create_job` looks for it.
use bigdataexpress_c.Base.{
  ℕ, suc, String, ◌≡◌, refl, Bool, true, false, Option, none, some, List, [], ◌∷◌, ◌&&◌, arith,
  eq_iff, if◌then◌else◌, inl, inr, Option-cases, ap, sym, subst, ◌≢◌, if_cases,
}
use bigdataexpress_c.Base.Int.{ℤ, pos}
use bigdataexpress_c.Base.Keyed.{
  lookup, lookup-update, lookup-emplace, map_option, update, emplace, insert,
}
use bigdataexpress_c.Outcome.{
  Outcome, Error, ok, throw, fault, ◌>>=◌, storage_not_found, dtn_not_found, general_not_found,
}
use bigdataexpress_c.Job.{BaseJob, JobState, add_basic_job}
use bigdataexpress_c.Graph.{
  RGraph, Node, NodeRef, NodeKind, storage, dtn, general, Description, StorageLink, internal, reset,
  update_node, with_nodes, get_node, has_storage_node, has_dtn_node,
}
use bigdataexpress_c.Graph.Build.{
  add_gateway, add_general_node, add_storage_node, add_dtn_node, add_edge, add_edge_to_gateway,
  insert_edge, connect, add_in_edge, add_out_edge, has_edge, get_edge, get_storage_node,
  get_dtn_node, get_general_node,
}
use bigdataexpress_c.Manager.Provision.{Manager}
use bigdataexpress_c.Manager.Register.{
  Registry, Call, commit, and_then, describe_storage, describe_dtn, register_dtn, link_storage,
  set_one_dtn_node,
}
use bigdataexpress_c.Manager.Construct.{
  construct_storage, construct_storages, construct_dtns, construct_edges, construct,
}
use bigdataexpress_c.Manager.Streams.{Stream, create_job, group_of, Creation}

-- No general node stands under the key "gateway".
abbrev Lacks : RGraph → Type 0
Lacks g = lookup "gateway" g.general_nodes ≡ none

map_none {ℓ} : {V : Type ℓ} (f : V → V) (o : Option V) → o ≡ none → map_option f o ≡ none
map_none f none h = refl
map_none f (some v) h = ground (arith, h)

with_nodes-Lacks :
    (kind : NodeKind) (k : String) (f : Node → Node) (g : RGraph)
    → Lacks g
    → Lacks (with_nodes kind (update k f) g)
unfolding with_nodes
with_nodes-Lacks storage k f g h = h
with_nodes-Lacks dtn k f g h = h
with_nodes-Lacks general k f g h = ground (
  arith,
  lookup-update k "gateway" f g.general_nodes,
  map_none f (lookup "gateway" g.general_nodes) h,
  h,
)

update_node-Lacks :
    (ref : NodeRef) (f : Node → Node) (g : RGraph) → Lacks g → Lacks (update_node ref f g)
unfolding update_node
update_node-Lacks ref f g h = with_nodes-Lacks ref.kind ref.key f g h

insert_edge-Lacks :
    (guid : String) (src dst : NodeRef) (capacity : ℤ) (g : RGraph)
    → Lacks g
    → Lacks (insert_edge guid src dst capacity g)
unfolding insert_edge connect
insert_edge-Lacks guid src dst capacity g h =
    update_node-Lacks dst (add_in_edge guid) _ (update_node-Lacks src (add_out_edge guid) _ h)

-- What a call that changes the graph gives.
abbrev Gives : Outcome RGraph → Type 0
Gives (ok g) = Lacks g
Gives (throw e) = Unit
Gives fault = Unit

bind-Gives {ℓ} :
    {A : Type ℓ} (o : Outcome A) (f : A → Outcome RGraph)
    → ((a : A) → Gives (f a))
    → Gives (o >>= f)
bind-Gives (ok a) f h = h a
bind-Gives (throw e) f h = tt
bind-Gives fault f h = tt

if-Gives : (b : Bool) (o p : Outcome RGraph) → Gives o → Gives p → Gives (if b then o else p)
if-Gives true o p h k = h
if-Gives false o p h k = k

add_edge-Gives :
    (guid s d : String) (capacity : ℤ) (g : RGraph) → Lacks g → Gives (add_edge guid s d capacity g)
unfolding add_edge
add_edge-Gives guid s d capacity g h = bind-Gives (has_edge s d g) _ (λ known.
    if-Gives known _ _ (bind-Gives (get_edge s d g) _ (λ e. h)) (
      bind-Gives (get_node s g) _
        (λ src. bind-Gives (get_node d g) _ (λ dst. insert_edge-Lacks guid src dst capacity g h))))

-- The graph after a call has no such node.
abbrev Leaves : Call → Type 0
Leaves c = Lacks c.1.rg

and_then-Leaves :
    (c : Call) (f : Registry → Call)
    → Leaves c
    → ((r : Registry) → Lacks r.rg → Leaves (f r))
    → Leaves (and_then c f)
and_then-Leaves (ok _, r) f h k = k r h
and_then-Leaves (throw e, r) f h k = h
and_then-Leaves (fault, r) f h k = h

commit-Leaves : (o : Outcome RGraph) (r : Registry) → Gives o → Lacks r.rg → Leaves (commit o r)
commit-Leaves (ok g) r h k = h
commit-Leaves (throw e) r h k = k
commit-Leaves fault r h k = k

construct_storages-Lacks :
    (ss : List Description) (g : RGraph) → Lacks g → Lacks (construct_storages ss g)
unfolding construct_storages construct_storage add_storage_node
construct_storages-Lacks [] g h = h
construct_storages-Lacks (s ∷ ss) g h = construct_storages-Lacks ss _ (
    update_node-Lacks (record { kind = storage; key = s.id }) (describe_storage s.queue_name s)
      (add_storage_node s.id s.name internal s.io_capacity g) h)

module _ (guid : ℕ → String) where
  register_dtn-Leaves :
      (queue : String) (m : Description) (r : Registry)
      → Lacks r.rg
      → Leaves (register_dtn guid queue m r)
  unfolding register_dtn add_edge_to_gateway add_dtn_node
  register_dtn-Leaves queue m r h =
      let g =
        update_node (record { kind = dtn; key = m.id }) (describe_dtn queue m)
          (add_dtn_node m.id m.name (pos 0) r.rg) in
      let same : Lacks g =
        update_node-Lacks (record { kind = dtn; key = m.id }) (describe_dtn queue m)
          (add_dtn_node m.id m.name (pos 0) r.rg) h in
      commit-Leaves _ _
        (if-Gives (has_dtn_node m.id g) _ _
          (add_edge-Gives (guid r.drawn) m.id _ m.data_rate g same) (tt))
        same

  linked-Leaves :
      (o : Outcome RGraph) (id : String) (s : StorageLink) (r : Registry)
      → Gives o
      → Lacks r.rg
      → Leaves (elim o [
        | throw e ↦ (ok tt, record r { drawn = suc r.drawn })
        | fault ↦ (fault, r)
        | ok g ↦ (
          ok tt,
          record {
            rg =
                if has_storage_node s.id g && has_dtn_node id g
                then update_node (record { kind = storage; key = s.id }) (set_one_dtn_node id) g
                else g;
            drawn = suc r.drawn;
          },
        )
      ])
  linked-Leaves (ok g) id s r h k =
      if_cases Lacks (has_storage_node s.id g && has_dtn_node id g)
        (λ _. update_node-Lacks (record { kind = storage; key = s.id }) (set_one_dtn_node id) g h)
        (λ _. h)
  linked-Leaves (throw e) id s r h k = k
  linked-Leaves fault id s r h k = k

  link_storage-Leaves :
      (id : String) (s : StorageLink) (r : Registry)
      → Lacks r.rg
      → Leaves (link_storage guid id s r)
  unfolding link_storage
  link_storage-Leaves id s r h =
      linked-Leaves (add_edge (guid r.drawn) s.id id (pos 40000000000) r.rg) id s r
        (add_edge-Gives (guid r.drawn) s.id id (pos 40000000000) r.rg h) h

  construct_dtns-Leaves :
      (ds : List Description) (r : Registry) → Lacks r.rg → Leaves (construct_dtns guid ds r)
  unfolding construct_dtns
  construct_dtns-Leaves [] r h = h
  construct_dtns-Leaves (d ∷ ds) r h =
      and_then-Leaves (register_dtn guid d.queue_name d r) (construct_dtns guid ds)
        (register_dtn-Leaves d.queue_name d r h) (construct_dtns-Leaves ds)

  construct_edges-Leaves :
      (sds : List (String × String)) (r : Registry)
      → Lacks r.rg
      → Leaves (construct_edges guid sds r)
  unfolding construct_edges
  construct_edges-Leaves [] r h = h
  construct_edges-Leaves ((s, d) ∷ sds) r h =
      and_then-Leaves (link_storage guid d (record { id = s; type = ""; name = "" }) r)
        (construct_edges guid sds)
        (link_storage-Leaves d (record { id = s; type = ""; name = "" }) r h)
        (construct_edges-Leaves sds)

  fresh-Lacks : Lacks (add_gateway reset)
  unfolding add_gateway add_general_node lookup emplace insert
  fresh-Lacks = refl

  construct-Leaves :
      (storages dtns : List Description) (sdmaps : List (String × String)) (r : Registry)
      → Leaves (construct guid storages dtns sdmaps r)
  unfolding construct
  construct-Leaves storages dtns sdmaps r =
      let started = record r { rg = construct_storages storages (add_gateway reset) } in
      and_then-Leaves (construct_dtns guid dtns started) (construct_edges guid sdmaps)
        (construct_dtns-Leaves dtns started
          (construct_storages-Lacks storages (add_gateway reset) fresh-Lacks))
        (construct_edges-Leaves sdmaps)

-- Without the node the job has been started when the graph is asked for it.
no_gateway-throws :
    (guid : String) (s : Stream) (m : Manager)
    → lookup "gateway" m.rg.general_nodes ≡ none
    → (e : Error) × (create_job guid s m
        ≡ (throw e, record m { jm = add_basic_job guid (group_of s) JobState.running s.rate m.jm }))
unfolding create_job get_storage_node get_dtn_node get_general_node
no_gateway-throws guid s m missing = elim (Option-cases (lookup s.src_storage m.rg.s_nodes)) [
  | inl e ↦ (storage_not_found s.src_storage, ground (arith, e))
  | inr (snode, e) ↦ (elim (Option-cases (lookup s.src_dtn m.rg.dtn_nodes)) [
    | inl d ↦ (dtn_not_found s.src_dtn, ground (arith, e, d))
    | inr (dnode, d) ↦ (general_not_found "gateway", ground (arith, e, d, missing))
  ])
]

-- What is left of the manager: the job runs, and nothing else has changed.
unfoldable pub LeavesJob : String → Stream → Manager → Manager → Type 0
LeavesJob guid s before after =
    (after.rg ≡ before.rg)
    × (after.writes ≡ before.writes)
    × (lookup guid after.jm
        ≡ some (record { id = guid; group = group_of s; state = JobState.running; rate = s.rate }))
    × ((k : String) → k ≢ guid → lookup k after.jm ≡ lookup k before.jm)

started-LeavesJob :
    (guid : String) (s : Stream) (m : Manager)
    → lookup guid m.jm ≡ none
    → LeavesJob guid s m
        (record m { jm = add_basic_job guid (group_of s) JobState.running s.rate m.jm })
unfolding LeavesJob add_basic_job
started-LeavesJob guid s m new =
    let job : BaseJob = record {
      id = guid;
      group = group_of s;
      state = JobState.running;
      rate = s.rate;
    } in
    (
      refl,
      refl,
      ground (arith, lookup-emplace guid guid job m.jm, new, eq_iff guid guid),
      λ k other. ground (arith, lookup-emplace guid k job m.jm, eq_iff guid k, other),
    )

-- In a graph that `construct` has built, whatever the store says, also where the building threw,
-- `create_job` throws for every stream, since it looks for the gateway under a key that no node has,
-- if it comes so far: it writes nothing to the store and leaves the graph as it was. But with a new
-- identifier the stream's job stays among the jobs of the manager, where it runs, and the other jobs
-- are as they were.
pub create_job-throws :
    (guids : ℕ → String) (storages dtns : List Description) (sdmaps : List (String × String))
    (r : Registry) (guid : String) (s : Stream) (m : Manager)
    → m.rg ≡ (construct guids storages dtns sdmaps r).1.rg
    → lookup guid m.jm ≡ none
    → (e : Error) × ((create_job guid s m).0 ≡ throw e) × LeavesJob guid s m (create_job guid s m).1
create_job-throws guids storages dtns sdmaps r guid s m built new =
    let missing : Lacks m.rg =
      subst Lacks (sym built) (construct-Leaves guids storages dtns sdmaps r) in
    let (e, out) = no_gateway-throws guid s m missing in
    (
      e,
      ap (λ (c : Creation). c.0) out,
      subst (LeavesJob guid s m) (sym (ap (λ (c : Creation). c.1) out))
          (started-LeavesJob guid s m new),
    )
