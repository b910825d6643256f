-- ===== src/Manager/Register/Whole.antt =====
-- `add_modules` and `del_modules` of server/resourcemanager.cc as a whole.
use bigdataexpress_c.Base.{
  ℕ, suc, String, ◌≡◌, refl, ◌&&◌, List, [], ◌∷◌, arith, str_eq, if◌then◌else◌, if_cases,
  Bool-cases, inl, inr,
}
use bigdataexpress_c.Base.Int.{pos}
use bigdataexpress_c.Outcome.{Outcome, ok, throw, fault, Safe}
use bigdataexpress_c.Graph.{
  NodeRef, RGraph, Description, StorageLink, storage, dtn, internal, update_node, has_dtn_node,
  has_storage_node, has_launcher, has_sdn, launcher_id, sdn_id, gateway_id,
}
use bigdataexpress_c.Graph.Build.{add_dtn_node, add_edge, add_edge_to_gateway}
use bigdataexpress_c.Graph.Remove.{del_node, del_launcher, del_sdn}
use bigdataexpress_c.Graph.Linked.Edges.{Added, add_edge-Safe}
use bigdataexpress_c.Manager.Register.{
  Registry, commit, describe_dtn, describe_storage, set_one_dtn_node, register_dtn, register,
  register_all, link_storage, link_storages, link_all, add_modules, del_modules,
}
use bigdataexpress_c.Manager.Register.Safe.{
  IsSound, Keeps, Keeps-and_then, writes, deletes, adds_dtn, adds_storage, adds_launcher, adds_sdn,
  draws, moved_on, still_fresh,
}

drops_launcher :
    (guid : ℕ → String) (r : Registry)
    → IsSound guid r
    → Keeps guid (if has_launcher r.rg then commit (del_launcher r.rg) r else (ok tt, r))
unfolding del_launcher
drops_launcher guid r v = elim (Bool-cases (has_launcher r.rg)) [
  | inl there ↦ rw there (deletes guid launcher_id r v)
  | inr absent ↦ rw absent (λ e. cc, v)
]

drops_sdn :
    (guid : ℕ → String) (r : Registry)
    → IsSound guid r
    → Keeps guid (if has_sdn r.rg then commit (del_sdn r.rg) r else (ok tt, r))
unfolding del_sdn
drops_sdn guid r v = elim (Bool-cases (has_sdn r.rg)) [
  | inl there ↦ rw there (deletes guid sdn_id r v)
  | inr absent ↦ rw absent (λ e. cc, v)
]

module _ (guid : ℕ → String) (inj : (i j : ℕ) → guid i ≡ guid j → i ≡ j) where
  pub register_dtn-Keeps :
      (queue : String) (m : Description) (r : Registry)
      → IsSound guid r
      → Keeps guid (register_dtn guid queue m r)
  unfolding register_dtn add_edge_to_gateway
  register_dtn-Keeps queue m r v =
      let ref : NodeRef = record { kind = dtn; key = m.id } in
      let g = update_node ref (describe_dtn queue m) (add_dtn_node m.id m.name (pos 0) r.rg) in
      let v' : IsSound guid (record r { rg = g }) =
        writes guid ref (describe_dtn queue m)
          (record r { rg = add_dtn_node m.id m.name (pos 0) r.rg })
          (λ n. unfold describe_dtn in refl) (λ n. unfold describe_dtn in refl)
          (adds_dtn guid m.id m.name (pos 0) r v) in
      if_cases (λ o. Keeps guid (commit o (record { rg = g; drawn = suc r.drawn })))
        (has_dtn_node m.id g)
        (λ _. draws guid inj m.id gateway_id m.data_rate (record r { rg = g }) v')
        (λ _. (λ e. cc, moved_on guid inj (record r { rg = g }) v'))

  register-Keeps :
      (queue : String) (m : Description) (r : Registry)
      → IsSound guid r
      → Keeps guid (register guid queue m r)
  unfolding register
  register-Keeps queue m r v =
      if_cases (Keeps guid) (str_eq m.type "DTN") (λ _. register_dtn-Keeps queue m r v)
        (λ _.
          if_cases (Keeps guid) (str_eq m.type "LocalStorage")
            (λ _. (
              λ e. cc,
              writes guid (record { kind = storage; key = m.id }) (describe_storage queue m) _
                  (λ n. unfold describe_storage in refl) (λ n. unfold describe_storage in refl)
                  (adds_storage guid m.id m.name internal (pos 1000000) r v),
            ))
            (λ _.
              if_cases (Keeps guid) (str_eq m.type "Launcher")
                (λ _.
                  Keeps-and_then guid _ _ (drops_launcher guid r v)
                    (λ s w. (λ e. cc, adds_launcher guid m.id queue s w)))
                (λ _.
                  if_cases (Keeps guid) (str_eq m.type "SDN")
                    (λ _.
                      Keeps-and_then guid _ _ (drops_sdn guid r v)
                        (λ s w. (λ e. cc, adds_sdn guid m.id queue s w)))
                    (λ _. (λ e. cc, v)))))

  register_all-Keeps :
      (queue : String) (ms : List Description) (r : Registry)
      → IsSound guid r
      → Keeps guid (register_all guid queue ms r)
  unfolding register_all
  register_all-Keeps queue [] r v = (λ e. cc, v)
  register_all-Keeps queue (m ∷ ms) r v =
      Keeps-and_then guid (register guid queue m r) (register_all guid queue ms)
        (register-Keeps queue m r v) (register_all-Keeps queue ms)

  pub link_storage-Keeps :
      (id : String) (s : StorageLink) (r : Registry)
      → IsSound guid r
      → Keeps guid (link_storage guid id s r)
  unfolding link_storage
  link_storage-Keeps id s r v = outcome (add_edge (guid r.drawn) s.id id (pos 40000000000) r.rg) (
      add_edge-Safe (guid r.drawn) s.id id (pos 40000000000) r.rg v.linked
        (v.fresh r.drawn (omega arith)))
    where
      written : (g : RGraph) → RGraph
      written g =
          if has_storage_node s.id g && has_dtn_node id g
          then update_node (record { kind = storage; key = s.id }) (set_one_dtn_node id) g
          else g

      outcome :
          (o : Outcome RGraph)
          → Safe (Added (guid r.drawn) r.rg) o
          → Keeps guid (elim o [
            | throw e ↦ (ok tt, record r { drawn = suc r.drawn })
            | fault ↦ (fault, r)
            | ok g ↦ (ok tt, record { rg = written g; drawn = suc r.drawn })
          ])
      outcome (ok g) d =
          let w : IsSound guid (record { rg = g; drawn = suc r.drawn }) =
            still_fresh guid inj r g v d in
          (
            λ e. cc,
            if_cases (λ h. IsSound guid (record { rg = h; drawn = suc r.drawn }))
                (has_storage_node s.id g && has_dtn_node id g)
                (λ _.
                  writes guid _ (set_one_dtn_node id) _ (λ n. unfold set_one_dtn_node in refl)
                    (λ n. unfold set_one_dtn_node in refl) w)
                (λ _. w),
          )
      outcome (throw e) d = (λ x. cc, moved_on guid inj r v)
      outcome fault d = absurd d

  link_storages-Keeps :
      (id : String) (ss : List StorageLink) (r : Registry)
      → IsSound guid r
      → Keeps guid (link_storages guid id ss r)
  unfolding link_storages
  link_storages-Keeps id [] r v = (λ e. cc, v)
  link_storages-Keeps id (s ∷ ss) r v =
      Keeps-and_then guid (link_storage guid id s r) (link_storages guid id ss)
        (link_storage-Keeps id s r v) (link_storages-Keeps id ss)

  link_all-Keeps :
      (ms : List Description) (r : Registry) → IsSound guid r → Keeps guid (link_all guid ms r)
  unfolding link_all
  link_all-Keeps [] r v = (λ e. cc, v)
  link_all-Keeps (m ∷ ms) r v =
      Keeps-and_then guid _ (link_all guid ms)
        (if_cases (Keeps guid) (str_eq m.type "DTN") (λ _. link_storages-Keeps m.id m.storages r v)
          (λ _. (λ e. cc, v)))
        (link_all-Keeps ms)

  -- Where no two drawn identifiers are equal, whatever agents register, from a sound registry
  -- `add_modules` follows no dangling pointer and the registry is sound again, also where the
  -- registration throws.
  pub add_modules-Keeps :
      (queue : String) (ms : List Description) (r : Registry)
      → IsSound guid r
      → Keeps guid (add_modules guid queue ms r)
  unfolding add_modules
  add_modules-Keeps queue ms r v =
      Keeps-and_then guid (register_all guid queue ms r) (link_all guid ms)
        (register_all-Keeps queue ms r v) (link_all-Keeps ms)

-- Whatever agents leave, from a sound registry `del_modules` follows no dangling pointer and the
-- registry is sound again, also where a deletion throws.
pub del_modules-Keeps :
    (guid : ℕ → String) (ms : List Description) (r : Registry)
    → IsSound guid r
    → Keeps guid (del_modules ms r)
unfolding del_modules
del_modules-Keeps guid [] r v = (λ e. cc, v)
del_modules-Keeps guid (m ∷ ms) r v =
    Keeps-and_then guid (commit (del_node m.id r.rg) r) (del_modules ms) (deletes guid m.id r v)
      (del_modules-Keeps guid ms)
