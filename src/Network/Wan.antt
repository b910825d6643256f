-- ===== src/Network/Wan.antt =====
-- server/wan.{h,cc}: paths across the wide area, by requests to the WAN service. Before each
-- request a new token is asked for. The waits between retries are not modelled.
pub mod Laws
use bigdataexpress_c.Base.{
  ℕ, zero, suc, ◌-◌, String, Bool, true, false, Option, none, some, List, [], ◌∷◌, ◌==◌, str_eq,
  if◌then◌else◌,
}
use bigdataexpress_c.Base.Int.{ℤ, pos, eqb_ℤ}
use bigdataexpress_c.Base.Keyed.{or_else}
use bigdataexpress_c.Network.{
  Label, any, number, Request, get_token, wan_create, wan_reserve, wan_commit, wan_release,
  wan_terminate, wan_delete, Query, maximum_bandwidth, extract_result_values, other_query,
  CreateReply, Net, World, M, pure, ◌>>=◌, ◌>>◌, ask, emit, sends,
}

-- `wan_create_res_t`
pub record WanCreated : Type 0 where
  pub uuid : String
  pub src_vlan : ℤ
  pub dst_vlan : ℤ
  pub max_bw : ℤ

-- One of the results of a query for VLANs. A value that is no number counts as 0.
unfoldable pub read_vlan : String → String → WanCreated → String × Option ℤ → WanCreated
read_vlan src_stp dst_stp res (port, vlan) =
    if str_eq port src_stp
    then record res { src_vlan = or_else vlan (pos 0) }
    else if str_eq port dst_stp
    then record res { dst_vlan = or_else vlan (pos 0) }
    else res

unfoldable pub read_vlans : String → String → WanCreated → List (String × Option ℤ) → WanCreated
unfolding read_vlan
read_vlans src_stp dst_stp res [] = res
read_vlans src_stp dst_stp res (v ∷ vs) =
    read_vlans src_stp dst_stp (read_vlan src_stp dst_stp res v) vs

unfoldable pub read_query : String → String → WanCreated → Query → WanCreated
unfolding read_vlans
read_query src_stp dst_stp res (maximum_bandwidth bw) = record res { max_bw = or_else bw (pos 0) }
read_query src_stp dst_stp res (extract_result_values vs) = read_vlans src_stp dst_stp res vs
read_query src_stp dst_stp res other_query = res

unfoldable pub read_queries : String → String → WanCreated → List Query → WanCreated
unfolding read_query
read_queries src_stp dst_stp res [] = res
read_queries src_stp dst_stp res (q ∷ qs) =
    read_queries src_stp dst_stp (read_query src_stp dst_stp res q) qs

-- The label of a VLAN number in a reservation.
unfoldable pub vlan_label : ℤ → Label
vlan_label vlan = if eqb_ℤ vlan (pos 0) then any else number vlan

module _ (net : Net) where
  abbrev request : Request → M ℕ
  request r = emit (sends get_token) >> ask net.status r

  unfoldable pub create : String → String → Label → Label → M WanCreated
  unfolding read_queries
  create src_stp dst_stp src_vlan dst_vlan = do
    emit (sends get_token)
    r ← ask net.create_reply (wan_create src_stp dst_stp src_vlan dst_vlan)
    pure (
        read_queries src_stp dst_stp
          (record { uuid = r.service_uuid; src_vlan = pos 0; dst_vlan = pos 0; max_bw = pos 0 })
          r.queries)

  unfoldable pub reserve : String → String → String → ℤ → ℤ → M Bool
  unfolding vlan_label
  reserve uuid src_stp dst_stp src_vlan dst_vlan = do
    status ← request (wan_reserve uuid src_stp dst_stp (vlan_label src_vlan) (vlan_label dst_vlan))
    pure (status == 201)

  unfoldable pub commit : String → M Bool
  commit uuid = do status ← request (wan_commit uuid); pure (status == 200)

  -- `while (++retry < max_retry)`, by the rounds that are left.
  unfoldable pub retry_request : ℕ → Request → M Bool
  retry_request zero r = pure false
  retry_request (suc rounds) r = do
    status ← request r
    let again = retry_request rounds r
    if status == 200 then pure true else again

  -- The counter is raised before it is compared, so a limit of 5 makes 4 rounds.
  unfoldable pub release : String → ℕ → M Bool
  unfolding retry_request
  release uuid max_retry = retry_request (max_retry - 1) (wan_release uuid)

  unfoldable pub terminate : String → ℕ → M Bool
  unfolding retry_request
  terminate uuid max_retry = retry_request (max_retry - 1) (wan_terminate uuid)

  unfoldable pub del : String → ℕ → M Bool
  unfolding retry_request
  del uuid max_retry = retry_request (max_retry - 1) (wan_delete uuid)

-- The default of `max_retry`.
abbrev pub default_retry : ℕ
default_retry = 5
