-- ===== src/Rpc/Agents.antt =====
-- agent/agentmanager.cc and agentmanager.h: `AgentManager::get`, `has_module` and
-- `rpc_msg_handler`, the handler of the manager's RPC server, which works in bypass mode.
use bigdataexpress_c.Base.{
  String, str_append, Bool, true, false, Option, none, some, List, [], ◌∷◌, str_eq, if◌then◌else◌,
}
use bigdataexpress_c.Rpc.Server.{Bodies}

-- A module; its `command` returns a body or throws.
pub record Agent (V : Type 0) : Type 0 where
  pub id : String
  pub command : String → V → Option V

-- Where the body of the response comes from: it is there at once, or a command is dispatched, which
-- throws out of its handler where it gives none.
pub data Dispatched (V : Type 0) : Type 0 where
  responds : V → Dispatched V
  dispatches : Option V → Dispatched V

abbrev or_empty : Option String → String
or_empty none = ""
or_empty (some t) = t

module _ {V : Type 0} where
  unfoldable pub get_agent : String → List (Agent V) → Option (Agent V)
  get_agent id [] = none
  get_agent id (m ∷ mstore) = if str_eq m.id id then some m else get_agent id mstore

  unfoldable pub has_module : String → List (Agent V) → Bool
  has_module id [] = false
  has_module id (m ∷ mstore) = if str_eq m.id id then true else has_module id mstore

  abbrev to_agent : Bodies V → String → V → Option (Agent V) → Dispatched V
  to_agent j t msg none =
      responds (j.code_1 (str_append "Error: " (str_append t " agent module not found")))
  to_agent j t msg (some m) = dispatches (m.command (j.cmd msg) (j.params msg))

  unfoldable pub rpc_msg_handler : Bodies V → List (Agent V) → V → Dispatched V
  unfolding get_agent
  rpc_msg_handler j mstore msg =
      let t = or_empty (j.target msg) in
      if str_eq t ""
      then responds (j.code_1 "Ignoring message; no target.")
      else if str_eq t "daemon"
      then responds (j.code_1 "Ignoring message; daemon target.")
      else to_agent j t msg (get_agent t mstore)
