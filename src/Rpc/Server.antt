-- ===== src/Rpc/Server.antt =====
-- utils/rpcserver.cc: `RpcServer`.
use bigdataexpress_c.Base.{String, str_append, Option, none, some, str_eq, if◌then◌else◌}
use bigdataexpress_c.Base.Keyed.{Keyed, lookup}
use bigdataexpress_c.Rpc.{Message, Packet}

pub record RpcProps : Type 0 where
  pub correlation_id : String
  pub reply_to : String

-- With a handler the server works in bypass mode.
pub data Mode (V : Type 0) : Type 0 where
  bypass : Mode V
  handles : Keyed (V → V) → Mode V

-- `cid` is the member, and `queue` is made of the argument.
pub record Server (V : Type 0) : Type 0 where
  pub cid : String
  pub queue : String
  pub mode : Mode V

unfoldable pub new_server : {V : Type 0} → String → String → Mode V → Server V
new_server guid cid mode = record {
  cid = if str_eq cid "" then guid else cid;
  queue = str_append "rpc/" cid;
  mode = mode;
}

-- The members of a body that the code reads, and the bodies that it makes.
pub record Bodies (V : Type 0) : Type 0 where
  pub cmd : V → String
  pub params : V → V
  pub target : V → Option String
  pub no_handler : V → V
  pub code_1 : String → V

-- A message is handed to the handler, or a response is published.
pub data Served (V : Type 0) : Type 0 where
  hands : V → RpcProps → Served V
  publishes : Packet V → Served V

module _ {V : Type 0} where
  abbrev pub response_packet : String → String → V → Packet V
  response_packet topic corr body = record {
    topic = topic;
    message = record { corr_id = corr; reply_to = ""; body = body };
  }

  abbrev pub props_of : Message V → RpcProps
  props_of msg = record { correlation_id = msg.corr_id; reply_to = msg.reply_to }

  abbrev pub handle : Bodies V → V → Option (V → V) → V
  handle j body none = j.no_handler body
  handle j body (some h) = h (j.params body)

  abbrev pub serve : Bodies V → Message V → Mode V → Served V
  serve j msg bypass = hands msg.body (props_of msg)
  serve j msg (handles hs) = publishes (
      response_packet (str_append "rpc/" msg.reply_to) msg.corr_id
        (handle j msg.body (lookup (j.cmd msg.body) hs)))

  unfoldable pub server_on_msg : Bodies V → Message V → Server V → Served V
  server_on_msg j msg s = serve j msg s.mode

  -- Only a server in bypass mode sends; another logs an error.
  abbrev pub response_of : V → RpcProps → Mode V → Option (Packet V)
  response_of body props bypass = some (response_packet props.reply_to props.correlation_id body)
  response_of body props (handles hs) = none

  unfoldable pub send_response : V → RpcProps → Server V → Option (Packet V)
  send_response body props s = response_of body props s.mode
