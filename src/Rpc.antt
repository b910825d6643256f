-- ===== src/Rpc.antt =====
-- utils/rpcclient.cc and utils/rpcserver.cc: a call over MQTT. A client publishes a request under a
-- correlation identifier and waits for the message that carries it back. Here what both sides send;
-- `V` is the type of the JSON bodies. MQTT is not modelled: a message arrives when a step says so.
pub mod Client
pub mod Server
pub mod Agents
pub mod Book
pub mod Implements
pub mod Refines
pub mod Trip
pub mod Tests
use bigdataexpress_c.Base.{String}

-- A member that the sender leaves out is read as the empty string.
pub record Message (V : Type 0) : Type 0 where
  pub corr_id : String
  pub reply_to : String
  pub body : V

-- What goes to `Mqtt::publish`.
pub record Packet (V : Type 0) : Type 0 where
  pub topic : String
  pub message : Message V
