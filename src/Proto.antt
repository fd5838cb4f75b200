-- ===== src/Proto.antt =====
-- The messages of src/consensus_interface.proto and src/database_interface.proto, and
-- `grpc::Status`. A message that is not filled in has proto3's default values.
use cs739_p2_replicated_data.Base.{String, Bool, true, false}
use cs739_p2_replicated_data.Base.Int.{ℤ, pos}
use cs739_p2_replicated_data.Map.{Map}

pub data Operation : Type 0 where
  get_op set_op delete_op set_leader not_set : Operation

pub record Request : Type 0 where
  pub key : String
  pub value : String
  pub pserver_id : ℤ
  pub aserver_id : ℤ
  pub round : ℤ
  pub op : Operation

pub record Response : Type 0 where
  pub value : String
  pub pserver_id : ℤ
  pub aserver_id : ℤ
  pub round : ℤ
  pub op : Operation

pub record LogEntry : Type 0 where
  pub p_server_id : ℤ
  pub a_server_id : ℤ
  pub op : Operation
  pub accepted_value : String

abbrev pub empty_request : Request
empty_request = record {
  key = "";
  value = "";
  pserver_id = pos 0;
  aserver_id = pos 0;
  round = pos 0;
  op = get_op;
}

abbrev pub empty_response : Response
empty_response = record {
  value = "";
  pserver_id = pos 0;
  aserver_id = pos 0;
  round = pos 0;
  op = get_op;
}

abbrev pub empty_entry : LogEntry
empty_entry = record { p_server_id = pos 0; a_server_id = pos 0; op = get_op; accepted_value = "" }

pub record ElectLeaderRequest : Type 0 where
  pub key : String
  pub value : String

pub record GetResponse : Type 0 where
  pub error : ℤ
  pub value : String

abbrev pub empty_get_response : GetResponse
empty_get_response = record { error = pos 0; value = "" }

pub record SetRequest : Type 0 where
  pub key : String
  pub value : String

pub record StatisticsResponse : Type 0 where
  pub incount : Map String ℤ
  pub outcount : Map String ℤ

-- `grpc::StatusCode`, those that the program makes or tells apart
pub data StatusCode : Type 0 where
  cancelled unknown deadline_exceeded aborted unavailable : StatusCode

pub data Status : Type 0 where
  ok : Status
  failed : StatusCode → String → Status

-- `Status::ok()`
abbrev pub is_ok : Status → Bool
is_ok ok = true
is_ok (failed c m) = false

-- What a handler hands back: its status and the message that it filled in.
pub record Reply (A : Type 0) : Type 0 where
  pub status : Status
  pub response : A
