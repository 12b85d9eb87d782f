-- ===== src/Messagebus/Data.antt =====
-- The attributes of `MessagebusWebsocket` of opsiconfd/messagebus/websocket.py, what the code reads of
-- opsicommon's messages, and what redis keeps for the message bus.
use opsiconfd.Prelude.{ℕ, String, List, Option, Bool}
use opsiconfd.Prelude.Int.{ℤ}
use opsiconfd.Prelude.Dict.{Dict}

-- `ChannelSubscriptionOperation`, and any other value.
pub data Operation : Type 0 where
  add set remove : Operation
  unknown : String → Operation

-- The data of an `EventMessage`, with the host or user that it is about.
pub record Event : Type 0 where
  pub event : String
  pub client_address : String
  pub worker : String
  pub subject : Option (String × String)

-- The class of a message.
pub data Kind : Type 0 where
  subscription_request : Operation → List String → Kind
  trace_request trace_response other_message : Kind
  event_message : Event → Kind

pub record Message : Type 0 where
  pub message_type : String
  pub message_id : String
  pub sender : String
  pub channel : String
  pub back_channel : Option String
  pub kind : Kind

pub data Error : Type 0 where
  invalid_operation invalid_channel invalid_session_id invalid_message invalid_session : Error
  index_error already_exists no_session not_authenticated invalid_compression session_deleted :
      Error
  read_denied write_denied type_denied : String → Error

-- `ChannelSubscriptionEventMessage` and `GeneralErrorMessage`, which are sent to the client only.
pub record Reply : Type 0 where
  pub reply_sender : String
  pub reply_channel : String
  pub ref_id : Option String
  pub subscribed_channels : List String
  pub error : Option Error

-- `MessageReader`, or, with a group and a name, `ConsumerGroupMessageReader`. Two objects have two
-- numbers. Each of its channels has the id from which it is read.
pub record Reader : Type 0 where
  pub ref : ℕ
  pub consumer : Option (String × String)
  pub channels : Dict String
  pub should_stop : Bool

-- The websocket, and redis: the messages in the order in which they were added to the stream of their
-- channel, the owners of session channels, and the number of websockets of hosts and users.
pub record Bus : Type 0 where
  pub messagebus_user_id : String
  pub session_channel : String
  pub readers : List Reader
  pub next_ref : ℕ
  pub replies : List Reply
  pub messages_received : ℕ
  pub entries : List Message
  pub owners : Dict String
  pub counts : Dict ℤ
