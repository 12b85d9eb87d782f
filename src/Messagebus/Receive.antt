-- ===== src/Messagebus/Receive.antt =====
-- `on_receive` of opsiconfd/messagebus/websocket.py and `send_message` of opsiconfd/messagebus/redis.py.
pub mod Sends
use opsiconfd.Prelude.{
  ◌≡◌, ℕ, suc, String, List, [], ◌∷◌, ◌++◌, Option, none, some, Bool, true, false, if◌then◌else◌,
  ◌==◌, ◌||◌, not,
}
use text.Mathlib.Text.{starts_with}
use opsiconfd.Prelude.Dict.{Dict, insert, lookup}
use opsiconfd.Prelude.Effect.{
  Effect, Outcome, done, raised, pure, raise, change, catch, raise_if, ◌>>=◌, ◌>>◌,
}
use opsiconfd.Messagebus.Names.{get_config_service_channel}
use opsiconfd.Messagebus.Data.{
  Error, invalid_message, invalid_channel, write_denied, type_denied, Message, Kind,
  subscription_request, Bus,
}
use opsiconfd.Messagebus.Access.{write, check_channel_access, check_message_type_access}
use opsiconfd.Messagebus.Subscribe.{
  Env, Act, answer, resolve, worker_user, process_channel_subscription,
}

-- What opsicommon and msgspec do with the bytes of a message: `decompress_data`, `decode`, a string as
-- a value of a dict and back, and `Message.from_dict`. None is an exception.
pub record Codec (V : Type 0) : Type 0 where
  pub decompress : String → Option String
  pub decode : String → Option (Dict V)
  pub text : String → V
  pub from_dict : Dict V → Option Message
  pub id_text : V → String

-- `Message.from_dict` takes the sender from the dict.
abbrev pub ReadsSender : {V : Type 0} → Codec V → Type 0
ReadsSender {V} codec =
    (d : Dict V) (m : Message) (s : String)
    → codec.from_dict d ≡ some m
    → lookup "sender" d ≡ some (codec.text s)
    → m.sender ≡ s

-- `send_message`
unfoldable pub send_message : Message → Act (Unit {0})
send_message m = change (λ b. record b { entries = b.entries ++ m ∷ [] })

module _ {V : Type 0} (codec : Codec V) (env : Env) (is_admin : Bool) where
  abbrev or_raise : {A : Type 0} → Error → Option A → Act A
  or_raise e none = raise e
  or_raise e (some a) = pure a

  -- The data as a dict.
  unfoldable pub decode_data : Bool → String → Act (Dict V)
  decode_data compressed bytes = do
    plain ← or_raise invalid_message (if compressed then codec.decompress bytes else some bytes)
    or_raise invalid_message (codec.decode plain)

  -- `msg_dict["id"]`
  unfoldable pub get_id : Dict V → Option String
  get_id d = elim (lookup "id" d) [ none ↦ none | some v ↦ some (codec.id_text v) ]

  -- The back channel: the session channel, if there is none.
  unfoldable pub resolve_back : Option String → Bus → String
  resolve_back none b = b.session_channel
  resolve_back (some c) b =
      if c == "" || (c == env.connection_session_channel)
      then b.session_channel
      else if c == env.connection_user_channel
      then b.messagebus_user_id
      else c

  -- The session channel is compared with first, then the user channel.
  unfoldable pub resolve_target : String → Bus → String
  resolve_target c b =
      if c == env.connection_session_channel
      then b.session_channel
      else if c == env.connection_user_channel
      then b.messagebus_user_id
      else if starts_with c "service:config:"
      then get_config_service_channel env.names c
      else c

  unfoldable pub readdress : Message → Bus → Message
  readdress m b = record m {
    back_channel = some (resolve_back m.back_channel b);
    channel = resolve_target m.channel b;
  }

  abbrev back_of : Message → String
  back_of m = elim m.back_channel [ none ↦ "" | some c ↦ c ]

  abbrev may_write : String → Bus → Option Bool
  may_write c b = check_channel_access env.names b.messagebus_user_id is_admin write c

  -- Access to the channel and the back channel, and to the type.
  unfoldable pub check_access : Message → Act (Unit {0})
  check_access m b =
      (do
        target ← or_raise invalid_channel (may_write m.channel b)
        raise_if (not target) (write_denied m.channel)
        back ← or_raise invalid_channel (may_write (back_of m) b)
        raise_if (not back) (write_denied m.channel)
        raise_if (not (check_message_type_access env.available_modules m.message_type))
            (type_denied m.message_type))
        b

  -- A subscription is processed here, any other message is put into redis.
  abbrev forward : Kind → Message → Act (Unit {0})
  forward (subscription_request op cs) m =
      process_channel_subscription env is_admin op m.back_channel cs
  forward _ m = send_message m

  abbrev count_message : Act (Unit {0})
  count_message = change (λ b. record b { messages_received = suc b.messages_received })

  -- What is done with a message, once it is read.
  unfoldable pub handle_message : Message → Act (Unit {0})
  handle_message m b =
      let m' = readdress m b in (do check_access m'; count_message; forward m.kind m') b

  -- The sender of a message is the user of the websocket, whatever the message says.
  unfoldable pub handle_dict : Dict V → Act (Unit {0})
  handle_dict d b = elim (codec.from_dict (insert "sender" (codec.text b.messagebus_user_id) d)) [
    | none ↦ (raised invalid_message, b)
    | some m ↦ handle_message m b
  ]

  -- The client is told of an exception.
  abbrev report : Option String → Error → Act (Unit {0})
  report id e = λ b.
      answer
        (record {
          reply_sender = worker_user env is_admin;
          reply_channel = b.session_channel;
          ref_id = id;
          subscribed_channels = [];
          error = some e;
        })
        b

  unfoldable pub handle_data : Dict V → Act (Unit {0})
  handle_data d b = elim (get_id d) [
    | none ↦ report none invalid_message b
    | some id ↦ catch (handle_dict d) (report (some id)) b
  ]

  -- `on_receive`
  unfoldable pub on_receive : Bool → String → Act (Unit {0})
  on_receive compressed bytes b = elim (decode_data compressed bytes b).0 [
    | raised e ↦ report none e b
    | done d ↦ handle_data d b
  ]
