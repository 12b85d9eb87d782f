-- ===== src/Messagebus/Samples.antt =====
-- A client on the message bus, and what it sends.
use opsiconfd.Prelude.{
  String, [], ◌∷◌, ◌++◌, false, if◌then◌else◌, ◌==◌, ◌≡◌, refl, ◌⊎◌, inl, inr, none, some, arith,
  map,
}
use opsiconfd.Prelude.Int.{pos}
use opsiconfd.Prelude.Split.{count_char}
use opsiconfd.Prelude.Dict.{lookup, insert, keys}
use opsiconfd.Prelude.Effect.{Ends}
use opsiconfd.Sessions.Data.{Session, client}
use opsiconfd.Sessions.Samples.{session}
use opsiconfd.Messagebus.Names.{Names, check_channel_name}
use opsiconfd.Messagebus.Data.{add, set, subscription_request, other_message, Kind, Message, Bus}
use opsiconfd.Messagebus.Subscribe.{Env}
use opsiconfd.Messagebus.Receive.{Codec, ReadsSender, on_receive}
use opsiconfd.Messagebus.Receive.Sends.{IsPermitted, on_receive-sends}
use opsiconfd.Messagebus.Connect.{on_connect, receive_all, is_session_connected}
use opsiconfd.Messagebus.Connect.Announces.{
  IsSafe, has_connection, receive_all-IsSafe, on_connect-event,
}
use opsiconfd.Messagebus.Receive.{
  decode_data, handle_data, get_id, handle_dict, handle_message, check_access, readdress,
  resolve_target, resolve_back, send_message,
}
use opsiconfd.Messagebus.Access.{check_channel_access, allows, check_message_type_access}
use opsiconfd.Messagebus.Names.{
  check_service, ends_with, check_session, check_depot, check_event, check_node, check_worker,
  get_config_service_channel, get_user_id_for_service_worker, join, get_user_id_for_host,
  get_user_id_for_user,
}
use opsiconfd.Messagebus.Readers.{
  add_channels, change_plain, eq_list, get_channel_names, get_subscribed_channels, remove_channels,
  remove_from, remove_keys, same_sorted, subscribe_all, subscribed_from, update, set_channels,
}
use opsiconfd.Messagebus.Subscribe.{
  confirm, create_session_channel, prepare_channel, process_channel_subscription, read_channels,
  read_service, resolve, subscribe, subscribe_and_read,
}
use opsiconfd.Messagebus.Unsubscribe.{add_to_group, group, remove_groups, to_remove, unsubscribe}
use opsiconfd.Messagebus.Connect.{
  identify, open_channels, update_websocket_count, state_key, session_event, is_connected,
}
use opsiconfd.Prelude.Dict.{remove as remove_key}
use opsiconfd.Prelude.Sort.{insert as insert_sorted, sort}
use opsiconfd.Prelude.Split.{cut, split, cut_last}
use opsiconfd.Prelude.Text.{contains, text_le}
use opsiconfd.Prelude.Int.{◌+ℤ◌}

abbrev names : Names
names = record {
  lower = λ s. s;
  strip = λ s. s;
  replace = λ s a b. s;
  uuid = λ s. some s;
  uuid4 = "s1";
  host_id = λ s. some s;
  user_id = λ s. some s;
  node_name = λ s. some s;
  unsigned_int = λ s. some s;
  configserver_id = "config";
}

abbrev env : Env
env = record {
  names = names;
  connection_user_channel = "@";
  connection_session_channel = "$";
  worker_id = "w:1";
  available_modules = [];
}

-- The websocket of the client c1 once it is open.
abbrev opened : Bus
opened = record {
  messagebus_user_id = "host:c1";
  session_channel = "session:s1";
  readers =
      record {
        ref = 0;
        consumer = none;
        channels = ("host:c1", ">") ∷ ("session:s1", "$") ∷ [];
        should_stop = false;
      }
      ∷ [];
  next_ref = 1;
  replies = [];
  messages_received = 0;
  entries = [];
  owners = ("session:s1", "host:c1") ∷ [];
  counts = ("clients:c1", pos 1) ∷ [];
}

abbrev kind_of : String → Kind
kind_of s =
    if s == "take"
    then subscription_request add ("host:c2" ∷ [])
    else if s == "leave"
    then subscription_request set []
    else other_message

-- The client says that another one sends the message.
abbrev codec : Codec String
codec = record {
  decompress = λ s. none;
  decode = λ s. some (("id", "7") ∷ ("sender", "host:c2") ∷ ("text", s) ∷ []);
  text = λ s. s;
  from_dict = λ d. elim (lookup "sender" d) [
    | none ↦ none
    | some s ↦ some (record {
      message_type = "jsonrpc_request";
      message_id = "7";
      sender = s;
      channel = "service:messagebus";
      back_channel = none;
      kind = kind_of (elim (lookup "text" d) [ none ↦ "" | some t ↦ t ]);
    })
  ];
  id_text = λ s. s;
}

codec-ReadsSender : ReadsSender codec
codec-ReadsSender d m s e f = ground arith

abbrev client_session : Session
client_session = record session {
  host = some (record {
    id = "c1";
    host_type = client;
    opsi_host_key = none;
    one_time_password = none;
    ip_address = none;
  });
  is_admin = false;
}

on_receive-sends_example :
    let t = (on_receive codec env false false "hello" opened).1 in
    (t.entries ≡ [])
    ⊎ ((m : Message) × (t.entries ≡ [] ++ m ∷ []) × IsPermitted codec env false "host:c1" m)
on_receive-sends_example = on_receive-sends codec env false codec-ReadsSender false "hello" opened

-- The message is put into redis, and the client itself is the sender.
sent_by_client :
    map (λ m. m.sender) (on_receive codec env false false "hello" opened).1.entries ≡ "host:c1" ∷ []
unfolding decode_data handle_data get_id handle_dict handle_message check_access readdress
    resolve_target resolve_back send_message check_channel_access allows check_message_type_access
    check_service ends_with check_session check_depot check_event check_node check_worker
    get_config_service_channel get_user_id_for_service_worker join get_user_id_for_host
    get_user_id_for_user add_channels change_plain eq_list get_channel_names get_subscribed_channels
    remove_channels remove_from remove_keys same_sorted subscribe_all subscribed_from update
    set_channels confirm create_session_channel prepare_channel process_channel_subscription
    read_channels read_service resolve subscribe subscribe_and_read add_to_group group remove_groups
    to_remove unsubscribe identify open_channels update_websocket_count state_key session_event
    is_connected remove_key insert_sorted sort cut split cut_last contains text_le ◌+ℤ◌ keys lookup
    insert check_channel_name on_receive
sent_by_client = refl

opened-IsSafe : IsSafe env false opened
unfolding check_channel_name check_session split join keys contains
opened-IsSafe = record {
  all_readable = (
    (
      record { name = "host:c1"; is_name = refl; granted = inr (inl refl) },
      (record { name = "session:s1"; is_name = refl; granted = inl refl }, tt),
    ),
    tt,
  );
  own_channel = refl;
}

receive_all-IsSafe_example :
    IsSafe env false (receive_all env codec client_session false ("take" ∷ "leave" ∷ []) opened)
receive_all-IsSafe_example =
    receive_all-IsSafe env codec client_session false ("take" ∷ "leave" ∷ []) opened opened-IsSafe

-- The first subscription is refused, the second removes the channel of the host.
channels_left :
    map
      (λ r. keys r.channels)
      (receive_all env codec client_session false ("take" ∷ "leave" ∷ []) opened).readers
    ≡ ("session:s1" ∷ []) ∷ []
unfolding receive_all decode_data handle_data get_id handle_dict handle_message check_access
    readdress resolve_target resolve_back send_message check_channel_access allows
    check_message_type_access check_service ends_with check_session check_depot check_event
    check_node check_worker get_config_service_channel get_user_id_for_service_worker join
    get_user_id_for_host get_user_id_for_user add_channels change_plain eq_list get_channel_names
    get_subscribed_channels remove_channels remove_from remove_keys same_sorted subscribe_all
    subscribed_from update set_channels confirm create_session_channel prepare_channel
    process_channel_subscription read_channels read_service resolve subscribe subscribe_and_read
    add_to_group group remove_groups to_remove unsubscribe identify open_channels
    update_websocket_count state_key session_event is_connected remove_key insert_sorted sort cut
    split cut_last contains text_le ◌+ℤ◌ keys lookup insert check_channel_name on_receive
channels_left = refl

-- A client that opens a second websocket.
on_connect-event_example :
    Ends
      (λ _ t.
        (m : Message) × (t.entries ≡ m ∷ [])
        × (m.channel
            ≡ (if has_connection client_session opened then "" else "event:host_connected")))
      (λ _ t. t.entries ≡ [])
      (on_connect env client_session opened)
unfolding count_char
on_connect-event_example = on_connect-event env client_session opened refl

again_unnamed : map (λ m. m.channel) (on_connect env client_session opened).1.entries ≡ "" ∷ []
unfolding on_connect is_session_connected decode_data handle_data get_id handle_dict handle_message
    check_access readdress resolve_target resolve_back send_message check_channel_access allows
    check_message_type_access check_service ends_with check_session check_depot check_event
    check_node check_worker get_config_service_channel get_user_id_for_service_worker join
    get_user_id_for_host get_user_id_for_user add_channels change_plain eq_list get_channel_names
    get_subscribed_channels remove_channels remove_from remove_keys same_sorted subscribe_all
    subscribed_from update set_channels confirm create_session_channel prepare_channel
    process_channel_subscription read_channels read_service resolve subscribe subscribe_and_read
    add_to_group group remove_groups to_remove unsubscribe identify open_channels
    update_websocket_count state_key session_event is_connected remove_key insert_sorted sort cut
    split cut_last contains text_le ◌+ℤ◌ keys lookup insert check_channel_name on_receive
again_unnamed = refl
