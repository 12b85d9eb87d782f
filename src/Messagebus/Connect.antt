-- ===== src/Messagebus/Connect.antt =====
-- `dispatch`, `on_connect`, `on_disconnect` and `manager_task` of opsiconfd/messagebus/websocket.py, with
-- the number of websockets and the removal of a channel of opsiconfd/messagebus/redis.py.
pub mod Announces
use opsiconfd.Prelude.{
  ℕ, ◌+◌, String, List, [], ◌∷◌, ◌++◌, Option, none, some, Bool, true, false, if◌then◌else◌, ◌==◌,
  ◌&&◌, ◌||◌, not, leb,
}
use Prim.Native.String.{◌++◌ as ◌+++◌}
use opsiconfd.Prelude.Int.{ℤ, pos, negsuc, ◌+ℤ◌, ltb_ℤ}
use opsiconfd.Prelude.Split.{cut_last}
use opsiconfd.Prelude.Dict.{Dict, insert, lookup}
use opsiconfd.Prelude.Effect.{
  Effect, Outcome, done, raised, pure, raise, change, raise_if, ◌>>=◌, ◌>>◌,
}
use opsiconfd.Sessions.Data.{Session, Host, HostType, client, depotserver, configserver}
use opsiconfd.Messagebus.Names.{get_user_id_for_host, get_user_id_for_user}
use opsiconfd.Messagebus.Data.{
  add, Error, invalid_session, no_session, not_authenticated, invalid_compression, session_deleted,
  Event, Message, event_message, Reader, Bus,
}
use opsiconfd.Messagebus.Subscribe.{
  Env, Act, answer, worker_user, create_session_channel, process_channel_subscription,
}
use opsiconfd.Messagebus.Receive.{Codec, send_message, on_receive}

-- The key of the number of websockets of a session; a config server has none.
unfoldable pub state_key : Session → Option String
state_key s = elim s.host [
  | none ↦ some ("users:" +++ s.username)
  | some h ↦ elim h.host_type [
    | client ↦ some ("clients:" +++ h.id)
    | depotserver ↦ some ("depots:" +++ h.id)
    | configserver ↦ none
  ]
]

abbrev count_of : String → Bus → ℤ
count_of k b = elim (lookup k b.counts) [ none ↦ pos 0 | some n ↦ n ]

-- `update_websocket_count`
unfoldable pub update_websocket_count : Session → ℤ → Bus → Bus
update_websocket_count s n b = elim (state_key s) [
  | none ↦ b
  | some k ↦ record b { counts = insert k (count_of k b +ℤ n) b.counts }
]

-- `get_websocket_connected_users` of one id: the part behind the last colon of the key is the id.
unfoldable pub is_connected : String → String → Bus → Bool
is_connected user_type id b =
    let key = user_type +++ "s:" +++ id in
    (elim (cut_last 58 key) [ none ↦ false | some (_, user_id) ↦ user_id == id ])
    && ltb_ℤ (pos 0) (count_of key b)

abbrev user_type : Host → String
user_type h = elim h.host_type [
  | client ↦ "client"
  | depotserver ↦ "depot"
  | configserver ↦ "depot"
]

-- `host.getType()`
abbrev type_name : Host → String
type_name h = elim h.host_type [
  | client ↦ "OpsiClient"
  | depotserver ↦ "OpsiDepotserver"
  | configserver ↦ "OpsiConfigserver"
]

-- `delete_channel`
unfoldable pub delete_channel : String → Bus → Bus
delete_channel c b = record b { entries = without b.entries }
  where
    without : List Message → List Message
    without [] = []
    without (m ∷ ms) = if m.channel == c then without ms else m ∷ without ms

-- The host or user of a session, and whether one of its websockets is connected.
abbrev subject_of : Session → String × String
subject_of s = elim s.host [ none ↦ (s.username, s.username) | some h ↦ (type_name h, h.id) ]

abbrev pub subject_kind : Session → String
subject_kind s = elim s.host [ none ↦ "user" | some h ↦ "host" ]

unfoldable pub is_session_connected : Session → Bus → Bool
is_session_connected s b = elim s.host [
  | none ↦ is_connected "user" s.username b
  | some h ↦ is_connected (user_type h) h.id b
]

module _ (env : Env) where
  -- The event about a session: its name and channel stay empty if a websocket is connected.
  unfoldable pub session_event : String → Session → Bus → Message
  session_event what s b =
      let connected = is_session_connected s b in
      let name = subject_kind s +++ what in
      record {
        message_type = "event";
        message_id = env.names.uuid4;
        sender = worker_user env s.is_admin;
        channel = if connected then "" else "event:" +++ name;
        back_channel = none;
        kind = event_message (record {
          event = if connected then "" else name;
          client_address = s.client_addr;
          worker = env.worker_id;
          subject = if connected then none else some (subject_of s);
        });
      }

  abbrev set_user : Option String → Act (Unit {0})
  set_user none = raise invalid_session
  set_user (some u) = change (λ b. record b { messagebus_user_id = u })

  -- The user id of the websocket.
  unfoldable pub identify : Session → Act (Unit {0})
  identify s b = elim s.host [
    | some h ↦ set_user (get_user_id_for_host env.names h.id) b
    | none ↦ elim (not (s.username == "") && s.is_admin) [
      | true ↦ set_user (get_user_id_for_user env.names s.username) b
      | false ↦ (raised invalid_session, b)
    ]
  ]

  -- What `on_connect` does once the user is known. The event is sent in any case.
  unfoldable pub open_channels : Session → Message → Act (Unit {0})
  open_channels s event = do
    change (update_websocket_count s (pos 1))
    channel ← λ b. create_session_channel env.names b.messagebus_user_id none true b
    change (λ b. record b { session_channel = channel })
    λ b.
        process_channel_subscription env s.is_admin add none
          (b.messagebus_user_id ∷ b.session_channel ∷ []) b
    send_message event

  -- `on_connect`
  unfoldable pub on_connect : Session → Act (Unit {0})
  on_connect s b = (identify s >> open_channels s (session_event "_connected" s b)) b

  -- `on_disconnect`: the readers are stopped, and the event is sent only if no websocket is left.
  unfoldable pub on_disconnect : Session → Bus → Bus
  on_disconnect s b =
      let t =
        delete_channel b.session_channel
          (update_websocket_count s (negsuc 0) (record b { readers = stop_all b.readers })) in
      if is_session_connected s t || is_nobody
      then t
      else record t { entries = t.entries ++ session_event "_disconnected" s t ∷ [] }
    where
      is_nobody : Bool
      is_nobody = elim s.host [ none ↦ s.username == "" | some h ↦ false ]

      stop_all : List Reader → List Reader
      stop_all [] = []
      stop_all (r ∷ rs) = record r { should_stop = true } ∷ stop_all rs

  module _ {V : Type 0} (codec : Codec V) where
    -- The loop of `dispatch`, with the data that the client sends until it disconnects.
    unfoldable pub receive_all : Session → Bool → List String → Bus → Bus
    receive_all s compressed [] b = b
    receive_all s compressed (bytes ∷ more) b =
        receive_all s compressed more (on_receive codec env s.is_admin compressed bytes b).1

    -- `_check_authorization`, and the compression that the query asks for.
    unfoldable pub check_query : Option Session → Option String → Act (Unit {0})
    check_query session compression = do
      raise_if (elim session [ none ↦ true | some s ↦ false ]) no_session
      raise_if (elim session [ none ↦ false | some s ↦ not s.authenticated ]) not_authenticated
      raise_if
          (elim compression [ none ↦ false | some c ↦ not (c == "" || c == "lz4" || c == "gzip") ])
          invalid_compression

    abbrev is_compressed : Option String → Bool
    is_compressed none = false
    is_compressed (some c) = not (c == "")

    -- `dispatch`
    unfoldable pub dispatch : Option Session → Option String → List String → Act (Unit {0})
    dispatch session compression received b =
        (do
          check_query session compression
          elim session [
            | none ↦ raise no_session
            | some s ↦ (do
              on_connect s
              change (λ t. on_disconnect s (receive_all s (is_compressed compression) received t)))
          ])
          b
