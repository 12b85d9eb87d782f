-- ===== src/Messagebus/Subscribe.antt =====
-- `_process_channel_subscription` of opsiconfd/messagebus/websocket.py and
-- `create_messagebus_session_channel` of opsiconfd/messagebus/redis.py.
pub mod Keeps
pub mod Safe
use opsiconfd.Prelude.{
  ℕ, suc, String, List, [], ◌∷◌, ◌++◌, Option, none, some, Bool, true, false, if◌then◌else◌, ◌==◌,
  ◌&&◌, ◌||◌, not, eqb, any, get_elem?, map,
}
use Prim.Native.String.{◌++◌ as ◌+++◌}
use text.Mathlib.Text.{starts_with}
use opsiconfd.Prelude.Text.{contains, truthy}
use opsiconfd.Prelude.Dict.{Dict, insert, lookup, keys}
use opsiconfd.Prelude.Split.{cut, split}
use opsiconfd.Prelude.Effect.{Effect, Outcome, done, raised, pure, raise, change, ◌>>=◌, ◌>>◌}
use opsiconfd.Messagebus.Names.{Names, get_config_service_channel, get_user_id_for_service_worker}
use opsiconfd.Messagebus.Data.{
  Operation, add, set, remove, unknown, Error, invalid_operation, invalid_channel,
  invalid_session_id, index_error, already_exists, read_denied, Reply, Reader, Bus,
}
use opsiconfd.Messagebus.Readers.{
  get_subscribed_channels, remove_from, change_plain, add_channels, get_channel_names,
}
use opsiconfd.Messagebus.Unsubscribe.{unsubscribe}
use opsiconfd.Messagebus.Access.{read, check_channel_access}

-- What the websocket is told of its surroundings: the two names that opsicommon has for the channels
-- of a connection, the id of the worker, and the modules that are licensed.
pub record Env : Type 0 where
  pub names : Names
  pub connection_user_channel : String
  pub connection_session_channel : String
  pub worker_id : String
  pub available_modules : List String

abbrev pub Act : Type 0 → Type 0
Act = Effect Bus Error

-- A message to the client.
abbrev pub answer : Reply → Act (Unit {0})
answer r = change (λ b. record b { replies = b.replies ++ r ∷ [] })

-- `bool(d)`
abbrev is_empty : Dict String → Bool
is_empty [] = true
is_empty (e ∷ d) = false

-- `UUID(session_id) if session_id else uuid4()`
abbrev channel_id : Names → Option String → Option String
channel_id names none = some names.uuid4
channel_id names (some i) = if i == "" then some names.uuid4 else names.uuid i

-- `create_messagebus_session_channel`
unfoldable pub create_session_channel : Names → String → Option String → Bool → Act String
create_session_channel names owner_id session_id exists_ok b = elim (channel_id names session_id) [
  | none ↦ (raised invalid_session_id, b)
  | some i ↦
      let channel = "session:" +++ i in
      elim (any (λ m. m.channel == channel) b.entries) [
        | true ↦ elim exists_ok [ true ↦ (done channel, b) | false ↦ (raised already_exists, b) ]
        | false ↦ (done channel, record b { owners = insert channel owner_id b.owners })
      ]
]

module _ (env : Env) (is_admin : Bool) where
  abbrev pub worker_user : String
  worker_user = get_user_id_for_service_worker env.names env.worker_id

  -- The names for the channels of the connection, and of the config server.
  unfoldable pub resolve : String → Bus → String
  resolve c b =
      if c == env.connection_user_channel
      then b.messagebus_user_id
      else if c == env.connection_session_channel
      then b.session_channel
      else if starts_with c "service:config:"
      then get_config_service_channel env.names c
      else c

  -- A new reader, whose task is started.
  abbrev pub add_reader : Option (String × String) → Dict String → Act (Unit {0})
  add_reader consumer channels = change (λ b. record b {
    readers =
        b.readers
        ++ record {
          ref = b.next_ref;
          consumer = consumer;
          channels = channels;
          should_stop = false;
        }
          ∷ [];
    next_ref = suc b.next_ref;
  })

  -- `self._session_channel.split(':', 1)[1]`
  unfoldable pub read_service : String → Act (Unit {0})
  read_service c b = elim (cut 58 b.session_channel) [
    | none ↦ (raised index_error, b)
    | some (_, id) ↦ add_reader (some (c, b.messagebus_user_id +++ ":" +++ id)) ((c, "0") ∷ []) b
  ]

  abbrev pub start_id : String → String
  start_id c = if starts_with c "event:" || starts_with c "session:" then "$" else ">"

  -- A channel that is not of a service: the session channel of others is created.
  unfoldable pub prepare_channel : String → Act (Unit {0})
  prepare_channel c b = elim (starts_with c "session:" && not (c == b.session_channel)) [
    | false ↦ (done tt, b)
    | true ↦ elim (get_elem? (split 58 c) 1) [
      | none ↦ (raised index_error, b)
      | some i ↦
          (do
            channel ← create_session_channel env.names b.messagebus_user_id (some i) true
            pure tt)
            b
    ]
  ]

  -- The loop over the channels, with those that are read by one reader. It ends with none at the
  -- first channel that must not be read, and the client is told so.
  unfoldable pub subscribe : String → List String → Dict String → Act (Option (Dict String))
  subscribe back [] d b = (done (some d), b)
  subscribe back (c ∷ cs) d b =
      elim (check_channel_access env.names b.messagebus_user_id is_admin read c) [
        | none ↦ (raised invalid_channel, b)
        | some allowed ↦ elim allowed [
          | false ↦
              (answer (record {
                reply_sender = worker_user;
                reply_channel = back;
                ref_id = none;
                subscribed_channels = [];
                error = some (read_denied c);
              })
                  >> pure none)
                b
          | true ↦ elim (starts_with c "service:") [
            | true ↦ (read_service c >> subscribe back cs d) b
            | false ↦ (prepare_channel c >> subscribe back cs (insert c (start_id c) d)) b
          ]
        ]
      ]

  unfoldable pub read_channels : Dict String → Act (Unit {0})
  read_channels d b = elim (is_empty d) [
    | true ↦ (done tt, b)
    | false ↦ elim (change_plain (add_channels d) b.readers) [
      | none ↦ add_reader none d b
      | some rs ↦ (done tt, record b { readers = rs })
    ]
  ]

  -- What the client is told at the end.
  unfoldable pub confirm : String → Act (Unit {0})
  confirm back b =
      answer
        (record {
          reply_sender = worker_user;
          reply_channel = back;
          ref_id = none;
          subscribed_channels = keys (get_subscribed_channels b.readers);
          error = none;
        })
        b

  -- What is done once the loop over the channels has ended.
  abbrev pub read_and_confirm : String → Option (Dict String) → Act (Unit {0})
  read_and_confirm back none = pure tt
  read_and_confirm back (some d) = read_channels d >> confirm back

  unfoldable pub subscribe_and_read : String → List String → Act (Unit {0})
  subscribe_and_read back cs = do d ← subscribe back cs []; read_and_confirm back d

  abbrev is_unknown : Operation → Bool
  is_unknown (unknown s) = true
  is_unknown _ = false

  -- `message.back_channel or self._session_channel`
  abbrev or_session : Option String → Bus → String
  or_session none b = b.session_channel
  or_session (some c) b = if c == "" then b.session_channel else c

  abbrev follow : Operation → String → List String → Act (Unit {0})
  follow add back cs = subscribe_and_read back cs
  follow set back cs = subscribe_and_read back cs
  follow remove back cs = confirm back
  follow (unknown s) back cs = raise invalid_operation

  -- `_process_channel_subscription`: the operation and the back channel are those of the message.
  unfoldable pub process_channel_subscription :
      Operation → Option String → List String → Act (Unit {0})
  process_channel_subscription op back_channel channels b =
      let back = or_session back_channel b in
      if is_unknown op
      then answer
          (record {
            reply_sender = worker_user;
            reply_channel = back;
            ref_id = none;
            subscribed_channels = [];
            error = some invalid_operation;
          })
          b
      else (let cs = map (λ c. resolve (env.names.strip c) b) channels in
          follow op back cs (unsubscribe op cs b))
