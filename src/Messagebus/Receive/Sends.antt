-- ===== src/Messagebus/Receive/Sends.antt =====
-- What a client can do by the messages that it sends.
use opsiconfd.Prelude.{
  suc, String, [], ◌∷◌, ◌++◌, Bool, true, false, ◌≡◌, refl, sym, subst, ◌⊎◌, arith, eq_iff, inl,
  inr, not, Option, none, some,
}
use text.Mathlib.Text.{starts_with}
use opsiconfd.Prelude.Dict.{Dict, insert, lookup-insert}
use opsiconfd.Prelude.Effect.{
  Outcome, raise_if, ◌>>=◌, ◌>>◌, done, raised, Ends, Ends-bind, Ends-imp, Ends-state, Ends-option,
  catch, handled,
}
use opsiconfd.Messagebus.Names.{Names, check_channel_name, ends_with}
use opsiconfd.Messagebus.Data.{
  Error, invalid_channel, invalid_message, write_denied, type_denied, Message, Kind,
  subscription_request, trace_request, trace_response, other_message, event_message, Bus,
}
use opsiconfd.Messagebus.Removal.{AllRead, is_read}
use opsiconfd.Messagebus.Access.{write, allows, check_channel_access, check_message_type_access}
use opsiconfd.Messagebus.Subscribe.{Env}
use opsiconfd.Messagebus.Subscribe.Keeps.{Readable, Keeps, Keeps-refl, Keeps-trans, touched}
use opsiconfd.Messagebus.Subscribe.Safe.{process_channel_subscription-IsKept}
use opsiconfd.Messagebus.Receive.{
  or_raise, Codec, ReadsSender, send_message, decode_data, get_id, readdress, back_of, check_access,
  forward, handle_message, handle_dict, handle_data, report, on_receive,
}

-- What a user may write to: the checked name is a session channel, the user's own, or a channel of a
-- service for the message bus or for JSON-RPC, or the user is an administrator.
pub record MayWrite (names : Names) (user : String) (is_admin : Bool) (c : String) : Type 0 where
  pub name : String
  pub is_name : check_channel_name names c ≡ some name
  pub granted :
      (starts_with name "session:" ≡ true)
      ⊎ ((name ≡ user)
          ⊎ ((starts_with name "service:" ≡ true)
                × ((ends_with name ":messagebus" ≡ true) ⊎ (ends_with name ":jsonrpc" ≡ true))
              ⊎ (is_admin ≡ true)))

check_channel_access-MayWrite :
    (names : Names) (user : String) (is_admin : Bool) (c : String)
    → check_channel_access names user is_admin write c ≡ some true
    → MayWrite names user is_admin c
unfolding check_channel_access allows
check_channel_access-MayWrite names user is_admin c h = go (check_channel_name names c) refl h
  where
    go :
        (o : Option String)
        → check_channel_name names c ≡ o
        → (elim o [ none ↦ none | some n ↦ some (allows user is_admin write n) ]) ≡ some true
        → MayWrite names user is_admin c
    go none e h = absurd (cc h)
    go (some n) e h = record { name = n; is_name = e; granted = ground (arith, eq_iff n user) }

module _ {V : Type 0} (codec : Codec V) (env : Env) (is_admin : Bool) where
  -- A message that the user of the websocket may send.
  pub record IsPermitted (user : String) (m : Message) : Type 0 where
    pub own_sender : m.sender ≡ user
    pub target : MayWrite env.names user is_admin m.channel
    pub back : MayWrite env.names user is_admin (back_of codec env is_admin m)
    pub licensed : check_message_type_access env.available_modules m.message_type ≡ true

  pub record IsAllowed (user : String) (m : Message) : Type 0 where
    may_target : MayWrite env.names user is_admin m.channel
    may_back : MayWrite env.names user is_admin (back_of codec env is_admin m)
    is_licensed : check_message_type_access env.available_modules m.message_type ≡ true

  -- The same, where the sender depends on what `Message.from_dict` is documented to do.
  pub record IsSent (user : String) (m : Message) : Type 0 where
    from_user : ReadsSender codec → m.sender ≡ user
    allowed : IsAllowed user m

  check_access-Ends :
      (m : Message) (b : Bus)
      → Ends
          (λ _ t. (t ≡ b) × IsAllowed b.messagebus_user_id m)
          (λ _ t. t ≡ b)
          (check_access codec env is_admin m b)
  unfolding check_access
  check_access-Ends m b = checked _ _ _ refl refl refl
    where
      checked :
          (o p : Option Bool) (l : Bool)
          → check_channel_access env.names b.messagebus_user_id is_admin write m.channel ≡ o
          → check_channel_access env.names b.messagebus_user_id is_admin write
              (back_of codec env is_admin m)
            ≡ p
          → check_message_type_access env.available_modules m.message_type ≡ l
          → Ends {A = Unit {0}}
              (λ _ t. (t ≡ b) × IsAllowed b.messagebus_user_id m)
              (λ _ t. t ≡ b)
              ((do
                target ← or_raise codec env is_admin invalid_channel o
                raise_if (not target) (write_denied m.channel)
                back ← or_raise codec env is_admin invalid_channel p
                raise_if (not back) (write_denied m.channel)
                raise_if (not l) (type_denied m.message_type))
                b)
      checked none p l e f g = refl
      checked (some false) p l e f g = refl
      checked (some true) none l e f g = refl
      checked (some true) (some false) l e f g = refl
      checked (some true) (some true) false e f g = refl
      checked (some true) (some true) true e f g = (
        refl,
        record {
          may_target =
              check_channel_access-MayWrite env.names b.messagebus_user_id is_admin m.channel e;
          may_back = check_channel_access-MayWrite env.names b.messagebus_user_id is_admin _ f;
          is_licensed = g;
        },
      )

  -- What a received message leaves: at most one message is put into redis, and that is permitted.
  pub record Leaves (b t : Bus) : Type 0 where
    pub same_user : t.messagebus_user_id ≡ b.messagebus_user_id
    pub same_session : t.session_channel ≡ b.session_channel
    pub all_read :
        AllRead (Readable env is_admin b.messagebus_user_id) b.readers
        → AllRead (Readable env is_admin b.messagebus_user_id) t.readers
    pub own_read :
        is_read b.session_channel b.readers ≡ true → is_read b.session_channel t.readers ≡ true
    pub sends :
        (t.entries ≡ b.entries)
        ⊎ ((m : Message) × (t.entries ≡ b.entries ++ m ∷ []) × IsSent b.messagebus_user_id m)

  quiet : (b t : Bus) → Keeps env is_admin b t → Leaves b t
  quiet b t k = record {
    same_user = k.same_user;
    same_session = k.same_session;
    all_read = k.all_read;
    own_read = k.own_read;
    sends = inl k.same_entries;
  }

  abbrev AreLeft : {A : Type 0} → Bus → Outcome Error A × Bus → Type 0
  AreLeft b = Ends (λ _. Leaves b) (λ _. Leaves b)

  counted : Bus → Bus
  counted b = record b { messages_received = suc b.messages_received }

  sent :
      (m : Message) (b : Bus)
      → (ReadsSender codec → m.sender ≡ b.messagebus_user_id)
      → IsAllowed b.messagebus_user_id m
      → Leaves b (record (counted b) { entries = b.entries ++ m ∷ [] })
  unfolding counted
  sent m b e h = record {
    same_user = refl;
    same_session = refl;
    all_read = λ q. q;
    own_read = λ q. q;
    sends = inr (m, refl, record { from_user = e; allowed = h });
  }

  forward-AreLeft :
      (k : Kind) (m : Message) (b : Bus)
      → (ReadsSender codec → m.sender ≡ b.messagebus_user_id)
      → IsAllowed b.messagebus_user_id m
      → AreLeft b (forward codec env is_admin k m (counted b))
  unfolding counted send_message
  forward-AreLeft (subscription_request op cs) m b e h =
      Ends-imp (λ _. Keeps env is_admin (counted b)) (λ _. Leaves b)
        (λ _. Keeps env is_admin (counted b)) (λ _. Leaves b) _
        (process_channel_subscription-IsKept env is_admin op m.back_channel cs (counted b))
        (λ _ t g. quiet b t (
          Keeps-trans env is_admin b (counted b) t
            (touched env is_admin b (counted b) refl refl refl refl) g))
        (λ _ t g. quiet b t (
          Keeps-trans env is_admin b (counted b) t
            (touched env is_admin b (counted b) refl refl refl refl) g))
  forward-AreLeft trace_request m b e h = sent m b e h
  forward-AreLeft trace_response m b e h = sent m b e h
  forward-AreLeft other_message m b e h = sent m b e h
  forward-AreLeft (event_message ev) m b e h = sent m b e h

  handle_message-AreLeft :
      (m : Message) (b : Bus)
      → (ReadsSender codec → m.sender ≡ b.messagebus_user_id)
      → AreLeft b (handle_message codec env is_admin m b)
  unfolding handle_message readdress counted
  handle_message-AreLeft m b e =
      let m' = readdress codec env is_admin m b in
      Ends-bind (λ _ t. (t ≡ b) × IsAllowed b.messagebus_user_id m') (λ _. Leaves b) (λ _. Leaves b)
        (check_access codec env is_admin m' b) _
        (Ends-imp (λ _ t. (t ≡ b) × IsAllowed b.messagebus_user_id m')
          (λ _ t. (t ≡ b) × IsAllowed b.messagebus_user_id m') (λ _ t. t ≡ b) (λ _. Leaves b)
          (check_access codec env is_admin m' b) (check_access-Ends m' b) (λ _ t g. g)
          (λ _ t g. subst (Leaves b) (sym g) (quiet b b (Keeps-refl env is_admin b))))
        (λ _ t g.
          subst (λ s. AreLeft b (forward codec env is_admin m.kind m' (counted s))) (sym g.0)
            (forward-AreLeft m.kind m' b e g.1))

  handle_dict-AreLeft : (d : Dict V) (b : Bus) → AreLeft b (handle_dict codec env is_admin d b)
  unfolding handle_dict
  handle_dict-AreLeft d b =
      Ends-option (λ _. Leaves b) (λ _. Leaves b)
        (codec.from_dict (insert "sender" (codec.text b.messagebus_user_id) d)) _ _
        (λ _. quiet b b (Keeps-refl env is_admin b))
        (λ m e. handle_message-AreLeft m b (λ reads.
          reads _ m b.messagebus_user_id e
            (ground (arith, lookup-insert "sender" "sender" (codec.text b.messagebus_user_id) d))))

  -- The client is told of an exception, and nothing else changes.
  told :
      (b t : Bus) (id : Option String) (e : Error)
      → Leaves b t
      → Leaves b (report codec env is_admin id e t).1
  told b t id e h = record {
    same_user = h.same_user;
    same_session = h.same_session;
    all_read = h.all_read;
    own_read = h.own_read;
    sends = h.sends;
  }

  handled-AreLeft :
      (b : Bus) (id : Option String) (r : Outcome Error (Unit {0}) × Bus)
      → AreLeft b r
      → AreLeft b (handled r (report codec env is_admin id))
  handled-AreLeft b id (done u, t) h = h
  handled-AreLeft b id (raised e, t) h = told b t id e h

  pub on_receive-Leaves :
      (compressed : Bool) (bytes : String) (b : Bus)
      → Leaves b (on_receive codec env is_admin compressed bytes b).1
  unfolding on_receive handle_data
  on_receive-Leaves compressed bytes b =
      Ends-state (Leaves b) (on_receive codec env is_admin compressed bytes b)
        (decoded (decode_data codec env is_admin compressed bytes b).0)
    where
      same : Leaves b b
      same = quiet b b (Keeps-refl env is_admin b)

      identified :
          (o : Option String) (d : Dict V)
          → AreLeft {A = Unit {0}} b (elim o [
            | none ↦ report codec env is_admin none invalid_message b
            | some id ↦
                catch (handle_dict codec env is_admin d) (report codec env is_admin (some id)) b
          ])
      identified none d = told b b none invalid_message same
      identified (some id) d =
          handled-AreLeft b (some id) (handle_dict codec env is_admin d b) (handle_dict-AreLeft d b)

      decoded :
          (r : Outcome Error (Dict V))
          → AreLeft {A = Unit {0}} b (elim r [
            | raised e ↦ report codec env is_admin none e b
            | done d ↦ handle_data codec env is_admin d b
          ])
      decoded (raised e) = told b b none e same
      decoded (done d) = identified (get_id codec env is_admin d) d

  -- Whatever a client sends, at most one message is put into redis, and that has the user of the
  -- websocket as its sender, a channel and a back channel that the user may write to, and a type that
  -- is licensed, if `Message.from_dict` reads the sender from the dict.
  pub on_receive-sends :
      ReadsSender codec
      → (compressed : Bool) (bytes : String) (b : Bus)
      → let t = (on_receive codec env is_admin compressed bytes b).1 in
        (t.entries ≡ b.entries)
        ⊎ ((m : Message) × (t.entries ≡ b.entries ++ m ∷ []) × IsPermitted b.messagebus_user_id m)
  on_receive-sends reads compressed bytes b = elim (on_receive-Leaves compressed bytes b).sends [
    | inl e ↦ inl e
    | inr (m, e, h) ↦ inr (
      m,
      e,
      record {
        own_sender = h.from_user reads;
        target = h.allowed.may_target;
        back = h.allowed.may_back;
        licensed = h.allowed.is_licensed;
      },
    )
  ]
