-- ===== src/Messagebus/Connect/Announces.antt =====
-- What opening a websocket tells others, and what all the messages of a client leave of its channels.
use opsiconfd.Prelude.{
  String, List, [], ◌∷◌, ◌++◌, Bool, true, false, eq_refl, if◌then◌else◌, ◌==◌, ◌≡◌, refl, sym,
  subst, ap, ◌∙◌, arith, not, ◌&&◌, Option, none, some,
}
use Prim.Native.String.{◌++◌ as ◌+++◌}
use text.Mathlib.TextLemmas.{nil-append, cons-append, append_assoc}
use opsiconfd.Prelude.Int.{ℤ, pos, ltb_ℤ}
use opsiconfd.Prelude.Dict.{lookup}
use opsiconfd.Prelude.Split.{cut_last, count_char}
use opsiconfd.Prelude.Split.Laws.{cut_last-join}
use opsiconfd.Prelude.Effect.{Outcome, Ends, Ends-bind, Ends-imp, Ends-either, Ends-option}
use opsiconfd.Sessions.Data.{Session, Host, HostType, client, depotserver, configserver}
use opsiconfd.Messagebus.Names.{get_user_id_for_host, get_user_id_for_user}
use opsiconfd.Messagebus.Data.{add, Error, Message, Bus}
use opsiconfd.Messagebus.Removal.{AllRead, is_read}
use opsiconfd.Messagebus.Subscribe.{Env, create_session_channel, process_channel_subscription}
use opsiconfd.Messagebus.Subscribe.Keeps.{Readable, Keeps, IsKept}
use opsiconfd.Messagebus.Subscribe.Safe.{
  create_session_channel-IsKept, process_channel_subscription-IsKept,
}
use opsiconfd.Messagebus.Receive.{Codec, send_message}
use opsiconfd.Messagebus.Receive.Sends.{Leaves, on_receive-Leaves}
use opsiconfd.Messagebus.Connect.{
  is_connected, update_websocket_count, is_session_connected, subject_kind, session_event, identify,
  set_user, open_channels, on_connect, receive_all,
}

-- The number of websockets that redis has for a key.
abbrev pub has_websockets : String → Bus → Bool
has_websockets key b = elim (lookup key b.counts) [ none ↦ false | some n ↦ ltb_ℤ (pos 0) n ]

-- Whether redis has websockets of the user, the client or the depot of the session. A config server is
-- looked for as a depot.
abbrev pub has_connection : Session → Bus → Bool
has_connection s b = elim s.host [
  | none ↦ has_websockets ("users:" +++ s.username) b
  | some h ↦ elim h.host_type [
    | client ↦ has_websockets ("clients:" +++ h.id) b
    | depotserver ↦ has_websockets ("depots:" +++ h.id) b
    | configserver ↦ has_websockets ("depots:" +++ h.id) b
  ]
]

-- The name that the count is kept for.
abbrev pub name_of : Session → String
name_of s = elim s.host [ none ↦ s.username | some h ↦ h.id ]

key_parts : (t id : String) → t +++ ("s:" +++ id) ≡ (t +++ "s") +++ String.◌∷◌ ":" id
key_parts t id =
    ap (◌+++◌ t) (
      cons-append "s" ":" id
      ∙ ap (String.◌∷◌ "s") (cons-append ":" "" id)
      ∙ ap (λ x. String.◌∷◌ "s" (String.◌∷◌ ":" x)) (nil-append id)
      ∙ sym (
          cons-append "s" "" (String.◌∷◌ ":" id)
          ∙ ap (String.◌∷◌ "s") (nil-append (String.◌∷◌ ":" id))))
    ∙ sym (append_assoc t "s" (String.◌∷◌ ":" id))

is_connected-has_websockets :
    (t id : String) (b : Bus)
    → count_char b':' id ≡ 0
    → is_connected t id b ≡ has_websockets ((t +++ "s:") +++ id) b
unfolding is_connected
is_connected-has_websockets t id b plain =
    ap
      (λ k.
        (elim (cut_last b':' k) [ none ↦ false | some (_, user_id) ↦ user_id == id ])
        && ltb_ℤ (pos 0)
            (elim (lookup (t +++ ("s:" +++ id)) b.counts) [ none ↦ pos 0 | some n ↦ n ]))
      (key_parts t id)
    ∙ ap
        (λ o.
          (elim o [ none ↦ false | some (_, user_id) ↦ user_id == id ])
          && ltb_ℤ (pos 0)
              (elim (lookup (t +++ ("s:" +++ id)) b.counts) [ none ↦ pos 0 | some n ↦ n ]))
        (cut_last-join b':' ":" refl (t +++ "s") id plain)
    ∙ ap
        (λ e.
          e
          && ltb_ℤ (pos 0)
              (elim (lookup (t +++ ("s:" +++ id)) b.counts) [ none ↦ pos 0 | some n ↦ n ]))
        (eq_refl id)
    ∙ ap (λ k. ltb_ℤ (pos 0) (elim (lookup k b.counts) [ none ↦ pos 0 | some n ↦ n ]))
        (sym (append_assoc t "s:" id))
    ∙ counted (lookup ((t +++ "s:") +++ id) b.counts)
  where
    counted :
        (o : Option ℤ)
        → ltb_ℤ (pos 0) (elim o [ none ↦ pos 0 | some n ↦ n ])
          ≡ elim o [ none ↦ false | some n ↦ ltb_ℤ (pos 0) n ]
    counted none = refl
    counted (some n) = refl

is_session_connected-has_connection :
    (s : Session) (b : Bus)
    → count_char b':' (name_of s) ≡ 0
    → is_session_connected s b ≡ has_connection s b
unfolding is_session_connected
is_session_connected-has_connection s b plain = go s.host plain
  where
    typed :
        (id : String) (t : HostType)
        → count_char b':' id ≡ 0
        → is_connected
            (elim t [ client ↦ "client" | depotserver ↦ "depot" | configserver ↦ "depot" ])
            id
            b
          ≡ elim t [
            | client ↦ has_websockets ("clients:" +++ id) b
            | depotserver ↦ has_websockets ("depots:" +++ id) b
            | configserver ↦ has_websockets ("depots:" +++ id) b
          ]
    typed id client plain = is_connected-has_websockets "client" id b plain
    typed id depotserver plain = is_connected-has_websockets "depot" id b plain
    typed id configserver plain = is_connected-has_websockets "depot" id b plain

    go :
        (o : Option Host)
        → count_char b':' (elim o [ none ↦ s.username | some h ↦ h.id ]) ≡ 0
        → (elim o [
          | none ↦ is_connected "user" s.username b
          | some h ↦
              is_connected
                (elim h.host_type [
                  | client ↦ "client"
                  | depotserver ↦ "depot"
                  | configserver ↦ "depot"
                ])
                h.id
                b
        ])
          ≡ elim o [
            | none ↦ has_websockets ("users:" +++ s.username) b
            | some h ↦ elim h.host_type [
              | client ↦ has_websockets ("clients:" +++ h.id) b
              | depotserver ↦ has_websockets ("depots:" +++ h.id) b
              | configserver ↦ has_websockets ("depots:" +++ h.id) b
            ]
          ]
    go none plain = is_connected-has_websockets "user" s.username b plain
    go (some h) plain = typed h.id h.host_type plain

module _ (env : Env) where
  -- A websocket that reads its own session channel, and only channels that its user may read.
  pub record IsSafe (is_admin : Bool) (b : Bus) : Type 0 where
    pub all_readable : AllRead (Readable env is_admin b.messagebus_user_id) b.readers
    pub own_channel : is_read b.session_channel b.readers ≡ true

  IsSafe-Leaves :
      {V : Type 0} (codec : Codec V) (is_admin : Bool) (b t : Bus)
      → Leaves codec env is_admin b t
      → IsSafe is_admin b
      → IsSafe is_admin t
  IsSafe-Leaves codec is_admin b t k h = record {
    all_readable =
        subst (λ u. AllRead (Readable env is_admin u) t.readers) (sym k.same_user)
          (k.all_read h.all_readable);
    own_channel =
        subst (λ c. is_read c t.readers ≡ true) (sym k.same_session) (k.own_read h.own_channel);
  }

  -- Whatever a client sends and however often, its websocket goes on to read its own session channel,
  -- and reads no channel but session channels and that of its user, unless that is an administrator.
  pub receive_all-IsSafe :
      {V : Type 0} (codec : Codec V) (s : Session) (compressed : Bool) (received : List String)
      (b : Bus)
      → IsSafe s.is_admin b
      → IsSafe s.is_admin (receive_all env codec s compressed received b)
  unfolding receive_all
  receive_all-IsSafe codec s compressed [] b h = h
  receive_all-IsSafe codec s compressed (bytes ∷ more) b h =
      receive_all-IsSafe codec s compressed more _ (
        IsSafe-Leaves codec s.is_admin b _
          (on_receive-Leaves codec env s.is_admin compressed bytes b) h)

  same_entries-count :
      (s : Session) (n : ℤ) (b : Bus) → (update_websocket_count s n b).entries ≡ b.entries
  unfolding update_websocket_count
  same_entries-count s n b = ground arith

  abbrev IsQuiet : {A : Type 0} → List Message → Outcome Error A × Bus → Type 0
  IsQuiet ms = Ends (λ _ t. t.entries ≡ ms) (λ _ t. t.entries ≡ ms)

  IsQuiet-IsKept :
      {A : Type 0} (is_admin : Bool) (b : Bus) (r : Outcome Error A × Bus) {ms : List Message}
      → b.entries ≡ ms
      → IsKept env is_admin b r
      → IsQuiet ms r
  IsQuiet-IsKept is_admin b r {ms} e h =
      Ends-imp (λ _. Keeps env is_admin b) (λ _ t. t.entries ≡ ms) (λ _. Keeps env is_admin b)
        (λ _ t. t.entries ≡ ms) r h (λ _ t k. k.same_entries ∙ e) (λ _ t k. k.same_entries ∙ e)

  set_user-IsQuiet : (o : Option String) (b : Bus) → IsQuiet b.entries (set_user env o b)
  set_user-IsQuiet none b = refl
  set_user-IsQuiet (some u) b = refl

  identify-IsQuiet : (s : Session) (b : Bus) → IsQuiet b.entries (identify env s b)
  unfolding identify
  identify-IsQuiet s b =
      let Q : Bus → Type 0 = λ t. t.entries ≡ b.entries in
      Ends-option (λ _. Q) (λ _. Q) s.host _ _
        (λ _.
          Ends-either (λ _. Q) (λ _. Q) (not (s.username == "") && s.is_admin) _ _
            (λ _. set_user-IsQuiet (get_user_id_for_user env.names s.username) b) (λ _. refl))
        (λ h _. set_user-IsQuiet (get_user_id_for_host env.names h.id) b)

  event_channel :
      (s : Session) (b : Bus)
      → (session_event env "_connected" s b).channel
        ≡ (if is_session_connected s b then "" else "event:" +++ (subject_kind s +++ "_connected"))
  unfolding session_event
  event_channel s b = refl

  on_connect-announced :
      (s : Session) (b : Bus)
      → Ends
          (λ _ t.
            (m : Message) × (t.entries ≡ b.entries ++ m ∷ [])
            × (m.channel ≡ (
                if is_session_connected s b
                then ""
                else "event:" +++ (subject_kind s +++ "_connected"))))
          (λ _ t. t.entries ≡ b.entries)
          (on_connect env s b)
  unfolding on_connect open_channels send_message
  on_connect-announced s b =
      Ends-bind (λ _ t. t.entries ≡ b.entries) Announced (λ _ t. t.entries ≡ b.entries)
        (identify env s b) _ (identify-IsQuiet s b)
        (λ _ t e.
          let t' = update_websocket_count s (pos 1) t in
          Ends-bind (λ _ u. u.entries ≡ b.entries) Announced (λ _ u. u.entries ≡ b.entries)
            (create_session_channel env.names t'.messagebus_user_id none true t') _
            (IsQuiet-IsKept s.is_admin t' _ (same_entries-count s (pos 1) t ∙ e)
              (create_session_channel-IsKept env s.is_admin t'.messagebus_user_id none true t'))
            (λ channel u f.
              let u' = record u { session_channel = channel } in
              Ends-bind (λ _ v. v.entries ≡ b.entries) Announced (λ _ v. v.entries ≡ b.entries)
                (process_channel_subscription env s.is_admin add none
                  (u'.messagebus_user_id ∷ channel ∷ []) u')
                _
                (IsQuiet-IsKept s.is_admin u' _ f (
                  process_channel_subscription-IsKept env s.is_admin add none
                    (u'.messagebus_user_id ∷ channel ∷ []) u'))
                (λ _ v g. (
                  session_event env "_connected" s b,
                  ap (λ ms. ms ++ session_event env "_connected" s b ∷ []) g,
                  event_channel s b,
                ))))
    where
      Announced : Unit {0} → Bus → Type 0
      Announced _ t =
          (m : Message) × (t.entries ≡ b.entries ++ m ∷ [])
          × (m.channel ≡ (
              if is_session_connected s b
              then ""
              else "event:" +++ (subject_kind s +++ "_connected")))

  -- Opening a websocket puts one event into redis, unless it fails, and then none. For a session whose
  -- host or user has no colon in the name, the event has an empty channel exactly if redis counts
  -- websockets of the user, of the client, or of the server as a depot.
  pub on_connect-event :
      (s : Session) (b : Bus)
      → count_char b':' (name_of s) ≡ 0
      → Ends
          (λ _ t.
            (m : Message) × (t.entries ≡ b.entries ++ m ∷ [])
            × (m.channel ≡ (
                if has_connection s b then "" else "event:" +++ (subject_kind s +++ "_connected"))))
          (λ _ t. t.entries ≡ b.entries)
          (on_connect env s b)
  on_connect-event s b plain =
      subst
        (λ c.
          Ends
            (λ _ t.
              (m : Message) × (t.entries ≡ b.entries ++ m ∷ [])
              × (m.channel ≡ (if c then "" else "event:" +++ (subject_kind s +++ "_connected"))))
            (λ _ t. t.entries ≡ b.entries) (on_connect env s b))
        (is_session_connected-has_connection s b plain) (on_connect-announced s b)
