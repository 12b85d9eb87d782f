-- ===== src/Messagebus/Subscribe/Safe.antt =====
-- Subscribing puts nothing into redis for others to read, keeps the own session channel, and reads only
-- channels that may be read.
use opsiconfd.Prelude.{
  get_elem?, String, List, [], ◌∷◌, Bool, true, false, ◌==◌, ◌≡◌, refl, sym, subst, ap, ◌∙◌, any,
  All, All-append, any-append, arith, not, ◌&&◌, Option, none, some,
}
use Prim.Native.String.{◌++◌ as ◌+++◌}
use text.Mathlib.Text.{starts_with}
use opsiconfd.Prelude.Text.{contains}
use opsiconfd.Prelude.Split.{cut, split}
use opsiconfd.Prelude.Dict.{Dict, keys, insert}
use opsiconfd.Prelude.Effect.{
  Outcome, done, raised, Ends, Ends-bind, Ends-imp, Ends-either, Ends-option,
}
use opsiconfd.Messagebus.Data.{
  Operation, add, set, remove, unknown, Error, already_exists, Reader, Bus,
}
use opsiconfd.Messagebus.Readers.{change_plain, add_channels}
use opsiconfd.Messagebus.Removal.{
  All-insert, OptionRead, change_plain-AllRead, OptionIsRead, change_plain-is_read,
  unsubscribe-AllRead, is_read-unsubscribe,
}
use opsiconfd.Messagebus.Unsubscribe.{unsubscribe}
use opsiconfd.Messagebus.Access.{read, check_channel_access}
use opsiconfd.Messagebus.Subscribe.{
  Env, start_id, is_empty, add_reader, channel_id, read_service, prepare_channel,
  create_session_channel, subscribe, read_channels, confirm, subscribe_and_read, read_and_confirm,
  process_channel_subscription,
}
use opsiconfd.Messagebus.Subscribe.Keeps.{
  check_channel_access-MayRead, Readable, Keeps, Keeps-refl, Keeps-trans, IsKept, IsKept-after,
  touched,
}

module _ (env : Env) (is_admin : Bool) where
  pub create_session_channel-IsKept :
      (owner : String) (id : Option String) (exists_ok : Bool) (b : Bus)
      → IsKept env is_admin b (create_session_channel env.names owner id exists_ok b)
  unfolding create_session_channel
  create_session_channel-IsKept owner id exists_ok b =
      Ends-option (λ _. Keeps env is_admin b) (λ _. Keeps env is_admin b) (channel_id env.names id)
        _ _ (λ _. Keeps-refl env is_admin b)
        (λ i _. creating i (any (λ m. m.channel == "session:" +++ i) b.entries) exists_ok)
    where
      creating :
          (i : String) (exists exists_ok : Bool)
          → IsKept env is_admin {A = String} b (elim exists [
            | true ↦ elim exists_ok [
              | true ↦ (done ("session:" +++ i), b)
              | false ↦ (raised already_exists, b)
            ]
            | false ↦ (
              done ("session:" +++ i),
              record b { owners = insert ("session:" +++ i) owner b.owners },
            )
          ])
      creating i true true = Keeps-refl env is_admin b
      creating i true false = Keeps-refl env is_admin b
      creating i false ok = touched env is_admin b _ refl refl refl refl

  add_reader-Keeps :
      (consumer : Option (String × String)) (d : Dict String) (b : Bus)
      → All (Readable env is_admin b.messagebus_user_id) (keys d)
      → Keeps env is_admin b (add_reader env is_admin consumer d b).1
  add_reader-Keeps consumer d b h = record {
    same_user = refl;
    same_session = refl;
    same_entries = refl;
    all_read = λ q. All-append _ b.readers _ q (h, tt);
    own_read = λ q. ground (
      arith,
      any-append (λ r. contains b.session_channel (keys r.channels)) b.readers
          (record { ref = b.next_ref; consumer = consumer; channels = d; should_stop = false }
            ∷ []),
    );
  }

  read_service-IsKept :
      (c : String) (b : Bus)
      → Readable env is_admin b.messagebus_user_id c
      → IsKept env is_admin b (read_service env is_admin c b)
  unfolding read_service keys
  read_service-IsKept c b h =
      Ends-option (λ _. Keeps env is_admin b) (λ _. Keeps env is_admin b) (cut 58 b.session_channel)
        _ _ (λ _. Keeps-refl env is_admin b) (λ id _. add_reader-Keeps _ _ b (h, tt))

  prepare_channel-IsKept :
      (c : String) (b : Bus) → IsKept env is_admin b (prepare_channel env is_admin c b)
  unfolding prepare_channel
  prepare_channel-IsKept c b =
      Ends-either (λ _. Keeps env is_admin b) (λ _. Keeps env is_admin b)
        (starts_with c "session:" && not (c == b.session_channel)) _ _
        (λ _.
          Ends-option (λ _. Keeps env is_admin b) (λ _. Keeps env is_admin b)
            (get_elem? (split 58 c) 1) _ _ (λ _. Keeps-refl env is_admin b)
            (λ i _.
              IsKept-after env is_admin b _ _
                (create_session_channel-IsKept b.messagebus_user_id (some i) true b)
                (λ _ t _. Keeps-refl env is_admin t)))
        (λ _. Keeps-refl env is_admin b)

  reading :
      (d : Dict String) (b : Bus) (rs : List Reader)
      → All (Readable env is_admin b.messagebus_user_id) (keys d)
      → change_plain (add_channels d) b.readers ≡ some rs
      → Keeps env is_admin b (record b { readers = rs })
  reading d b rs h e = record {
    same_user = refl;
    same_session = refl;
    same_entries = refl;
    all_read = λ q.
        subst (OptionRead (Readable env is_admin b.messagebus_user_id)) e
          (change_plain-AllRead (Readable env is_admin b.messagebus_user_id) d b.readers h q);
    own_read = λ q.
        subst (OptionIsRead b.session_channel) e
          (change_plain-is_read b.session_channel d b.readers q);
  }

  read_channels-IsKept :
      (d : Dict String) (b : Bus)
      → All (Readable env is_admin b.messagebus_user_id) (keys d)
      → IsKept env is_admin b (read_channels env is_admin d b)
  unfolding read_channels
  read_channels-IsKept d b h =
      Ends-either (λ _. Keeps env is_admin b) (λ _. Keeps env is_admin b) (is_empty d) _ _
        (λ _. Keeps-refl env is_admin b)
        (λ _.
          Ends-option (λ _. Keeps env is_admin b) (λ _. Keeps env is_admin b)
            (change_plain (add_channels d) b.readers) _ _ (λ _. add_reader-Keeps none d b h)
            (λ rs e. reading d b rs h e))

  -- The channels that the loop leaves for one reader may be read.
  abbrev AreReadable : Bus → Option (Dict String) → Type 0
  AreReadable b none = Unit
  AreReadable b (some d) = All (Readable env is_admin b.messagebus_user_id) (keys d)

  IsDone : Bus → Option (Dict String) → Bus → Type 0
  IsDone b d t = Keeps env is_admin b t × AreReadable b d

  next :
      (b t : Bus) (r : Outcome Error (Option (Dict String)) × Bus)
      → Keeps env is_admin b t
      → Ends (IsDone t) (λ _. Keeps env is_admin t) r
      → Ends (IsDone b) (λ _. Keeps env is_admin b) r
  unfolding IsDone
  next b t r g h =
      Ends-imp (IsDone t) (IsDone b) (λ _. Keeps env is_admin t) (λ _. Keeps env is_admin b) r h
        (λ d u k. (Keeps-trans env is_admin b t u g k.0, readable d k.1))
        (λ _ u k. Keeps-trans env is_admin b t u g k)
    where
      readable : (d : Option (Dict String)) → AreReadable t d → AreReadable b d
      readable none k = tt
      readable (some d) k = subst (λ u. All (Readable env is_admin u) (keys d)) g.same_user k

  subscribe-IsKept :
      (back : String) (cs : List String) (d : Dict String) (b : Bus)
      → All (Readable env is_admin b.messagebus_user_id) (keys d)
      → Ends (IsDone b) (λ _. Keeps env is_admin b) (subscribe env is_admin back cs d b)
  unfolding subscribe IsDone
  subscribe-IsKept back [] d b h = (Keeps-refl env is_admin b, h)
  subscribe-IsKept back (c ∷ cs) d b h =
      let at : (t : Bus)
          → Keeps env is_admin b t
          → (e : Dict String) → All (Readable env is_admin b.messagebus_user_id) (keys e)
          → Ends (IsDone b) (λ _. Keeps env is_admin b) (subscribe env is_admin back cs e t) =
        λ t g e q. next b t _ g (
          subscribe-IsKept back cs e t
            (subst (λ u. All (Readable env is_admin u) (keys e)) (sym g.same_user) q)) in
      Ends-option (IsDone b) (λ _. Keeps env is_admin b)
        (check_channel_access env.names b.messagebus_user_id is_admin read c) _ _
        (λ _. Keeps-refl env is_admin b)
        (λ allowed e.
          Ends-either (IsDone b) (λ _. Keeps env is_admin b) allowed _ _
            (λ yes.
              let ok =
                check_channel_access-MayRead env.names b.messagebus_user_id is_admin c
                  (e ∙ ap (λ a. some a) yes) in
              Ends-either (IsDone b) (λ _. Keeps env is_admin b) (starts_with c "service:") _ _
                (λ _.
                  Ends-bind (λ _. Keeps env is_admin b) (IsDone b) (λ _. Keeps env is_admin b)
                    (read_service env is_admin c b) _ (read_service-IsKept c b ok)
                    (λ _ t g. at t g d h))
                (λ _.
                  Ends-bind (λ _. Keeps env is_admin b) (IsDone b) (λ _. Keeps env is_admin b)
                    (prepare_channel env is_admin c b) _ (prepare_channel-IsKept c b)
                    (λ _ t g.
                      at t g (insert c (start_id env is_admin c) d)
                        (All-insert (Readable env is_admin b.messagebus_user_id) c _ d ok h))))
            (λ no. (touched env is_admin b _ refl refl refl refl, tt)))

  confirm-IsKept : (back : String) (b : Bus) → IsKept env is_admin b (confirm env is_admin back b)
  unfolding confirm
  confirm-IsKept back b = touched env is_admin b _ refl refl refl refl

  subscribe_and_read-IsKept :
      (back : String) (cs : List String) (b : Bus)
      → IsKept env is_admin b (subscribe_and_read env is_admin back cs b)
  unfolding subscribe_and_read IsDone keys
  subscribe_and_read-IsKept back cs b =
      Ends-bind (IsDone b) (λ _. Keeps env is_admin b) (λ _. Keeps env is_admin b)
        (subscribe env is_admin back cs [] b) _ (subscribe-IsKept back cs [] b tt)
        (λ d t g. ends d t g)
    where
      ends :
          (d : Option (Dict String)) (t : Bus)
          → IsDone b d t
          → IsKept env is_admin b (read_and_confirm env is_admin back d t)
      ends none t g = g.0
      ends (some d) t g =
          Ends-imp (λ _. Keeps env is_admin t) (λ _. Keeps env is_admin b)
            (λ _. Keeps env is_admin t) (λ _. Keeps env is_admin b) _
            (IsKept-after env is_admin t (read_channels env is_admin d t) _
              (read_channels-IsKept d t
                (subst (λ u. All (Readable env is_admin u) (keys d)) (sym g.0.same_user) g.1))
              (λ _ u _. confirm-IsKept back u))
            (λ _ u. Keeps-trans env is_admin b t u g.0) (λ _ u. Keeps-trans env is_admin b t u g.0)

  unsubscribe-Keeps :
      (op : Operation) (cs : List String) (b : Bus) → Keeps env is_admin b (unsubscribe op cs b)
  unfolding unsubscribe
  unsubscribe-Keeps op cs b = record {
    same_user = refl;
    same_session = refl;
    same_entries = refl;
    all_read = unsubscribe-AllRead (Readable env is_admin b.messagebus_user_id) op cs b;
    own_read = λ h. is_read-unsubscribe op cs b ∙ h;
  }

  from :
      (b t : Bus) (r : Outcome Error (Unit {0}) × Bus)
      → Keeps env is_admin b t
      → IsKept env is_admin t r
      → IsKept env is_admin b r
  from b t r g h =
      Ends-imp (λ _. Keeps env is_admin t) (λ _. Keeps env is_admin b) (λ _. Keeps env is_admin t)
        (λ _. Keeps env is_admin b) r h (λ _ u. Keeps-trans env is_admin b t u g)
        (λ _ u. Keeps-trans env is_admin b t u g)

  -- Processing a subscription, whatever it asks for: no message is put into redis, and if the own
  -- session channel and only channels that may be read are read before, they are after it.
  pub process_channel_subscription-IsKept :
      (op : Operation) (back_channel : Option String) (channels : List String) (b : Bus)
      → IsKept env is_admin b (process_channel_subscription env is_admin op back_channel channels b)
  unfolding process_channel_subscription
  process_channel_subscription-IsKept add back_channel channels b =
      from b _ _ (unsubscribe-Keeps add _ b) (subscribe_and_read-IsKept _ _ _)
  process_channel_subscription-IsKept set back_channel channels b =
      from b _ _ (unsubscribe-Keeps set _ b) (subscribe_and_read-IsKept _ _ _)
  process_channel_subscription-IsKept remove back_channel channels b =
      from b _ _ (unsubscribe-Keeps remove _ b) (confirm-IsKept _ _)
  process_channel_subscription-IsKept (unknown s) back_channel channels b =
      touched env is_admin b _ refl refl refl refl
