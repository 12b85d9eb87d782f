-- ===== src/Messagebus/Subscribe/Keeps.antt =====
-- What every step of a subscription keeps, and which channels may be read.
use opsiconfd.Prelude.{
  String, Bool, true, ◌≡◌, refl, sym, subst, ◌∙◌, ◌⊎◌, arith, eq_iff, Option, none, some,
}
use text.Mathlib.Text.{starts_with}
use opsiconfd.Prelude.Effect.{after, Outcome, Ends, Ends-bind, Ends-imp}
use opsiconfd.Messagebus.Names.{Names, check_channel_name}
use opsiconfd.Messagebus.Data.{Error, Bus}
use opsiconfd.Messagebus.Removal.{AllRead, is_read}
use opsiconfd.Messagebus.Access.{read, allows, check_channel_access}
use opsiconfd.Messagebus.Subscribe.{Env, Act}

-- What a user may read: the checked name is a session channel or the user's own, or the user is an
-- administrator.
pub record MayRead (names : Names) (user : String) (is_admin : Bool) (c : String) : Type 0 where
  pub name : String
  pub is_name : check_channel_name names c ≡ some name
  pub granted : (starts_with name "session:" ≡ true) ⊎ ((name ≡ user) ⊎ (is_admin ≡ true))

pub check_channel_access-MayRead :
    (names : Names) (user : String) (is_admin : Bool) (c : String)
    → check_channel_access names user is_admin read c ≡ some true
    → MayRead names user is_admin c
unfolding check_channel_access allows
check_channel_access-MayRead names user is_admin c h = go (check_channel_name names c) refl h
  where
    go :
        (o : Option String)
        → check_channel_name names c ≡ o
        → (elim o [ none ↦ none | some n ↦ some (allows user is_admin read n) ]) ≡ some true
        → MayRead names user is_admin c
    go none e h = absurd (cc h)
    go (some n) e h = record { name = n; is_name = e; granted = ground (arith, eq_iff n user) }

module _ (env : Env) (is_admin : Bool) where
  abbrev pub Readable : String → String → Type 0
  Readable user = MayRead env.names user is_admin

  -- What a step of the websocket leaves as it is.
  pub record Keeps (b t : Bus) : Type 0 where
    pub same_user : t.messagebus_user_id ≡ b.messagebus_user_id
    pub same_session : t.session_channel ≡ b.session_channel
    pub same_entries : t.entries ≡ b.entries
    pub all_read :
        AllRead (Readable b.messagebus_user_id) b.readers
        → AllRead (Readable b.messagebus_user_id) t.readers
    pub own_read :
        is_read b.session_channel b.readers ≡ true → is_read b.session_channel t.readers ≡ true

  pub Keeps-refl : (b : Bus) → Keeps b b
  Keeps-refl b = record {
    same_user = refl;
    same_session = refl;
    same_entries = refl;
    all_read = λ h. h;
    own_read = λ h. h;
  }

  pub Keeps-trans : (a b c : Bus) → Keeps a b → Keeps b c → Keeps a c
  Keeps-trans a b c h k = record {
    same_user = k.same_user ∙ h.same_user;
    same_session = k.same_session ∙ h.same_session;
    same_entries = k.same_entries ∙ h.same_entries;
    all_read = λ q.
        subst (λ u. AllRead (Readable u) c.readers) h.same_user
          (k.all_read
            (subst (λ u. AllRead (Readable u) b.readers) (sym h.same_user) (h.all_read q)));
    own_read = λ q.
        subst (λ s. is_read s c.readers ≡ true) h.same_session
          (k.own_read
            (subst (λ s. is_read s b.readers ≡ true) (sym h.same_session) (h.own_read q)));
  }

  -- Whatever the outcome, the step keeps these.
  abbrev pub IsKept : {A : Type 0} → Bus → Outcome Error A × Bus → Type 0
  IsKept b = Ends (λ _. Keeps b) (λ _. Keeps b)

  pub IsKept-after :
      {A B : Type 0} (b : Bus) (r : Outcome Error A × Bus) (k : A → Act B)
      → IsKept b r
      → ((a : A) (t : Bus) → Keeps b t → IsKept t (k a t))
      → IsKept b (after r k)
  IsKept-after b r k h f =
      Ends-bind (λ _. Keeps b) (λ _. Keeps b) (λ _. Keeps b) r k h
        (λ a t g.
          Ends-imp (λ _. Keeps t) (λ _. Keeps b) (λ _. Keeps t) (λ _. Keeps b) (k a t) (f a t g)
            (λ _ u. Keeps-trans b t u g) (λ _ u. Keeps-trans b t u g))

  -- A state with the same readers and messages.
  pub touched :
      (b t : Bus)
      → t.messagebus_user_id ≡ b.messagebus_user_id
      → t.session_channel ≡ b.session_channel
      → t.entries ≡ b.entries
      → t.readers ≡ b.readers
      → Keeps b t
  touched b t u s e r = record {
    same_user = u;
    same_session = s;
    same_entries = e;
    all_read = λ h. subst (AllRead (Readable b.messagebus_user_id)) (sym r) h;
    own_read = λ h. subst (λ rs. is_read b.session_channel rs ≡ true) (sym r) h;
  }
