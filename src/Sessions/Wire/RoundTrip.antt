-- ===== src/Sessions/Wire/RoundTrip.antt =====
-- What `deserialize` reads of what `serialize` wrote.
use opsiconfd.Prelude.{
  ℕ, String, All, ap, List, [], ◌∷◌, ◌≡◌, refl, Option, none, some, Bool, true, false, ◌==◌, map,
  arith,
}
use opsiconfd.Sessions.Data.{
  AuthenticationMethod, method_value, Attribute, attribute_name, Session, Host,
}
use opsiconfd.Sessions.Data.{
  version, client_addr, user_agent, max_age, created, last_used, messagebus_last_used, username,
  user_groups, host, authenticated, auth_methods, is_admin, is_read_only,
}
use opsiconfd.Sessions.Data.{totp}
use opsiconfd.Sessions.World.{Env}
use opsiconfd.Sessions.Wire.{
  all_methods, flag_of, flag_text, wire, serialize, Value, text, a_host, texts, methods, flag,
  method_of, methods_of, attribute_of, deserialize_field, deserialize,
}

-- Whether a value is that of an attribute of the session. A number is a text that `int` reads, as the
-- setter of the attribute does.
abbrev IsNumber : Env → ℕ → Value → Type 0
IsNumber env n v = (t : String) × (v ≡ text t) × (env.int_of t ≡ some n)

abbrev pub IsValueOf : Env → Session → Attribute → Value → Type 0
IsValueOf env s version v = v ≡ text s.version
IsValueOf env s client_addr v = v ≡ text s.client_addr
IsValueOf env s user_agent v = v ≡ text s.user_agent
IsValueOf env s max_age v = IsNumber env s.max_age v
IsValueOf env s created v = IsNumber env s.created v
IsValueOf env s last_used v = IsNumber env s.last_used v
IsValueOf env s messagebus_last_used v = IsNumber env s.messagebus_last_used v
IsValueOf env s username v = v ≡ text s.username
IsValueOf env s user_groups v = v ≡ texts s.user_groups
IsValueOf env s host v = v ≡ a_host s.host
IsValueOf env s authenticated v = v ≡ flag s.authenticated
IsValueOf env s auth_methods v = v ≡ methods s.auth_methods
IsValueOf env s is_admin v = v ≡ flag s.is_admin
IsValueOf env s is_read_only v = v ≡ flag s.is_read_only

-- The value of an attribute; a number is read as a text, which its setter takes.
abbrev pub value_of : Env → Session → Attribute → Value
value_of env s version = text s.version
value_of env s client_addr = text s.client_addr
value_of env s user_agent = text s.user_agent
value_of env s max_age = text (env.decimal s.max_age)
value_of env s created = text (env.decimal s.created)
value_of env s last_used = text (env.decimal s.last_used)
value_of env s messagebus_last_used = text (env.decimal s.messagebus_last_used)
value_of env s username = text s.username
value_of env s user_groups = texts s.user_groups
value_of env s host = a_host s.host
value_of env s authenticated = flag s.authenticated
value_of env s auth_methods = methods s.auth_methods
value_of env s is_admin = flag s.is_admin
value_of env s is_read_only = flag s.is_read_only

-- A host that is written as some bytes and read back.
abbrev pub ReadsHost : Env → Option Host → Type 0
ReadsHost env none = Unit
ReadsHost env (some h) =
    ((env.encode_host h == "") ≡ false) × (env.decode_host (env.encode_host h) ≡ some h)

-- What the codecs do with the values of a session: the bytes of lists and of the host are read back,
-- and `int` reads the digits of numbers and of truth values.
pub record IsReadBack (env : Env) (s : Session) : Type 0 where
  pub groups : env.decode_texts (env.encode_texts s.user_groups) ≡ some s.user_groups
  pub method_names :
      env.decode_texts (env.encode_texts (map method_value s.auth_methods))
      ≡ some (map method_value s.auth_methods)
  pub its_host : ReadsHost env s.host
  pub max_age_read : env.int_of (env.decimal s.max_age) ≡ some s.max_age
  pub created_read : env.int_of (env.decimal s.created) ≡ some s.created
  pub last_used_read : env.int_of (env.decimal s.last_used) ≡ some s.last_used
  pub messagebus_last_used_read :
      env.int_of (env.decimal s.messagebus_last_used) ≡ some s.messagebus_last_used
  pub one : env.int_of "1" ≡ some 1
  pub zero : env.int_of "0" ≡ some 0

attribute_of-name : (a : Attribute) → attribute_of (attribute_name a) ≡ some a
unfolding attribute_of
attribute_of-name version = refl
attribute_of-name _ = refl

method_of-value : (m : AuthenticationMethod) → method_of (method_value m) all_methods ≡ some m
unfolding method_of
method_of-value totp = refl
method_of-value _ = refl

methods_of-values : (ms : List AuthenticationMethod) → methods_of (map method_value ms) ≡ some ms
unfolding methods_of
methods_of-values [] = refl
methods_of-values (m ∷ ms) = ground (arith, method_of-value m, methods_of-values ms)

module _ (env : Env) (s : Session) (laws : IsReadBack env s) where
  flag_of-text : (b : Bool) → flag_of env (flag_text b) ≡ some b
  flag_of-text true = rw laws.one refl
  flag_of-text false = rw laws.zero refl

  host-back :
      (h : Option Host)
      → ReadsHost env h
      → deserialize_field env host (elim h [ none ↦ "" | some g ↦ env.encode_host g ])
        ≡ some (a_host h)
  unfolding deserialize_field
  host-back none k = refl
  host-back (some h) (named, read) = rw named (rw read refl)

  field-back : (a : Attribute) → deserialize_field env a (wire env s a) ≡ some (value_of env s a)
  unfolding deserialize_field wire
  field-back host = host-back s.host laws.its_host
  field-back user_groups = rw laws.groups refl
  field-back auth_methods = rw laws.method_names (rw (methods_of-values s.auth_methods) refl)
  field-back authenticated = rw (flag_of-text s.authenticated) refl
  field-back is_admin = rw (flag_of-text s.is_admin) refl
  field-back is_read_only = rw (flag_of-text s.is_read_only) refl
  field-back _ = refl

  deserialize-wire :
      (l : List Attribute)
      → deserialize env (serialize env s l) ≡ some (map (λ a. (a, value_of env s a)) l)
  unfolding deserialize serialize
  deserialize-wire [] = refl
  deserialize-wire (a ∷ l) = ground (arith, attribute_of-name a, field-back a, deserialize-wire l)

  value_of-IsValueOf : (a : Attribute) → IsValueOf env s a (value_of env s a)
  value_of-IsValueOf max_age = (_, refl, laws.max_age_read)
  value_of-IsValueOf created = (_, refl, laws.created_read)
  value_of-IsValueOf last_used = (_, refl, laws.last_used_read)
  value_of-IsValueOf messagebus_last_used = (_, refl, laws.messagebus_last_used_read)
  value_of-IsValueOf _ = refl

  abbrev AreValues : List (Attribute × Value) → Type 0
  AreValues = All (λ (e : Attribute × Value). IsValueOf env s e.0 e.1)

  values_of :
      (l : List Attribute)
      → (map (λ (e : Attribute × Value). e.0) (map (λ a. (a, value_of env s a)) l) ≡ l)
        × AreValues (map (λ a. (a, value_of env s a)) l)
  values_of [] = (refl, tt)
  values_of (a ∷ l) = (ap (◌∷◌ a) (values_of l).0, (value_of-IsValueOf a, (values_of l).1))

  -- What `serialize` writes of some attributes, `deserialize` reads back: just these attributes, each
  -- with the value that the session has, a number as the text that `int` reads as it, if the codecs
  -- read back what they wrote of the session.
  pub deserialize-serialize :
      (l : List Attribute)
      → (values : List (Attribute × Value)) × (deserialize env (serialize env s l) ≡ some values)
        × (map (λ (e : Attribute × Value). e.0) values ≡ l)
        × All (λ (e : Attribute × Value). IsValueOf env s e.0 e.1) values
  deserialize-serialize l =
      (map (λ a. (a, value_of env s a)) l, deserialize-wire l, (values_of l).0, (values_of l).1)
