-- ===== src/Acl/Shown.antt =====
-- What the entries of a session let it see.
use opsiconfd.Prelude.{
  String, List, [], ◌∷◌, ◌≡◌, refl, subst, sym, ap, ◌∙◌, Option, none, some, Bool, true, false, not,
  ◌&&◌, ◌||◌, if◌then◌else◌, ◌==◌, any, arith, Bool-cases, inl, inr,
}
use opsiconfd.Prelude.Text.{eq_option, contains}
use opsiconfd.Prelude.Effect.{Outcome, done}
use opsiconfd.Sessions.World.{Error}
use opsiconfd.Sessions.Store.{is_empty}
use opsiconfd.Acl.{AceType, all, self, opsi_depotserver, opsi_client, sys_group, sys_user, Ace}
use opsiconfd.Acl.Columns.{
  selected_sql, Select, column, null, if_client, is_self, skips, select_by, select_of,
  column_select,
}

-- Whether the SQL gives the value of the column in the rows of a client.
abbrev pub shows : String → Select → Bool
shows client_id column = true
shows client_id null = false
shows client_id (if_client id rest) = eq_option id (some client_id) || shows client_id rest

abbrev pub is_oneself : AceType → Bool
is_oneself self = true
is_oneself _ = false

-- Whether an entry permits an attribute in the rows of a client: it allows the attribute, or all, does
-- not deny it, and is for the rows of any client or for those of this one.
abbrev pub permits : String → String → Ace → Bool
permits client_id attr a =
    (is_empty a.allowed_attributes || contains attr a.allowed_attributes)
    && (not (contains attr a.denied_attributes)
        && (not (is_oneself a.ace_type) || eq_option a.id (some client_id)))

kept-permits :
    (client_id attr : String) (a : Ace)
    → skips attr a ≡ false
    → permits client_id attr a ≡ (not (is_oneself a.ace_type) || eq_option a.id (some client_id))
unfolding contains
kept-permits client_id attr a h =
    go a.allowed_attributes a.denied_attributes
      (not (is_oneself a.ace_type) || eq_option a.id (some client_id)) h
  where
    go :
        (allowed denied : List String) (b : Bool)
        → ((not (is_empty allowed) && not (contains attr allowed))
            || (not (is_empty denied) && contains attr denied))
          ≡ false
        → ((is_empty allowed || contains attr allowed) && (not (contains attr denied) && b)) ≡ b
    go [] [] b h = refl
    go (x ∷ allowed) [] b h = ground arith
    go [] (y ∷ denied) b h = ground arith
    go (x ∷ allowed) (y ∷ denied) b h = ground arith

is_self-oneself : (t : AceType) (a : Ace) → a.ace_type ≡ t → is_self a ≡ is_oneself t
is_self-oneself all a e = rw e refl
is_self-oneself self a e = rw e refl
is_self-oneself opsi_depotserver a e = rw e refl
is_self-oneself opsi_client a e = rw e refl
is_self-oneself sys_group a e = rw e refl
is_self-oneself sys_user a e = rw e refl

abbrev owns : String → Option Ace → Bool
owns client_id none = false
owns client_id (some a) = eq_option a.id (some client_id)

or_swap : (x y z w : Bool) → (x || z || w) ≡ true → (x || y || (z || w)) ≡ true
or_swap x y z w h = ground arith

or_more : (x y z w : Bool) → (x || y || w) ≡ true → (x || y || (z || w)) ≡ true
or_more x y z w h = ground arith

or_false : (x : Bool) → (x || false) ≡ x
or_false x = ground arith

or_last : (x : Bool) → (x || true) ≡ true
or_last x = ground arith

select_by-permits :
    (client_id attr : String) (aces : List Ace) (selected : Bool) (own : Option Ace)
    → ((select_by attr aces selected own).0 || owns client_id (select_by attr aces selected own).1)
      ≡ true
    → (selected || owns client_id own || any (permits client_id attr) aces) ≡ true
unfolding select_by
select_by-permits client_id attr [] selected own h =
    rw (or_false (selected || owns client_id own)) h
select_by-permits client_id attr (a ∷ aces) selected own h = elim (Bool-cases (skips attr a)) [
  | inl skipped ↦
      or_more selected (owns client_id own) (permits client_id attr a)
        (any (permits client_id attr) aces)
        (select_by-permits client_id attr aces selected own (rw skipped at h))
  | inr kept ↦ elim (Bool-cases (is_self a)) [
    | inl oneself ↦
        ap (λ b. selected || owns client_id own || (b || any (permits client_id attr) aces))
          (permitted a kept true oneself)
        ∙ or_swap selected (owns client_id own) (eq_option a.id (some client_id))
            (any (permits client_id attr) aces)
            (select_by-permits client_id attr aces selected (some a) (rw (kept, oneself) at h))
    | inr other ↦
        ap (λ b. selected || owns client_id own || (b || any (permits client_id attr) aces))
          (permitted a kept false other)
        ∙ or_last (selected || owns client_id own)
  ]
]
  where
    permitted :
        (e : Ace)
        → skips attr e ≡ false
        → (b : Bool) → is_self e ≡ b
        → permits client_id attr e ≡ (not b || eq_option e.id (some client_id))
    permitted e kept b h =
        kept-permits client_id attr e kept
        ∙ ap (λ x. not x || eq_option e.id (some client_id))
            (sym (is_self-oneself e.ace_type e refl) ∙ h)

-- What a column that is selected at all shows.
Shown : String → String → List Ace → Outcome Error (Option Select) → Type 0
Shown client_id attr aces (done (some s)) =
    (not (shows client_id s) || is_empty aces || any (permits client_id attr) aces) ≡ true
Shown client_id attr aces _ = Unit

or_lift : (x y z : Bool) → (y || z) ≡ true → (x || y || z) ≡ true
or_lift x y z h = ground arith

sql-Shown :
    (client_id c : String) (selected : Bool) (a : Ace) (y z : Bool)
    → ((selected || owns client_id (some a)) ≡ true → (y || z) ≡ true)
    → (not (
          shows client_id
            (if c == "" then selected_sql selected else if_client a.id (selected_sql selected)))
        || y
        || z)
      ≡ true
sql-Shown client_id c true a y z h = or_lift _ y z (h refl)
sql-Shown client_id c false a y z h = elim (Bool-cases (c == "")) [
  | inl unnamed ↦ rw unnamed refl
  | inr named ↦ rw named (elim (Bool-cases (eq_option a.id (some client_id))) [
    | inl own ↦ or_lift _ y z (h own)
    | inr foreign ↦ rw foreign refl
  ])
]

select_of-Shown :
    (client_id attr : String) (id_column : Option String) (aces : List Ace) (r : Bool × Option Ace)
    → ((r.0 || owns client_id r.1) ≡ true
        → (is_empty aces || any (permits client_id attr) aces) ≡ true)
    → Shown client_id attr aces (select_of id_column r)
unfolding select_of Shown
select_of-Shown client_id attr id_column aces (true, none) h = h refl
select_of-Shown client_id attr id_column aces (false, none) h = tt
select_of-Shown client_id attr none aces (selected, some a) h = tt
select_of-Shown client_id attr (some c) aces (selected, some a) h =
    sql-Shown client_id c selected a (is_empty aces) (any (permits client_id attr) aces) h

-- The value of an attribute other than the type is shown in the rows of a client only if there are no
-- entries, or an entry permits it: one that allows the attribute or names none that it allows, does not
-- deny it, and is not for oneself or has the id of the client.
pub column_select-permitted :
    (client_id attr : String) (id_column : Option String) (aces : List Ace)
    (attributes : List String) (s : Select)
    → (attr == "type") ≡ false
    → column_select id_column aces attributes attr ≡ done (some s)
    → shows client_id s ≡ true
    → (is_empty aces || any (permits client_id attr) aces) ≡ true
unfolding column_select Shown
column_select-permitted client_id attr id_column aces attributes s other e visible =
    let shown =
      select_of-Shown client_id attr id_column aces (select_by attr aces (is_empty aces) none) (λ h.
        rw (← or_false (is_empty aces))
          (select_by-permits client_id attr aces (is_empty aces) none h)) in
    elim (Bool-cases (not (is_empty attributes) && not (contains attr attributes))) [
      | inl unwanted ↦ let never = rw (other, unwanted) at e in cc
      | inr wanted ↦
          let same = rw (other, wanted) at e in
          let known = subst (Shown client_id attr aces) same shown in rw visible at known
    ]
