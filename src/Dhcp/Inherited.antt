-- ===== src/Dhcp/Inherited.antt =====
-- The parameters that a block inherits, and those that `add_host` leaves out because of this.
use opsiconfd.Prelude.{
  String, List, [], ◌∷◌, Option, none, some, true, false, ◌==◌, ◌≡◌, refl, sym, subst, ap, ◌∙◌,
  arith, eq_iff, Bool-cases, Option-cases, inl, inr,
}
use opsiconfd.Prelude.Dict.{
  Dict, insert, lookup, remove, lookup-insert, lookup-remove, HasUniqueKeys, HasUniqueKeys-insert,
}
use opsiconfd.Dhcp.Blocks.{
  Value, text, flag, eq_value, parameter, option, comment, empty_line, block, Components, nil, cons,
  Block, own_parameters, add_missing, parameters_of, inherits,
}
use opsiconfd.Dhcp.Hosts.{Checks, remove_inherited}

abbrev pub or_else : {V : Type 0} → Option V → Option V → Option V
or_else none o = o
or_else (some v) o = some v

add_missing-none :
    {V : Type 0} (j : String) (v : V) (e d : Dict V)
    → lookup j d ≡ none
    → add_missing ((j, v) ∷ e) d ≡ add_missing e (insert j v d)
unfolding add_missing
add_missing-none j v e d h =
    ap (λ o. elim o [ none ↦ add_missing e (insert j v d) | some _ ↦ add_missing e d ]) h

add_missing-some :
    {V : Type 0} (j : String) (v w : V) (e d : Dict V)
    → lookup j d ≡ some w
    → add_missing ((j, v) ∷ e) d ≡ add_missing e d
unfolding add_missing
add_missing-some j v w e d h =
    ap (λ o. elim o [ none ↦ add_missing e (insert j v d) | some _ ↦ add_missing e d ]) h

pub lookup-add_missing :
    (k : String) {V : Type 0} (e d : Dict V)
    → lookup k (add_missing e d) ≡ or_else (lookup k d) (lookup k e)
unfolding add_missing lookup
lookup-add_missing k [] d = ground arith
lookup-add_missing k ((j, v) ∷ e) d = elim (Option-cases (lookup j d)) [
  | inl new ↦
      ap (lookup k) (add_missing-none j v e d new)
      ∙ lookup-add_missing k e (insert j v d)
      ∙ ground (arith, lookup-insert j k v d, eq_iff j k)
  | inr (w, old) ↦
      ap (lookup k) (add_missing-some j v w e d old)
      ∙ lookup-add_missing k e d
      ∙ ground (arith, eq_iff j k)
]

HasUniqueKeys-add_missing :
    {V : Type 0} (e d : Dict V) → HasUniqueKeys d → HasUniqueKeys (add_missing e d)
unfolding add_missing
HasUniqueKeys-add_missing [] d u = u
HasUniqueKeys-add_missing ((j, v) ∷ e) d u = elim (Option-cases (lookup j d)) [
  | inl new ↦
      subst HasUniqueKeys (sym (add_missing-none j v e d new))
        (HasUniqueKeys-add_missing e (insert j v d) (HasUniqueKeys-insert j v d u))
  | inr (w, old) ↦
      subst HasUniqueKeys (sym (add_missing-some j v w e d old)) (HasUniqueKeys-add_missing e d u)
]

HasUniqueKeys-own_parameters :
    (cs : Components) (d : Dict Value) → HasUniqueKeys d → HasUniqueKeys (own_parameters cs d)
unfolding own_parameters
HasUniqueKeys-own_parameters nil d u = u
HasUniqueKeys-own_parameters (cons (parameter k v) cs) d u =
    HasUniqueKeys-own_parameters cs (insert k v d) (HasUniqueKeys-insert k v d u)
HasUniqueKeys-own_parameters (cons (option k v) cs) d u = HasUniqueKeys-own_parameters cs d u
HasUniqueKeys-own_parameters (cons (comment s) cs) d u = HasUniqueKeys-own_parameters cs d u
HasUniqueKeys-own_parameters (cons empty_line cs) d u = HasUniqueKeys-own_parameters cs d u
HasUniqueKeys-own_parameters (cons (block t s c) cs) d u = HasUniqueKeys-own_parameters cs d u

pub HasUniqueKeys-parameters_of :
    (inherit : Option String) (b : Block) (ps : List Block)
    → HasUniqueKeys (parameters_of inherit b ps)
unfolding parameters_of
HasUniqueKeys-parameters_of inherit b [] = HasUniqueKeys-own_parameters b.components [] tt
HasUniqueKeys-parameters_of inherit b (p ∷ ps) = elim (Bool-cases (inherits inherit b)) [
  | inl e ↦ rw e (
      HasUniqueKeys-add_missing (parameters_of inherit p ps) (own_parameters b.components [])
        (HasUniqueKeys-own_parameters b.components [] tt))
  | inr e ↦ rw e (HasUniqueKeys-own_parameters b.components [] tt)
]

HasUniqueKeys-remove :
    {V : Type 0} (k : String) (d : Dict V) → HasUniqueKeys d → HasUniqueKeys (remove k d)
unfolding remove
HasUniqueKeys-remove k [] u = tt
HasUniqueKeys-remove k ((j, v) ∷ d) u = elim (Bool-cases (j == k)) [
  | inl e ↦ rw e (HasUniqueKeys-remove k d u.1)
  | inr e ↦ rw e (ground (arith, lookup-remove k j d, u.0), HasUniqueKeys-remove k d u.1)
]

-- What `remove_inherited` does with its first entry.
pub remove_inherited-none :
    (checks : Checks) (k : String) (v : Value) (e d : Dict Value)
    → lookup k d ≡ none
    → remove_inherited checks ((k, v) ∷ e) d ≡ remove_inherited checks e d
unfolding remove_inherited
remove_inherited-none checks k v e d h =
    ap
      (λ o. elim o [
        | none ↦ remove_inherited checks e d
        | some w ↦ elim (eq_value w v) [
          | true ↦ remove_inherited checks e (remove k d)
          | false ↦ remove_inherited checks e d
        ]
      ])
      h

remove_inherited-some :
    (checks : Checks) (k : String) (v w : Value) (e d : Dict Value)
    → lookup k d ≡ some w
    → remove_inherited checks ((k, v) ∷ e) d ≡ elim (eq_value w v) [
      | true ↦ remove_inherited checks e (remove k d)
      | false ↦ remove_inherited checks e d
    ]
unfolding remove_inherited
remove_inherited-some checks k v w e d h =
    ap
      (λ o. elim o [
        | none ↦ remove_inherited checks e d
        | some w ↦ elim (eq_value w v) [
          | true ↦ remove_inherited checks e (remove k d)
          | false ↦ remove_inherited checks e d
        ]
      ])
      h

pub remove_inherited-same :
    (checks : Checks) (k : String) (v w : Value) (e d : Dict Value)
    → lookup k d ≡ some w
    → eq_value w v ≡ true
    → remove_inherited checks ((k, v) ∷ e) d ≡ remove_inherited checks e (remove k d)
remove_inherited-same checks k v w e d h same =
    remove_inherited-some checks k v w e d h
    ∙ ap
        (λ b. elim b [
          | true ↦ remove_inherited checks e (remove k d)
          | false ↦ remove_inherited checks e d
        ])
        same

pub remove_inherited-other :
    (checks : Checks) (k : String) (v w : Value) (e d : Dict Value)
    → lookup k d ≡ some w
    → eq_value w v ≡ false
    → remove_inherited checks ((k, v) ∷ e) d ≡ remove_inherited checks e d
remove_inherited-other checks k v w e d h other =
    remove_inherited-some checks k v w e d h
    ∙ ap
        (λ b. elim b [
          | true ↦ remove_inherited checks e (remove k d)
          | false ↦ remove_inherited checks e d
        ])
        other

pub HasUniqueKeys-remove_inherited :
    (checks : Checks) (e d : Dict Value)
    → HasUniqueKeys d
    → HasUniqueKeys (remove_inherited checks e d)
unfolding remove_inherited
HasUniqueKeys-remove_inherited checks [] d u = u
HasUniqueKeys-remove_inherited checks ((k, v) ∷ e) d u = elim (Option-cases (lookup k d)) [
  | inl new ↦
      subst HasUniqueKeys (sym (remove_inherited-none checks k v e d new))
        (HasUniqueKeys-remove_inherited checks e d u)
  | inr (w, old) ↦ elim (Bool-cases (eq_value w v)) [
    | inl same ↦
        subst HasUniqueKeys (sym (remove_inherited-same checks k v w e d old same))
          (HasUniqueKeys-remove_inherited checks e (remove k d) (HasUniqueKeys-remove k d u))
    | inr other ↦
        subst HasUniqueKeys (sym (remove_inherited-other checks k v w e d old other))
          (HasUniqueKeys-remove_inherited checks e d u)
  ]
]

pub eq_value→≡ : (v w : Value) → eq_value v w ≡ true → v ≡ w
eq_value→≡ (text s) (text t) h = ap text ((eq_iff s t).0 h)
eq_value→≡ (flag true) (flag true) h = refl
eq_value→≡ (flag false) (flag false) h = refl
eq_value→≡ (flag true) (flag false) h = absurd (cc h)
eq_value→≡ (flag false) (flag true) h = absurd (cc h)
eq_value→≡ (text s) (flag b) h = absurd (cc h)
eq_value→≡ (flag true) (text t) h = absurd (cc h)
eq_value→≡ (flag false) (text t) h = absurd (cc h)

pub lookup-remove_inherited :
    (checks : Checks) (k : String) (e d : Dict Value)
    → lookup k d ≡ none
    → lookup k (remove_inherited checks e d) ≡ none
unfolding remove_inherited
lookup-remove_inherited checks k [] d h = h
lookup-remove_inherited checks k ((j, v) ∷ e) d h = elim (Option-cases (lookup j d)) [
  | inl new ↦
      ap (lookup k) (remove_inherited-none checks j v e d new)
      ∙ lookup-remove_inherited checks k e d h
  | inr (w, old) ↦ elim (Bool-cases (eq_value w v)) [
    | inl same ↦
        ap (lookup k) (remove_inherited-same checks j v w e d old same)
        ∙ lookup-remove_inherited checks k e (remove j d) (ground (arith, lookup-remove j k d, h))
    | inr other ↦
        ap (lookup k) (remove_inherited-other checks j v w e d old other)
        ∙ lookup-remove_inherited checks k e d h
  ]
]
