-- ===== src/Actions/Plan/Firsts.antt =====
-- The actions of a list of groups, and the first actions in the dict of unsorted actions.
use opsiconfd.Prelude.{
  String, ◌≡◌, refl, sym, ap, ◌∙◌, List, [], ◌∷◌, ◌++◌, append_assoc, none, true, false, arith,
  ◌==◌, eq_iff, Bool-cases, inl, inr,
}
use opsiconfd.Prelude.Dict.{HasUniqueKeys, Dict, lookup, remove}
use mathlib.Core.Logic.{∥∥₁_elim}
use mathlib.Core.List.{Perm, Permᴰ, perm_append_comm, Perm-prop}
use mathlib.Core.List.Perm
use opsiconfd.Actions.Data.{Action, ActionGroup, empty_group, add_action}
use opsiconfd.Actions.Walk.{get_list}
use opsiconfd.Actions.Plan.{single_groups}

-- The actions of all groups.
abbrev pub all_actions : List ActionGroup → List Action
all_actions [] = []
all_actions (g ∷ gs) = g.actions ++ all_actions gs

-- The first action of each product.
abbrev pub first_actions : Dict (List Action) → List Action
first_actions [] = []
first_actions ((k, []) ∷ d) = first_actions d
first_actions ((k, a ∷ as') ∷ d) = a ∷ first_actions d

pub all_actions-append :
    (gs hs : List ActionGroup) → all_actions (gs ++ hs) ≡ all_actions gs ++ all_actions hs
all_actions-append [] hs = refl
all_actions-append (g ∷ gs) hs =
    ap (λ l. g.actions ++ l) (all_actions-append gs hs)
    ∙ sym (append_assoc g.actions (all_actions gs) (all_actions hs))

all_actions-permᴰ :
    {gs hs : List ActionGroup} → Permᴰ gs hs → Perm (all_actions gs) (all_actions hs)
all_actions-permᴰ Permᴰ.nil = Perm.rfl
all_actions-permᴰ (Permᴰ.cons {b = b} e r) = rw e (Perm.append_left b.actions (all_actions-permᴰ r))
all_actions-permᴰ (Permᴰ.swap {a = a} {b = b} {l = l} e f) =
    rw (← e, ← f)
      (rw
        (
          ← append_assoc a.actions b.actions (all_actions l),
          ← append_assoc b.actions a.actions (all_actions l),
        )
        (Perm.append_right (all_actions l) (perm_append_comm a.actions b.actions)))
all_actions-permᴰ (Permᴰ.trans r s) = Perm.trans (all_actions-permᴰ r) (all_actions-permᴰ s)

pub all_actions-perm :
    {gs hs : List ActionGroup} → Perm gs hs → Perm (all_actions gs) (all_actions hs)
all_actions-perm r = ∥∥₁_elim r Perm-prop all_actions-permᴰ

pub actions-add_action :
    (g : ActionGroup) (a : Action) → (add_action g a).actions ≡ g.actions ++ a ∷ []
unfolding add_action
actions-add_action g a = ground arith

pub all_actions-single_groups :
    (d : Dict (List Action)) → all_actions (single_groups d) ≡ first_actions d
unfolding single_groups
all_actions-single_groups [] = refl
all_actions-single_groups ((k, []) ∷ d) = all_actions-single_groups d
all_actions-single_groups ((k, a ∷ as') ∷ d) =
    rw (actions-add_action empty_group a) (ap (◌∷◌ a) (all_actions-single_groups d))

remove-eq_self : (k : String) (d : Dict (List Action)) → lookup k d ≡ none → remove k d ≡ d
unfolding lookup remove
remove-eq_self k [] h = refl
remove-eq_self k ((j, v) ∷ d) h = ground (arith, remove-eq_self k d)

lookup-remove-none :
    (j k : String) (d : Dict (List Action)) → lookup j d ≡ none → lookup j (remove k d) ≡ none
unfolding lookup remove
lookup-remove-none j k [] h = refl
lookup-remove-none j k ((i, v) ∷ d) h = ground (arith, lookup-remove-none j k d)

pub HasUniqueKeys-remove :
    (k : String) (d : Dict (List Action)) → HasUniqueKeys d → HasUniqueKeys (remove k d)
unfolding remove
HasUniqueKeys-remove k [] h = tt
HasUniqueKeys-remove k ((j, v) ∷ d) h = elim (Bool-cases (j == k)) [
  | inl same ↦ rw same (HasUniqueKeys-remove k d h.1)
  | inr other ↦ rw other (lookup-remove-none j k d h.0, HasUniqueKeys-remove k d h.1)
]

module _ (j k : String) (v : List Action) (d : Dict (List Action)) where
  get_list-same : (j == k) ≡ true → get_list k ((j, v) ∷ d) ≡ v
  unfolding lookup
  get_list-same h = ground arith

  get_list-other : (j == k) ≡ false → get_list k ((j, v) ∷ d) ≡ get_list k d
  unfolding lookup
  get_list-other h = ground arith

pub first_actions-remove_nil :
    (k : String) (d : Dict (List Action))
    → HasUniqueKeys d
    → get_list k d ≡ []
    → first_actions (remove k d) ≡ first_actions d
unfolding remove lookup
first_actions-remove_nil k [] u h = refl
first_actions-remove_nil k ((j, []) ∷ d) u h = elim (Bool-cases (j == k)) [
  | inl same ↦ rw same (ap first_actions (remove-eq_self k d (rw ((eq_iff j k).0 same) at u.0)))
  | inr other ↦
      rw other (first_actions-remove_nil k d u.1 (sym (get_list-other j k [] d other) ∙ h))
]
first_actions-remove_nil k ((j, a ∷ as') ∷ d) u h = elim (Bool-cases (j == k)) [
  | inl same ↦ cc (sym (get_list-same j k (a ∷ as') d same) ∙ h)
  | inr other ↦ rw other (
      ap (◌∷◌ a)
        (first_actions-remove_nil k d u.1 (sym (get_list-other j k (a ∷ as') d other) ∙ h)))
]

pub first_actions-remove_cons :
    (k : String) (d : Dict (List Action)) (b : Action) (bs : List Action)
    → HasUniqueKeys d
    → get_list k d ≡ b ∷ bs
    → Perm (b ∷ first_actions (remove k d)) (first_actions d)
unfolding remove lookup
first_actions-remove_cons k [] b bs u h = cc
first_actions-remove_cons k ((j, []) ∷ d) b bs u h = elim (Bool-cases (j == k)) [
  | inl same ↦ cc (sym (get_list-same j k [] d same) ∙ h)
  | inr other ↦
      rw other (first_actions-remove_cons k d b bs u.1 (sym (get_list-other j k [] d other) ∙ h))
]
first_actions-remove_cons k ((j, a ∷ as') ∷ d) b bs u h = elim (Bool-cases (j == k)) [
  | inl same ↦ rw same (
      rw (remove-eq_self k d (rw ((eq_iff j k).0 same) at u.0))
        (Perm.cons' (cc (sym (get_list-same j k (a ∷ as') d same) ∙ h)) Perm.rfl))
  | inr other ↦ rw other (
      Perm.trans (Perm.swap a b (first_actions (remove k d))) (
        Perm.cons a (
          first_actions-remove_cons k d b bs u.1 (sym (get_list-other j k (a ∷ as') d other) ∙ h))))
]
