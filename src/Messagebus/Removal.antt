-- ===== src/Messagebus/Removal.antt =====
-- What the removal of channels leaves: of the channels of a reader no others, and a channel that is not
-- removed stays.
use opsiconfd.Prelude.{
  ℕ, String, List, [], ◌∷◌, Bool, true, false, ◌==◌, ◌≡◌, refl, sym, ap, ◌∙◌, eqb, any, All-if, All,
  arith, eq_iff, Bool-cases, inl, inr, count-perm, any-count, Option, none, some,
}
use opsiconfd.Prelude.Text.{contains, contains-append, contains-cons, contains-nil, text_le}
use opsiconfd.Prelude.Sort.{sort, sort-perm}
use opsiconfd.Prelude.Dict.{
  Dict, keys, lookup, remove as remove_key, insert, keys-remove, keys-insert,
}
use opsiconfd.Messagebus.Data.{Operation, add, set, remove, unknown, Reader, Bus}
use opsiconfd.Messagebus.Unsubscribe.{
  keep_if, to_remove, add_to_group, group, remove_groups, unsubscribe,
}
use opsiconfd.Messagebus.Readers.{
  eq_list, same_sorted, remove_keys, remove_channels, remove_from, get_channel_names,
  get_subscribed_channels, update, add_channels, change_plain,
}

eq_list→≡ : (xs ys : List String) → eq_list xs ys ≡ true → xs ≡ ys
unfolding eq_list
eq_list→≡ [] [] h = refl
eq_list→≡ [] (y ∷ ys) h = absurd (cc h)
eq_list→≡ (x ∷ xs) [] h = absurd (cc h)
eq_list→≡ (x ∷ xs) (y ∷ ys) h = ground (arith, eq_list→≡ xs ys, eq_iff x y)

contains-any : (k : String) (xs : List String) → contains k xs ≡ any (λ j. k == j) xs
unfolding contains
contains-any k [] = refl
contains-any k (x ∷ xs) = ground (arith, contains-any k xs)

contains-sort : (k : String) (xs : List String) → contains k (sort text_le xs) ≡ contains k xs
contains-sort k xs = ground (
  arith,
  contains-any k xs,
  contains-any k (sort text_le xs),
  any-count (λ j. k == j) xs,
  any-count (λ j. k == j) (sort text_le xs),
  count-perm (λ j. k == j) (sort-perm text_le xs),
)

-- Lists that are equal once sorted have the same members.
contains-same_sorted :
    (k : String) (xs ys : List String) → same_sorted xs ys ≡ true → contains k xs ≡ contains k ys
unfolding same_sorted
contains-same_sorted k xs ys h =
    sym (contains-sort k xs)
    ∙ ap (contains k) (eq_list→≡ (sort text_le xs) (sort text_le ys) h)
    ∙ contains-sort k ys

contains-remove_keys :
    (k : String) (cs : List String) (d : Dict String)
    → contains k cs ≡ false
    → contains k (keys (remove_keys cs d)) ≡ contains k (keys d)
unfolding remove_keys contains
contains-remove_keys k [] d h = refl
contains-remove_keys k (c ∷ cs) d h =
    ground
      (arith, contains-remove_keys k cs (remove_key c d), keys-remove c k d, eq_iff c k, eq_iff k c)

module _ (Q : String → Type 0) where
  All-remove : (c : String) (d : Dict String) → All Q (keys d) → All Q (keys (remove_key c d))
  unfolding remove_key keys
  All-remove c [] h = h
  All-remove c ((j, w) ∷ d) h = elim (Bool-cases (j == c)) [
    | inl e ↦ rw e (All-remove c d h.1)
    | inr e ↦ rw e (h.0, All-remove c d h.1)
  ]

  All-remove_keys :
      (cs : List String) (d : Dict String) → All Q (keys d) → All Q (keys (remove_keys cs d))
  unfolding remove_keys
  All-remove_keys [] d h = h
  All-remove_keys (c ∷ cs) d h = All-remove_keys cs (remove_key c d) (All-remove c d h)

  pub All-insert :
      (k v : String) (d : Dict String) → Q k → All Q (keys d) → All Q (keys (insert k v d))
  unfolding insert keys
  All-insert k v [] q h = (q, tt)
  All-insert k v ((j, w) ∷ d) q h = elim (Bool-cases (j == k)) [
    | inl e ↦ rw e (q, h.1)
    | inr e ↦ rw e (h.0, All-insert k v d q h.1)
  ]

  All-update : (e d : Dict String) → All Q (keys e) → All Q (keys d) → All Q (keys (update e d))
  unfolding update keys
  All-update [] d h k = k
  All-update ((j, v) ∷ e) d h k = All-update e (insert j v d) h.1 (All-insert j v d h.0 k)

  -- Every channel of every reader.
  abbrev pub AllRead : List Reader → Type 0
  AllRead = All (λ r. All Q (keys r.channels))

  pub remove_from-AllRead :
      (n : ℕ) (cs : List String) (rs : List Reader) → AllRead rs → AllRead (remove_from n cs rs)
  unfolding remove_from remove_channels
  remove_from-AllRead n cs [] h = h
  remove_from-AllRead n cs (r ∷ rs) h =
      All-if _ (eqb r.ref n) _ _
        (All-if _ (same_sorted cs (get_channel_names r)) _ _ h.1
          (All-remove_keys cs r.channels h.0, h.1))
        (h.0, remove_from-AllRead n cs rs h.1)

  abbrev pub OptionRead : Option (List Reader) → Type 0
  OptionRead none = Unit
  OptionRead (some rs) = AllRead rs

  -- Channels that are added to a reader.
  pub change_plain-AllRead :
      (d : Dict String) (rs : List Reader)
      → All Q (keys d)
      → AllRead rs
      → OptionRead (change_plain (add_channels d) rs)
  unfolding change_plain add_channels
  change_plain-AllRead d [] q h = tt
  change_plain-AllRead d (r ∷ rs) q h =
      go r.consumer (change_plain (add_channels d) rs) (change_plain-AllRead d rs q h.1)
    where
      go :
          (c : Option (String × String)) (o : Option (List Reader))
          → OptionRead o
          → OptionRead (elim c [
            | none ↦ some (record r { channels = update d r.channels } ∷ rs)
            | some _ ↦ elim o [ none ↦ none | some rs' ↦ some (r ∷ rs') ]
          ])
      go none o k = (All-update d r.channels q h.0, h.1)
      go (some c) none k = tt
      go (some c) (some rs') k = (h.0, k)

-- Whether a reader reads a channel.
abbrev pub is_read : String → List Reader → Bool
is_read k = any (λ r. contains k (keys r.channels))

pub is_read-remove_from :
    (k : String) (n : ℕ) (cs : List String) (rs : List Reader)
    → contains k cs ≡ false
    → is_read k (remove_from n cs rs) ≡ is_read k rs
unfolding remove_from remove_channels get_channel_names
is_read-remove_from k n cs [] h = refl
is_read-remove_from k n cs (r ∷ rs) h = ground (
  arith,
  is_read-remove_from k n cs rs h,
  contains-remove_keys k cs r.channels h,
  contains-same_sorted k cs (keys r.channels),
)

contains-update :
    (k : String) (e d : Dict String)
    → contains k (keys d) ≡ true
    → contains k (keys (update e d)) ≡ true
unfolding update
contains-update k [] d h = h
contains-update k ((j, v) ∷ e) d h =
    contains-update k e (insert j v d) (ground (arith, keys-insert j k v d))

abbrev pub OptionIsRead : String → Option (List Reader) → Type 0
OptionIsRead k none = Unit
OptionIsRead k (some rs) = is_read k rs ≡ true

pub change_plain-is_read :
    (k : String) (d : Dict String) (rs : List Reader)
    → is_read k rs ≡ true
    → OptionIsRead k (change_plain (add_channels d) rs)
unfolding change_plain add_channels
change_plain-is_read k d [] h = tt
change_plain-is_read k d (r ∷ rs) h =
    go r.consumer (change_plain (add_channels d) rs) (change_plain-is_read k d rs)
  where
    go :
        (c : Option (String × String)) (o : Option (List Reader))
        → (is_read k rs ≡ true → OptionIsRead k o)
        → OptionIsRead k (elim c [
          | none ↦ some (record r { channels = update d r.channels } ∷ rs)
          | some _ ↦ elim o [ none ↦ none | some rs' ↦ some (r ∷ rs') ]
        ])
    go none o f = ground (arith, contains-update k d r.channels)
    go (some c) none f = tt
    go (some c) (some rs') f = ground arith

-- No group of channels to remove has the channel `k`.
abbrev IsAbsent : String → List (ℕ × List String) → Type 0
IsAbsent k = All (λ g. contains k g.1 ≡ false)

add_to_group-IsAbsent :
    (k : String) (n : ℕ) (c : String) (gs : List (ℕ × List String))
    → (c == k) ≡ false
    → IsAbsent k gs
    → IsAbsent k (add_to_group n c gs)
unfolding add_to_group contains
add_to_group-IsAbsent k n c [] e h = (ground (arith, eq_iff c k, eq_iff k c), tt)
add_to_group-IsAbsent k n c ((j, cs) ∷ gs) e h =
    All-if _ (eqb j n) _ _
      (
        ground (
          arith,
          contains-append k cs (c ∷ []),
          contains-cons k c [],
          contains-nil k,
          eq_iff c k,
          eq_iff k c,
          h.0,
        ),
        h.1,
      )
      (h.0, add_to_group-IsAbsent k n c gs e h.1)

group-IsAbsent :
    (k : String) (cs : List String) (subscribed : Dict Reader) (gs : List (ℕ × List String))
    → All (λ c. (c == k) ≡ false) cs
    → IsAbsent k gs
    → IsAbsent k (group cs subscribed gs)
unfolding group
group-IsAbsent k [] subscribed gs e h = h
group-IsAbsent k (c ∷ cs) subscribed gs e h =
    go (lookup c subscribed) (λ gs. group-IsAbsent k cs subscribed gs e.1)
  where
    go :
        (o : Option Reader)
        → ((gs : List (ℕ × List String)) → IsAbsent k gs → IsAbsent k (group cs subscribed gs))
        → IsAbsent k (elim o [
          | none ↦ group cs subscribed gs
          | some r ↦ group cs subscribed (add_to_group r.ref c gs)
        ])
    go none rest = rest gs h
    go (some r) rest = rest (add_to_group r.ref c gs) (add_to_group-IsAbsent k r.ref c gs e.0 h)

keep_if-All :
    (Q : String → Type 0) (p : String → Bool) (cs : List String)
    → ((c : String) → p c ≡ true → Q c)
    → All Q (keep_if p cs)
keep_if-All Q p [] f = tt
keep_if-All Q p (c ∷ cs) f = elim (Bool-cases (p c)) [
  | inl e ↦ rw e (f c e, keep_if-All Q p cs f)
  | inr e ↦ rw e (keep_if-All Q p cs f)
]

-- The own session channel is not removed.
to_remove-others :
    (op : Operation) (own : String) (cs : List String) (subscribed : Dict Reader)
    → All (λ c. (c == own) ≡ false) (to_remove op own cs subscribed)
unfolding to_remove
to_remove-others remove own cs subscribed = keep_if-All _ _ cs (λ c e. ground arith)
to_remove-others set own cs subscribed = keep_if-All _ _ (keys subscribed) (λ c e. ground arith)
to_remove-others add own cs subscribed = tt
to_remove-others (unknown s) own cs subscribed = tt

remove_groups-AllRead :
    (Q : String → Type 0) (gs : List (ℕ × List String)) (rs : List Reader)
    → AllRead Q rs
    → AllRead Q (remove_groups gs rs)
unfolding remove_groups
remove_groups-AllRead Q [] rs h = h
remove_groups-AllRead Q ((n, cs) ∷ gs) rs h =
    remove_groups-AllRead Q gs (remove_from n cs rs) (remove_from-AllRead Q n cs rs h)

is_read-remove_groups :
    (k : String) (gs : List (ℕ × List String)) (rs : List Reader)
    → IsAbsent k gs
    → is_read k (remove_groups gs rs) ≡ is_read k rs
unfolding remove_groups
is_read-remove_groups k [] rs h = refl
is_read-remove_groups k ((n, cs) ∷ gs) rs h =
    is_read-remove_groups k gs (remove_from n cs rs) h.1 ∙ is_read-remove_from k n cs rs h.0

pub unsubscribe-AllRead :
    (Q : String → Type 0) (op : Operation) (cs : List String) (b : Bus)
    → AllRead Q b.readers
    → AllRead Q (unsubscribe op cs b).readers
unfolding unsubscribe
unsubscribe-AllRead Q op cs b h = remove_groups-AllRead Q _ b.readers h

pub is_read-unsubscribe :
    (op : Operation) (cs : List String) (b : Bus)
    → is_read b.session_channel (unsubscribe op cs b).readers ≡ is_read b.session_channel b.readers
unfolding unsubscribe
is_read-unsubscribe op cs b =
    let subscribed = get_subscribed_channels b.readers in
    is_read-remove_groups b.session_channel _ b.readers (
      group-IsAbsent b.session_channel (to_remove op b.session_channel cs subscribed) subscribed []
        (to_remove-others op b.session_channel cs subscribed) tt)
