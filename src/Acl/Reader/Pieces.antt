-- ===== src/Acl/Reader/Pieces.antt =====
-- Parameters without parentheses are what stands between the commas.
use Prim.Native.Char.{Char}
use Prim.Native.String.{◌++◌ as ◌+++◌}
use text.Mathlib.TextLemmas.{
  nil-append, cons-append, append-nil as append-nil_text, append_assoc as append_assoc_text,
}
use opsiconfd.Prelude.{
  ℕ, String, List, [], ◌∷◌, ◌++◌, none, true, false, ◌==◌, map, ◌≡◌, refl, sym, ap, ◌∙◌, arith,
  Bool-cases, inl, inr, subst, eq_iff, append_assoc,
}
use opsiconfd.Prelude.Text.{contains, contains-cons}
use opsiconfd.Prelude.Split.{is_char, split, count_char}
use opsiconfd.Prelude.Strip.{strip}
use opsiconfd.Prelude.Effect.{done}
use opsiconfd.Acl.{AceType}
use opsiconfd.Acl.Reader.{
  Reading, Params, no_params, takes_ids, id_of, take_param, take_char, end_part, take_params,
  without_last,
}

-- The loop outside of the values of attributes, with the text and the ids so far.
abbrev at : String → List String → Params
at q is = record no_params { param = q; ids = is }

-- The pieces with this text before the first.
abbrev behind : String → List String → List String
behind q [] = []
behind q (x ∷ xs) = (q +++ x) ∷ xs

behind_nothing : (xs : List String) → behind "" xs ≡ xs
behind_nothing [] = refl
behind_nothing (x ∷ xs) = ap (λ y. y ∷ xs) (nil-append x)

module _ (k : ℕ) (c : Char) (s : String) where
  count_char-none : count_char k (String.◌∷◌ c s) ≡ 0 → (is_char k c ≡ false) × (count_char k s ≡ 0)
  unfolding count_char
  count_char-none h = (ground arith, ground arith)

  without_last-none :
      (s == "") ≡ false → without_last k (String.◌∷◌ c s) ≡ none → without_last k s ≡ none
  unfolding without_last
  without_last-none more h = ground arith

  split-at : is_char k c ≡ true → split k (String.◌∷◌ c s) ≡ "" ∷ split k s
  unfolding split
  split-at e = rw e refl

-- The first piece is no "attributes" if no piece is.
first_other :
    (v : String) (vs : List String)
    → contains "attributes" (v ∷ vs) ≡ false
    → ((v == "attributes") ≡ false) × (contains "attributes" vs ≡ false)
first_other v vs h = (
  ground (arith, contains-cons "attributes" v vs, eq_iff "attributes" v, eq_iff v "attributes"),
  ground (arith, contains-cons "attributes" v vs),
)

pub split-first : (k : ℕ) (s : String) → (x : String) × (xs : List String) × (split k s ≡ x ∷ xs)
unfolding split
split-first k String.[] = ("", [], refl)
split-first k (String.◌∷◌ c s) =
    let (x, xs, e) = split-first k s in
    elim (Bool-cases (is_char k c)) [
      | inl here ↦ ("", split k s, rw here refl)
      | inr other ↦ (String.◌∷◌ c x, xs, rw (other, e) refl)
    ]

behind-split :
    (k : ℕ) (c : Char) (s q : String)
    → is_char k c ≡ false
    → behind q (split k (String.◌∷◌ c s)) ≡ behind (q +++ String.◌∷◌ c "") (split k s)
unfolding split
behind-split k c s q other =
    let (x, xs, e) = split-first k s in
    rw (other, e)
      (ap (λ y. y ∷ xs)
        (ap (◌+++◌ q) (sym (cons-append c "" x ∙ ap (String.◌∷◌ c) (nil-append x)))
          ∙ sym (append_assoc_text q (String.◌∷◌ c "") x)))

module _ (reading : Reading) (t : AceType) (takes : takes_ids t ≡ true) where
  take_param-id :
      (q : String) (is : List String)
      → (strip q == "attributes") ≡ false
      → take_param reading t (at q is) ≡ done (at "" (is ++ id_of reading t q ∷ []))
  unfolding take_param
  take_param-id q is other = rw (other, takes) refl

  take_params-char :
      (c : Char) (s q : String) (is : List String)
      → is_char b'(' c ≡ false
      → is_char b')' c ≡ false
      → is_char b',' c ≡ false
      → (s == "") ≡ false
      → take_params reading t (String.◌∷◌ c s) (at q is)
        ≡ take_params reading t s (at (q +++ String.◌∷◌ c "") is)
  unfolding take_params take_char end_part
  take_params-char c s q is l r comma more = rw (l, r, comma, more) refl

  take_params-comma :
      (c : Char) (s q : String) (is : List String)
      → is_char b'(' c ≡ false
      → is_char b')' c ≡ false
      → is_char b',' c ≡ true
      → (s == "") ≡ false
      → (strip q == "attributes") ≡ false
      → take_params reading t (String.◌∷◌ c s) (at q is)
        ≡ take_params reading t s (at "" (is ++ id_of reading t q ∷ []))
  unfolding take_params take_char end_part
  take_params-comma c s q is l r comma more other =
      rw (l, r, comma, more, take_param-id q is other) refl

  take_params-last :
      (c : Char) (q : String) (is : List String)
      → is_char b'(' c ≡ false
      → is_char b')' c ≡ false
      → (strip (q +++ String.◌∷◌ c "") == "attributes") ≡ false
      → take_params reading t (String.◌∷◌ c "") (at q is)
        ≡ done (at "" (is ++ id_of reading t (q +++ String.◌∷◌ c "") ∷ []))
  unfolding take_params take_char end_part
  take_params-last c q is l r other = elim (Bool-cases (is_char b',' c)) [
    | inl e ↦ rw (l, r, e, take_param-id (q +++ String.◌∷◌ c "") is other) refl
    | inr e ↦ rw (l, r, e, take_param-id (q +++ String.◌∷◌ c "") is other) refl
  ]

  -- What is asked of the rest of the text.
  abbrev IsPlain : String → String → Type 0
  IsPlain q s =
      (count_char b'(' s ≡ 0)
      × (count_char b')' s ≡ 0)
      × (without_last b',' s ≡ none)
      × (contains "attributes" (map strip (behind q (split b',' s))) ≡ false)

  take_params-one :
      (c : Char) (q : String) (is : List String)
      → IsPlain q (String.◌∷◌ c "")
      → take_params reading t (String.◌∷◌ c "") (at q is)
        ≡ done (at "" (is ++ map (id_of reading t) (behind q (split b',' (String.◌∷◌ c "")))))
  unfolding without_last split
  take_params-one c q is (l, r, end, other) =
      let pieces = behind-split b',' c "" q (ground arith) ∙ ap (λ x. x ∷ []) (append-nil_text _) in
      take_params-last c q is (count_char-none b'(' c "" l).0 (count_char-none b')' c "" r).0
        (first_other (strip (q +++ String.◌∷◌ c "")) []
          (ap (λ xs. contains "attributes" (map strip xs)) (sym pieces) ∙ other)).0
      ∙ ap (λ xs. done (at "" (is ++ map (id_of reading t) xs))) (sym pieces)

  take_params-behind :
      (s q : String) (is : List String)
      → (s == "") ≡ false
      → IsPlain q s
      → take_params reading t s (at q is)
        ≡ done (at "" (is ++ map (id_of reading t) (behind q (split b',' s))))
  take_params-behind String.[] q is more h = absurd (cc more)
  take_params-behind (String.◌∷◌ c s) q is more (l, r, end, other) = elim (Bool-cases (s == "")) [
    | inl e ↦
        subst
          (λ x.
            IsPlain q (String.◌∷◌ c x)
            → take_params reading t (String.◌∷◌ c x) (at q is)
              ≡ done (at "" (is ++ map (id_of reading t) (behind q (split b',' (String.◌∷◌ c x))))))
          (sym ((eq_iff s "").0 e)) (take_params-one c q is) (l, r, end, other)
    | inr e ↦ elim (Bool-cases (is_char b',' c)) [
      | inl comma ↦
          let pieces =
            ap (behind q) (split-at b',' c s comma)
            ∙ ap (λ x. x ∷ split b',' s) (append-nil_text q) in
          let others =
            first_other (strip q) (map strip (split b',' s))
              (ap (λ xs. contains "attributes" (map strip xs)) (sym pieces) ∙ other) in
          take_params-comma c s q is (count_char-none b'(' c s l).0 (count_char-none b')' c s r).0
            comma e others.0
          ∙ take_params-behind s "" (is ++ id_of reading t q ∷ []) e (
            (count_char-none b'(' c s l).1,
            (count_char-none b')' c s r).1,
            without_last-none b',' c s e end,
            ap (λ xs. contains "attributes" (map strip xs)) (behind_nothing (split b',' s))
                ∙ others.1,
          )
          ∙ ap (λ xs. done (at "" ((is ++ id_of reading t q ∷ []) ++ map (id_of reading t) xs)))
              (behind_nothing (split b',' s))
          ∙ ap (λ xs. done (at "" xs))
              (append_assoc is (id_of reading t q ∷ []) (map (id_of reading t) (split b',' s)))
          ∙ ap (λ xs. done (at "" (is ++ map (id_of reading t) xs))) (sym pieces)
      | inr other_char ↦
          let pieces = behind-split b',' c s q other_char in
          take_params-char c s q is (count_char-none b'(' c s l).0 (count_char-none b')' c s r).0
            other_char e
          ∙ take_params-behind s (q +++ String.◌∷◌ c "") is e (
            (count_char-none b'(' c s l).1,
            (count_char-none b')' c s r).1,
            without_last-none b',' c s e end,
            ap (λ xs. contains "attributes" (map strip xs)) (sym pieces) ∙ other,
          )
          ∙ ap (λ xs. done (at "" (is ++ map (id_of reading t) xs))) (sym pieces)
    ]
  ]

-- Parameters that are all ids, without parentheses and without a comma at the end, are read as the ids
-- that stand between the commas, empty ones included.
pub take_params-split :
    (reading : Reading) (t : AceType) (s : String)
    → takes_ids t ≡ true
    → (s == "") ≡ false
    → count_char b'(' s ≡ 0
    → count_char b')' s ≡ 0
    → without_last b',' s ≡ none
    → contains "attributes" (map strip (split b',' s)) ≡ false
    → take_params reading t s no_params
      ≡ done (record no_params { ids = map (id_of reading t) (split b',' s) })
take_params-split reading t s takes some_text left right end other =
    take_params-behind reading t takes s "" [] some_text (
      left,
      right,
      end,
      ap (λ xs. contains "attributes" (map strip xs)) (behind_nothing (split b',' s)) ∙ other,
    )
    ∙ ap (λ xs. done (at "" (map (id_of reading t) xs))) (behind_nothing (split b',' s))
