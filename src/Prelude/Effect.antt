-- ===== src/Prelude/Effect.antt =====
-- A computation that reads and changes a state and may raise an exception, which keeps the changes.
use opsiconfd.Prelude.Tests.{if◌then◌else◌}
use mathlib.Core.Bool.{Bool, true, false}
use mathlib.Core.Option.{Option, none, some}
use mathlib.Core.Path.{◌≡◌, refl, ap}

-- How a computation ends.
pub data Outcome (E A : Type 0) : Type 0 where
  done : A → Outcome E A
  raised : E → Outcome E A

module _ {E : Type 0} where
  infixl 5 ◌then_do◌
  abbrev pub ◌then_do◌ : {A B : Type 0} → Outcome E A → (A → Outcome E B) → Outcome E B
  ◌then_do◌ (done a) k = k a
  ◌then_do◌ (raised e) k = raised e

  abbrev pub or_raise : {A : Type 0} → E → Option A → Outcome E A
  or_raise e none = raised e
  or_raise e (some a) = done a

  pub done_injective : {A : Type 0} {a b : A} → Path (Outcome E A) (done a) (done b) → a ≡ b
  done_injective h = cc h

  pub or_raise-done :
      {A : Type 0} (e : E) (o : Option A) (a : A) → or_raise e o ≡ done a → o ≡ some a
  or_raise-done e none a h = absurd (cc h)
  or_raise-done e (some b) a h = ap some (done_injective h)

  -- A chain that ends went through its first step.
  pub then_do-done :
      {A B : Type 0} (m : Outcome E A) (f : A → Outcome E B) (b : B)
      → m then_do f ≡ done b
      → (a : A) × (m ≡ done a) × (f a ≡ done b)
  then_do-done (done a) f b h = (a, refl, h)
  then_do-done (raised e) f b h = absurd (cc h)

abbrev pub Effect : Type 0 → Type 0 → Type 0 → Type 0
Effect S E A = S → Outcome E A × S

module _ {S E : Type 0} where
  abbrev pub pure : {A : Type 0} → A → Effect S E A
  pure a s = (done a, s)

  abbrev pub raise : {A : Type 0} → E → Effect S E A
  raise e s = (raised e, s)

  -- A change of the state.
  abbrev pub change : (S → S) → Effect S E (Unit {0})
  change f s = (done tt, f s)

  abbrev pub after : {A B : Type 0} → Outcome E A × S → (A → Effect S E B) → Outcome E B × S
  after (done a, s) k = k a s
  after (raised e, s) k = (raised e, s)

  infixl 5 ◌>>=◌ ◌>>◌
  abbrev pub ◌>>=◌ : {A B : Type 0} → Effect S E A → (A → Effect S E B) → Effect S E B
  ◌>>=◌ m k s = after (m s) k

  abbrev pub ◌>>◌ : {B : Type 0} → Effect S E (Unit {0}) → Effect S E B → Effect S E B
  ◌>>◌ m k s = after (m s) (λ _. k)

  abbrev pub handled : {A : Type 0} → Outcome E A × S → (E → Effect S E A) → Outcome E A × S
  handled (done a, s) h = (done a, s)
  handled (raised e, s) h = h e s

  -- `try: m except e: h e`
  abbrev pub catch : {A : Type 0} → Effect S E A → (E → Effect S E A) → Effect S E A
  catch m h s = handled (m s) h

  -- `if b: raise e`
  abbrev pub raise_if : Bool → E → Effect S E (Unit {0})
  raise_if b e s = if b then (raised e, s) else (done tt, s)

  -- What holds of the result and the state, however the computation ends.
  abbrev pub Ends : {A : Type 0} → (A → S → Type 0) → (E → S → Type 0) → Outcome E A × S → Type 0
  Ends P Q (done a, s) = P a s
  Ends P Q (raised e, s) = Q e s

  pub Ends-bind :
      {A B : Type 0} (P : A → S → Type 0) (R : B → S → Type 0) (Q : E → S → Type 0)
      (r : Outcome E A × S) (k : A → Effect S E B)
      → Ends P Q r
      → ((a : A) (s : S) → P a s → Ends R Q (k a s))
      → Ends R Q (after r k)
  Ends-bind P R Q (done a, s) k h f = f a s h
  Ends-bind P R Q (raised e, s) k h f = h

  pub after-eq-done :
      {A B : Type 0} (r : Outcome E A × S) (k : A → Effect S E B) {b : B} {s : S}
      → after r k ≡ (done b, s)
      → (a : A) × (t : S) × (r ≡ (done a, t)) × (k a t ≡ (done b, s))
  after-eq-done (done a, t) k h = (a, t, refl, h)
  after-eq-done (raised e, t) k h = cc

  -- What holds of the state if the computation raises nothing.
  abbrev pub Accepts : {A : Type 0} → (S → Type 0) → Outcome E A × S → Type 0
  Accepts P = Ends (λ _. P) (λ _ _. Unit)

  pub Accepts-after :
      {A B : Type 0} (P : S → Type 0) (r : Outcome E A × S) (k : A → Effect S E B)
      → ((a : A) (s : S) → Accepts P (k a s))
      → Accepts P (after r k)
  Accepts-after P (done a, s) k h = h a s
  Accepts-after P (raised e, s) k h = tt

  pub Accepts-raise_if :
      {B : Type 0} (P : S → Type 0) (b : Bool) (e : E) (s : S) (k : Effect S E B)
      → (b ≡ false → Accepts P (k s))
      → Accepts P (after (raise_if b e s) (λ _. k))
  Accepts-raise_if P true e s k h = tt
  Accepts-raise_if P false e s k h = h refl

  pub Accepts-catch :
      {A : Type 0} (P : S → Type 0) (r : Outcome E A × S) (h : E → Effect S E A)
      → Accepts P r
      → ((e : E) (s : S) → Accepts P (h e s))
      → Accepts P (handled r h)
  Accepts-catch P (done a, s) h k f = k
  Accepts-catch P (raised e, s) h k f = f e s

  pub raise_if-Accepts :
      (P : S → Type 0) (b : Bool) (e : E) (s : S) → (b ≡ false → P s) → Accepts P (raise_if b e s)
  raise_if-Accepts P true e s h = tt
  raise_if-Accepts P false e s h = h refl

  -- The same for what holds of the result.
  pub Ends-after :
      {A B : Type 0} (R : B → S → Type 0) (r : Outcome E A × S) (k : A → Effect S E B)
      → ((a : A) (s : S) → Ends R (λ _ _. Unit) (k a s))
      → Ends R (λ _ _. Unit) (after r k)
  Ends-after R (done a, s) k h = h a s
  Ends-after R (raised e, s) k h = tt

  pub Ends-map :
      {A : Type 0} (P R : A → S → Type 0) (Q : E → S → Type 0) (r : Outcome E A × S)
      → Ends P Q r
      → ((a : A) (s : S) → P a s → R a s)
      → Ends R Q r
  Ends-map P R Q (done a, s) h f = f a s h
  Ends-map P R Q (raised e, s) h f = h

  pub raise_if-Ends :
      (P : S → Type 0) (Q : E → S → Type 0) (b : Bool) (e : E) (s : S)
      → (b ≡ false → P s)
      → Q e s
      → Ends (λ _. P) Q (raise_if b e s)
  raise_if-Ends P Q true e s h k = k
  raise_if-Ends P Q false e s h k = h refl

  -- A computation that branches.
  pub Ends-either :
      {A : Type 0} (P : A → S → Type 0) (Q : E → S → Type 0) (b : Bool) (r r' : Outcome E A × S)
      → (b ≡ true → Ends P Q r)
      → (b ≡ false → Ends P Q r')
      → Ends P Q (elim b [ true ↦ r | false ↦ r' ])
  Ends-either P Q true r r' h k = h refl
  Ends-either P Q false r r' h k = k refl

  pub Ends-option :
      {A X : Type 0} (P : A → S → Type 0) (Q : E → S → Type 0) (o : Option X) (r : Outcome E A × S)
      (f : X → Outcome E A × S)
      → (o ≡ none → Ends P Q r)
      → ((x : X) → o ≡ some x → Ends P Q (f x))
      → Ends P Q (elim o [ none ↦ r | some x ↦ f x ])
  Ends-option P Q none r f h k = h refl
  Ends-option P Q (some x) r f h k = k x refl

  pub Ends-imp :
      {A : Type 0} (P R : A → S → Type 0) (Q T : E → S → Type 0) (r : Outcome E A × S)
      → Ends P Q r
      → ((a : A) (s : S) → P a s → R a s)
      → ((e : E) (s : S) → Q e s → T e s)
      → Ends R T r
  Ends-imp P R Q T (done a, s) h f g = f a s h
  Ends-imp P R Q T (raised e, s) h f g = g e s h

  -- A computation that raises nothing.
  pub Ends-weaken :
      {A : Type 0} (P R : A → S → Type 0) (Q : E → S → Type 0) (r : Outcome E A × S)
      → Ends P (λ _ _. ⊥) r
      → ((a : A) (s : S) → P a s → R a s)
      → Ends R Q r
  Ends-weaken P R Q r h f = Ends-imp P R (λ _ _. ⊥) Q r h f (λ _ _ no. absurd no)

  pub Ends-if :
      {A : Type 0} (P : A → S → Type 0) (Q : E → S → Type 0) (b : Bool) (r r' : Outcome E A × S)
      → Ends P Q r
      → Ends P Q r'
      → Ends P Q (if b then r else r')
  Ends-if P Q true r r' h k = h
  Ends-if P Q false r r' h k = k

  -- What holds of the state however the computation ends.
  pub Ends-state :
      {A : Type 0} (P : S → Type 0) (r : Outcome E A × S) → Ends (λ _. P) (λ _. P) r → P r.1
  Ends-state P (done a, s) h = h
  Ends-state P (raised e, s) h = h
