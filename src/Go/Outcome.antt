-- ===== src/Go/Outcome.antt =====
-- Errors as values, and panics. A function that changes the world outside is a state transformer;
-- what was done before an error or a panic stays done.
use io_t_fleet_management.Prelude.{◌≡◌, refl, Bool, true, false, String, ◌∙◌, ◌⊎◌, inl, inr}

-- The sentinel errors of `validation`.
pub data Sentinel : Type 0 where
  invalid_event invalid_topic invalid_envelope invalid_payload : Sentinel

-- `errors.New`, a sentinel, an error of a library, and `fmt.Errorf` with `%w` or `%v` on a cause.
pub data Error : Type 0 where
  plain : String → Error
  sentinel : Sentinel → Error
  external : String → Error
  wrap : String → Error → Error
  restated : String → Error → Error

abbrev pub same_sentinel : Sentinel → Sentinel → Bool
same_sentinel invalid_event invalid_event = true
same_sentinel invalid_topic invalid_topic = true
same_sentinel invalid_envelope invalid_envelope = true
same_sentinel invalid_payload invalid_payload = true
same_sentinel _ _ = false

-- `errors.Is(err, target)`.
unfoldable pub is : Error → Sentinel → Bool
is (plain _) target = false
is (sentinel s) target = same_sentinel s target
is (external _) target = false
is (wrap _ cause) target = is cause target
is (restated _ _) target = false

-- `(T, error)`, where the value counts only if the error is nil.
pub data Result {ℓ} (A : Type ℓ) : Type ℓ where
  ok : A → Result A
  err : Error → Result A

-- How a call ends.
pub data Outcome {ℓ} (A : Type ℓ) : Type ℓ where
  returned : A → Outcome A
  failed : Error → Outcome A
  panicked : Outcome A

abbrev pub lift {ℓ} : {A : Type ℓ} → Result A → Outcome A
lift (ok a) = returned a
lift (err e) = failed e

abbrev pub Action : Type 0 → Type 0 → Type 0
Action W A = W → Outcome A × W

module _ {W : Type 0} where
  abbrev pub pure : {A : Type 0} → A → Action W A
  pure a w = (returned a, w)

  abbrev pub fail : {A : Type 0} → Error → Action W A
  fail e w = (failed e, w)

  abbrev pub panic : {A : Type 0} → Action W A
  panic w = (panicked, w)

  abbrev pub from : {A : Type 0} → Result A → Action W A
  from r w = (lift r, w)

  -- `if err != nil { return fmt.Errorf("…: %w", err) }`
  abbrev pub annotate : {A : Type 0} → String → Action W A → Action W A
  annotate text m w =
      let (r, w') = m w in
      elim r [
        | returned a ↦ (returned a, w')
        | failed e ↦ (failed (wrap text e), w')
        | panicked ↦ (panicked, w')
      ]

  -- The same with `%v`.
  abbrev pub restate : {A : Type 0} → String → Action W A → Action W A
  restate text m w =
      let (r, w') = m w in
      elim r [
        | returned a ↦ (returned a, w')
        | failed e ↦ (failed (restated text e), w')
        | panicked ↦ (panicked, w')
      ]

  -- `x, err := m()`: the error is inspected by the caller.
  abbrev pub attempt : {A : Type 0} → Action W A → Action W (Result A)
  attempt m w =
      let (r, w') = m w in
      elim r [
        | returned a ↦ (returned (ok a), w')
        | failed e ↦ (returned (err e), w')
        | panicked ↦ (panicked, w')
      ]

infixl 5 ◌>>=◌ ◌>>◌
abbrev pub ◌>>=◌ : {W A B : Type 0} → Action W A → (A → Action W B) → Action W B
◌>>=◌ m f w =
    let (r, w') = m w in
    elim r [ returned a ↦ f a w' | failed e ↦ (failed e, w') | panicked ↦ (panicked, w') ]

abbrev pub ◌>>◌ : {W A B : Type 0} → Action W A → Action W B → Action W B
m >> k = m >>= λ _. k

-- The chain of pure calls that return an error.
abbrev pub bind {ℓ κ} : {A : Type ℓ} {B : Type κ} → Result A → (A → Result B) → Result B
bind (ok a) f = f a
bind (err e) f = err e

-- `fmt.Errorf("…: %w", err)` on the error of a pure call.
abbrev pub wrapping {ℓ} : {A : Type ℓ} → String → Result A → Result A
wrapping text (ok a) = ok a
wrapping text (err e) = err (wrap text e)

pub Result-cases {ℓ} :
    {A : Type ℓ} (r : Result A) → ((a : A) × (r ≡ ok a)) ⊎ ((e : Error) × (r ≡ err e))
Result-cases (ok a) = inl (a, refl)
Result-cases (err e) = inr (e, refl)

pub wrapping-ok {ℓ} :
    {A : Type ℓ} (text : String) (r : Result A) {a : A} → wrapping text r ≡ ok a → r ≡ ok a
wrapping-ok text (ok a) h = h
wrapping-ok text (err e) h = cc

pub ok-injective {ℓ} : {A : Type ℓ} {a b : A} → ok a ≡ ok b → a ≡ b
ok-injective h = cc

pub bind-eq-ok {ℓ κ} :
    {A : Type ℓ} {B : Type κ} (m : Result A) (f : A → Result B) {b : B}
    → bind m f ≡ ok b
    → (a : A) × (m ≡ ok a) × (f a ≡ ok b)
bind-eq-ok (ok a) f h = (a, refl, h)
bind-eq-ok (err e) f h = cc

pub failed≢returned :
    {W A : Type 0} {e : Error} {a : A} {v w : W}
    → ◌≡◌ {A = Outcome A × W} (failed e, v) (returned a, w)
    → ⊥
failed≢returned h = cc

pub panicked≢returned :
    {W A : Type 0} {a : A} {v w : W} → ◌≡◌ {A = Outcome A × W} (panicked, v) (returned a, w) → ⊥
panicked≢returned h = cc

-- What a successful chain has done: each step returned, in a world that the next one took over.
pub >>=-returned :
    {W A B : Type 0} (m : Action W A) (f : A → Action W B) (w w' : W) (b : B)
    → (m >>= f) w ≡ (returned b, w')
    → (a : A) × (v : W) × (m w ≡ (returned a, v)) × (f a v ≡ (returned b, w'))
>>=-returned {W} {A} {B} m f w w' b h = go (m w) refl h
  where
    go :
        (r : Outcome A × W)
        → m w ≡ r
        → elim r.0 as (λ _. Outcome B × W) [
          | returned a ↦ f a r.1
          | failed e ↦ (failed e, r.1)
          | panicked ↦ (panicked, r.1)
        ]
          ≡ (returned b, w')
        → (a : A) × (v : W) × (m w ≡ (returned a, v)) × (f a v ≡ (returned b, w'))
    go (returned a, v) e k = (a, v, e, k)
    go (failed x, v) e k = absurd (failed≢returned k)
    go (panicked, v) e k = absurd (panicked≢returned k)

pub annotate-returned :
    {W A : Type 0} (text : String) (m : Action W A) (w w' : W) (a : A)
    → annotate text m w ≡ (returned a, w')
    → m w ≡ (returned a, w')
annotate-returned {W} {A} text m w w' a h = go (m w) refl h
  where
    go :
        (r : Outcome A × W)
        → m w ≡ r
        → elim r.0 as (λ _. Outcome A × W) [
          | returned b ↦ (returned b, r.1)
          | failed e ↦ (failed (wrap text e), r.1)
          | panicked ↦ (panicked, r.1)
        ]
          ≡ (returned a, w')
        → m w ≡ (returned a, w')
    go (returned b, v) e k = e ∙ k
    go (failed x, v) e k = absurd (failed≢returned k)
    go (panicked, v) e k = absurd (panicked≢returned k)

-- The world that a chain leaves is that of its first step, or that of its second after it.
pub >>=-world :
    {W A B : Type 0} (P : W → Type 0) (m : Action W A) (f : A → Action W B) (w : W)
    → P (m w).1
    → ((a : A) → P (f a (m w).1).1)
    → P ((m >>= f) w).1
>>=-world {W} {A} {B} P m f w p q = go (m w).0
  where
    go :
        (r : Outcome A)
        → P
            (elim r as (λ _. Outcome B × W) [
              | returned a ↦ f a (m w).1
              | failed e ↦ (failed e, (m w).1)
              | panicked ↦ (panicked, (m w).1)
            ]).1
    go (returned a) = q a
    go (failed e) = p
    go panicked = p

pub annotate-world :
    {W A : Type 0} (text : String) (m : Action W A) (w : W) → (annotate text m w).1 ≡ (m w).1
annotate-world {W} {A} text m w = go (m w).0
  where
    go :
        (r : Outcome A)
        → (elim r as (λ _. Outcome A × W) [
          | returned b ↦ (returned b, (m w).1)
          | failed e ↦ (failed (wrap text e), (m w).1)
          | panicked ↦ (panicked, (m w).1)
        ]).1
          ≡ (m w).1
    go (returned a) = refl
    go (failed e) = refl
    go panicked = refl

pub from-returned :
    {W A : Type 0} (r : Result A) (w w' : W) (a : A)
    → from r w ≡ (returned a, w')
    → (r ≡ ok a) × (w ≡ w')
from-returned (ok b) w w' a h = (cc, cc)
from-returned (err e) w w' a h = absurd (failed≢returned h)
