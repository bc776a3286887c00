-- ===== src/Go/Ends.antt =====
-- Actions that end in a known way whatever the world is: calm ones return or fail, and those that
-- end with a predicate return a value that has it.
use io_t_fleet_management.Prelude.{none, some, Option, true, false, Bool, if◌then◌else◌, String}
use io_t_fleet_management.Go.Outcome.{
  Action, Result, Outcome, returned, failed, panicked, ok, err, pure, from, annotate, attempt,
  ◌>>=◌, Error, wrap, lift,
}
use io_t_fleet_management.Cloud.{reads}

pub data Settled {A : Type 0} : Outcome A → Type 0 where
  by_value : (a : A) → Settled (returned a)
  by_error : (e : Error) → Settled {A = A} (failed e)

pub data Returns {A : Type 0} (P : A → Type 0) : Outcome A → Type 0 where
  returns : {a : A} → P a → Returns P (returned a)

pub record Calm {W A : Type 0} (m : Action W A) : Type 0 where
  pub at : (w : W) → Settled (m w).0

pub record Ends {W A : Type 0} (P : A → Type 0) (m : Action W A) : Type 0 where
  pub at : (w : W) → Returns P (m w).0

-- Nothing is asked of the value.
abbrev pub Any : {A : Type 0} → A → Type 0
Any a = Unit {0}

module _ {W : Type 0} where
  pub pure-Ends : {A : Type 0} {P : A → Type 0} (a : A) → P a → Ends {W = W} P (pure a)
  pure-Ends a p = record { at = λ w. returns p }

  pub reads-Ends : {A : Type 0} (f : W → A × W) → Ends Any (reads f)
  reads-Ends f = record { at = λ w. returns tt }

  pub >>=-Ends :
      {A B : Type 0} {Q : A → Type 0} {P : B → Type 0} (m : Action W A) (f : A → Action W B)
      → Ends Q m
      → ((a : A) → Q a → Ends P (f a))
      → Ends P (m >>= f)
  >>=-Ends {A} {B} {Q} {P} m f p q = record { at = λ w. go w (m w).0 (p.at w) }
    where
      go :
          (w : W) (r : Outcome A)
          → Returns Q r
          → Returns P
              (elim r as (λ _. Outcome B × W) [
                | returned a ↦ f a (m w).1
                | failed e ↦ (failed e, (m w).1)
                | panicked ↦ (panicked, (m w).1)
              ]).0
      go w (returned a) (returns h) = (q a h).at (m w).1
      go w (failed e) h = elim h [ ]
      go w panicked h = elim h [ ]

  pub attempt-Ends : {A : Type 0} (m : Action W A) → Calm m → Ends Any (attempt m)
  attempt-Ends {A} m p = record { at = λ w. go w (m w).0 (p.at w) }
    where
      go :
          (w : W) (r : Outcome A)
          → Settled r
          → Returns Any
              (elim r as (λ _. Outcome (Result A) × W) [
                | returned b ↦ (returned (ok b), (m w).1)
                | failed e ↦ (returned (err e), (m w).1)
                | panicked ↦ (panicked, (m w).1)
              ]).0
      go w (returned a) (by_value _) = returns tt
      go w (failed e) (by_error _) = returns tt
      go w panicked h = elim h [ ]

  pub if-Ends :
      {A : Type 0} {P : A → Type 0} (b : Bool) (m n : Action W A)
      → Ends P m
      → Ends P n
      → Ends P (if b then m else n)
  if-Ends true m n p q = p
  if-Ends false m n p q = q

  pub pure-Calm : {A : Type 0} (a : A) → Calm {W = W} (pure a)
  pure-Calm a = record { at = λ w. by_value a }

  pub reads-Calm : {A : Type 0} (f : W → A × W) → Calm (reads f)
  reads-Calm f = record { at = λ w. by_value (f w).0 }

  pub from-Calm : {A : Type 0} (r : Result A) → Calm {W = W} (from r)
  from-Calm {A} r = record { at = λ w. go r }
    where
      go : (s : Result A) → Settled (lift s)
      go (ok a) = by_value a
      go (err e) = by_error e

  pub if-Calm :
      {A : Type 0} (b : Bool) (m n : Action W A) → Calm m → Calm n → Calm (if b then m else n)
  if-Calm true m n p q = p
  if-Calm false m n p q = q

  pub Option-Calm :
      {A B : Type 0} (o : Option B) (m : Action W A) (f : B → Action W A)
      → Calm m
      → ((b : B) → Calm (f b))
      → Calm (elim o as (λ _. Action W A) [ none ↦ m | some b ↦ f b ])
  Option-Calm none m f p q = p
  Option-Calm (some b) m f p q = q b

  pub >>=-Calm :
      {A B : Type 0} (m : Action W A) (f : A → Action W B)
      → Calm m
      → ((a : A) → Calm (f a))
      → Calm (m >>= f)
  >>=-Calm {A} {B} m f p q = record { at = λ w. go w (m w).0 (p.at w) }
    where
      go :
          (w : W) (r : Outcome A)
          → Settled r
          → Settled
              (elim r as (λ _. Outcome B × W) [
                | returned a ↦ f a (m w).1
                | failed e ↦ (failed e, (m w).1)
                | panicked ↦ (panicked, (m w).1)
              ]).0
      go w (returned a) (by_value _) = (q a).at (m w).1
      go w (failed e) (by_error _) = by_error e
      go w panicked h = elim h [ ]

  pub annotate-Calm :
      {A : Type 0} (text : String) (m : Action W A) → Calm m → Calm (annotate text m)
  annotate-Calm {A} text m p = record { at = λ w. go w (m w).0 (p.at w) }
    where
      go :
          (w : W) (r : Outcome A)
          → Settled r
          → Settled
              (elim r as (λ _. Outcome A × W) [
                | returned b ↦ (returned b, (m w).1)
                | failed e ↦ (failed (wrap text e), (m w).1)
                | panicked ↦ (panicked, (m w).1)
              ]).0
      go w (returned a) (by_value _) = by_value a
      go w (failed e) (by_error _) = by_error (wrap text e)
      go w panicked h = elim h [ ]

-- The rules for `search`.
pub ruleset calm = (pure-Calm, reads-Calm, from-Calm, >>=-Calm, annotate-Calm, if-Calm, Option-Calm)
