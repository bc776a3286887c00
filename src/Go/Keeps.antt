-- ===== src/Go/Keeps.antt =====
-- Actions that take a world only to worlds in relation with it, and how such actions compose.
use io_t_fleet_management.Prelude.{none, some, String, true, false, Bool, if◌then◌else◌, Option}
use io_t_fleet_management.Go.Outcome.{
  Action, Result, Outcome, returned, failed, panicked, ok, err, pure, fail, panic, from, annotate,
  restate, attempt, ◌>>=◌, >>=-world, Error, annotate-world, restated,
}
use io_t_fleet_management.Cloud.{reads}

pub record IsPreorder {W : Type 0} (R : W → W → Type 0) : Type 0 where
  pub same : (w : W) → R w w
  pub chain : (u v w : W) → R u v → R v w → R u w

-- However it ends, the action leaves a world in relation with its first one.
pub record Keeps {W : Type 0} (R : W → W → Type 0) {A : Type 0} (m : Action W A) : Type 0 where
  pub at : (w : W) → R w (m w).1

module _ {W : Type 0} (R : W → W → Type 0) (order : IsPreorder R) where
  pub pure-Keeps : {A : Type 0} (a : A) → Keeps R (pure a)
  pure-Keeps a = record { at = order.same }

  pub fail-Keeps : (A : Type 0) (e : Error) → Keeps R {A = A} (fail e)
  fail-Keeps A e = record { at = order.same }

  pub panic-Keeps : (A : Type 0) → Keeps R {A = A} panic
  panic-Keeps A = record { at = order.same }

  pub from-Keeps : {A : Type 0} (r : Result A) → Keeps R (from r)
  from-Keeps r = record { at = order.same }

  pub reads-Keeps : {A : Type 0} (f : W → A × W) → ((w : W) → R w (f w).1) → Keeps R (reads f)
  reads-Keeps f p = record { at = p }

  pub if-Keeps :
      {A : Type 0} (b : Bool) (m n : Action W A)
      → Keeps R m
      → Keeps R n
      → Keeps R (if b then m else n)
  if-Keeps true m n p q = p
  if-Keeps false m n p q = q

  pub >>=-Keeps :
      {A B : Type 0} (m : Action W A) (f : A → Action W B)
      → Keeps R m
      → ((a : A) → Keeps R (f a))
      → Keeps R (m >>= f)
  >>=-Keeps m f p q = record {
    at = λ w.
        >>=-world (R w) m f w (p.at w)
          (λ a. order.chain w (m w).1 (f a (m w).1).1 (p.at w) ((q a).at (m w).1));
  }

  pub annotate-Keeps :
      {A : Type 0} (text : String) (m : Action W A) → Keeps R m → Keeps R (annotate text m)
  annotate-Keeps text m p = record { at = λ w. rw (annotate-world text m w) (p.at w) }

  pub restate-Keeps :
      {A : Type 0} (text : String) (m : Action W A) → Keeps R m → Keeps R (restate text m)
  restate-Keeps {A} text m p = record { at = λ w. go w (m w).0 }
    where
      go :
          (w : W) (r : Outcome A)
          → R w
              (elim r as (λ _. Outcome A × W) [
                | returned b ↦ (returned b, (m w).1)
                | failed e ↦ (failed (restated text e), (m w).1)
                | panicked ↦ (panicked, (m w).1)
              ]).1
      go w (returned a) = p.at w
      go w (failed e) = p.at w
      go w panicked = p.at w

  pub attempt-Keeps : {A : Type 0} (m : Action W A) → Keeps R m → Keeps R (attempt m)
  attempt-Keeps {A} m p = record { at = λ w. go w (m w).0 }
    where
      go :
          (w : W) (r : Outcome A)
          → R w
              (elim r as (λ _. Outcome (Result A) × W) [
                | returned b ↦ (returned (ok b), (m w).1)
                | failed e ↦ (returned (err e), (m w).1)
                | panicked ↦ (panicked, (m w).1)
              ]).1
      go w (returned a) = p.at w
      go w (failed e) = p.at w
      go w panicked = p.at w

  -- A split on a Boolean, an option or a result.
  pub Bool-Keeps :
      {A : Type 0} (b : Bool) (m n : Action W A)
      → Keeps R m
      → Keeps R n
      → Keeps R (elim b as (λ _. Action W A) [ false ↦ m | true ↦ n ])
  Bool-Keeps true m n p q = q
  Bool-Keeps false m n p q = p

  pub Option-Keeps :
      {A B : Type 0} (o : Option B) (m : Action W A) (f : B → Action W A)
      → Keeps R m
      → ((b : B) → Keeps R (f b))
      → Keeps R (elim o as (λ _. Action W A) [ none ↦ m | some b ↦ f b ])
  Option-Keeps none m f p q = p
  Option-Keeps (some b) m f p q = q b

  pub Result-Keeps :
      {A B : Type 0} (r : Result B) (f : B → Action W A) (g : Error → Action W A)
      → ((b : B) → Keeps R (f b))
      → ((e : Error) → Keeps R (g e))
      → Keeps R (elim r as (λ _. Action W A) [ ok b ↦ f b | err e ↦ g e ])
  Result-Keeps (ok b) f g p q = p b
  Result-Keeps (err e) f g p q = q e

-- The rules for `search`.
pub ruleset keeps = (
  pure-Keeps, from-Keeps, if-Keeps, >>=-Keeps, annotate-Keeps, restate-Keeps, attempt-Keeps,
  Bool-Keeps, Option-Keeps, Result-Keeps,
)
