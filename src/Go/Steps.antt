-- ===== src/Go/Steps.antt =====
-- How a chain goes on, when it is known how its first step ends.
use io_t_fleet_management.Prelude.{◌≡◌, ap, String}
use io_t_fleet_management.Go.Outcome.{
  Outcome, returned, failed, panicked, Action, ◌>>=◌, Error, annotate, wrap, Result, ok, err,
  attempt,
}

module _ {W A B : Type 0} where
  abbrev pub continued : (A → Action W B) → Outcome A × W → Outcome B × W
  continued f (r, w) = elim r [
    | returned a ↦ f a w
    | failed e ↦ (failed e, w)
    | panicked ↦ (panicked, w)
  ]

  pub chain-returned :
      (m : Action W A) (f : A → Action W B) (w v : W) (a : A)
      → m w ≡ (returned a, v)
      → (m >>= f) w ≡ f a v
  chain-returned m f w v a h = ap (continued f) h

  pub chain-failed :
      (m : Action W A) (f : A → Action W B) (w v : W) (e : Error)
      → m w ≡ (failed e, v)
      → (m >>= f) w ≡ (failed e, v)
  chain-failed m f w v e h = ap (continued f) h

  pub chain-panicked :
      (m : Action W A) (f : A → Action W B) (w v : W)
      → m w ≡ (panicked, v)
      → (m >>= f) w ≡ (panicked, v)
  chain-panicked m f w v h = ap (continued f) h

module _ {W A : Type 0} where
  abbrev annotated : String → Outcome A × W → Outcome A × W
  annotated text (r, w) = elim r [
    | returned a ↦ (returned a, w)
    | failed e ↦ (failed (wrap text e), w)
    | panicked ↦ (panicked, w)
  ]

  pub annotate-of-returned :
      (text : String) (m : Action W A) (w v : W) (a : A)
      → m w ≡ (returned a, v)
      → annotate text m w ≡ (returned a, v)
  annotate-of-returned text m w v a h = ap (annotated text) h

  pub annotate-of-failed :
      (text : String) (m : Action W A) (w v : W) (e : Error)
      → m w ≡ (failed e, v)
      → annotate text m w ≡ (failed (wrap text e), v)
  annotate-of-failed text m w v e h = ap (annotated text) h

  abbrev inspected : Outcome A × W → Outcome (Result A) × W
  inspected (r, w) = elim r [
    | returned a ↦ (returned (ok a), w)
    | failed e ↦ (returned (err e), w)
    | panicked ↦ (panicked, w)
  ]

  pub attempt-of-returned :
      (m : Action W A) (w v : W) (a : A)
      → m w ≡ (returned a, v)
      → attempt m w ≡ (returned (ok a), v)
  attempt-of-returned m w v a h = ap inspected h

  pub attempt-of-failed :
      (m : Action W A) (w v : W) (e : Error)
      → m w ≡ (failed e, v)
      → attempt m w ≡ (returned (err e), v)
  attempt-of-failed m w v e h = ap inspected h
