-- ===== src/Telemetry/Sessions/RunTime.antt =====
-- analytics.go: the running time of an air conditioner.
use io_t_fleet_management.Prelude.{
  [], ◌∷◌, refl, inl, inr, true, false, ℕ, List, String, ◌<◌, ◌≡◌, ◌^◌, ◌≤◌, ◌+◌, ◌-◌, Bool-cases,
  arith, ◌⊎◌, ◌==◌, ◌∙◌, Option-cases, ap, none, some,
}
use io_t_fleet_management.Telemetry.Sessions.{
  Running, add_run, run_step, calculate_ac_run_time, run_loop, run_until, reverse, state_of,
}
use io_t_fleet_management.Models.{Telemetry}
use io_t_fleet_management.Prelude.Int.{
  pos, add64, sub64, ◌+ℤ◌, ◌-ℤ◌, +ℤ_parts, -ℤ_parts, add64_exact, sub64_exact, eq_ℤ, ltb_ℤ, ℤ,
}

-- Readings in the order of time, from `lo` on and up to `now`.
pub data IsAscending {F : Type 0} (now : ℕ) : ℕ → List (Telemetry F) → Type 0 where
  done : {lo : ℕ} → lo ≤ now → IsAscending now lo []
  later :
      {lo : ℕ} {t : Telemetry F} {ts : List (Telemetry F)} (n : ℕ)
      → t.timestamp ≡ pos n
      → lo ≤ n
      → IsAscending now n ts
      → IsAscending now lo (t ∷ ts)

abbrev counting : (total since : ℕ) → Running
counting total since = record { total = pos total; since = pos since }

-- What has been counted by the time `at`, in a history from `start` on: with the device off, or on
-- since a time.
abbrev IsCounted : (start at total since : ℕ) → Type 0
IsCounted start at total since =
    ((since ≡ 0) × (start + total ≤ at)) ⊎ ((0 < since) × (since ≤ at) × (start + total ≤ since))

sub64_nat : (a b : ℕ) → b ≤ a → a < 2 ^ 63 → sub64 (pos a) (pos b) ≡ pos (a - b)
sub64_nat a b le small =
    let exact : pos a -ℤ pos b ≡ pos (a - b) = ground (arith, -ℤ_parts (pos a) (pos b)) in
    sub64_exact (pos a) (pos b) (rw exact ((ground arith), (ground arith))) ∙ exact

add64_nat : (a b : ℕ) → a + b < 2 ^ 63 → add64 (pos a) (pos b) ≡ pos (a + b)
add64_nat a b small =
    let exact : pos a +ℤ pos b ≡ pos (a + b) = ground (arith, +ℤ_parts (pos a) (pos b)) in
    add64_exact (pos a) (pos b) (rw exact ((ground arith), (ground arith))) ∙ exact

add_run_lem :
    (at total since : ℕ)
    → since ≤ at
    → at < 2 ^ 63
    → total + (at - since) < 2 ^ 63
    → add_run (pos at) (counting total since) ≡ counting (total + (at - since)) since
add_run_lem at total since le small fits = elim (Bool-cases (ltb_ℤ (pos 0) (pos (at - since)))) [
  | inl e ↦ rw (sub64_nat at since le small, e, add64_nat total (at - since) fits)
  | inr e ↦
      let none_left : total + (at - since) ≡ total = ground arith in
      rw (sub64_nat at since le small, e, none_left)
]

run_step-IsCounted :
    (start lo n total since : ℕ) (state : String)
    → lo ≤ n
    → n < 2 ^ 63
    → 0 < n
    → IsCounted start lo total since
    → (total' : ℕ) × (since' : ℕ) × (run_step (pos n) state (counting total since)
        ≡ counting total' since')
      × IsCounted start n total' since'
run_step-IsCounted start lo n total since state le small some_time (inl (off, bound)) =
    let is_off : eq_ℤ (pos since) (pos 0) ≡ true = ground arith in
    let not_on : ltb_ℤ (pos 0) (pos since) ≡ false = ground arith in
    elim (Bool-cases (state == "ON")) [
      | inl e ↦ (total, n, rw (is_off, e), ground arith)
      | inr e ↦ elim (Bool-cases (state == "OFF")) [
        | inl f ↦ (total, since, rw (not_on, e, f), ground arith)
        | inr f ↦ (total, since, rw (e, f), ground arith)
      ]
    ]
run_step-IsCounted start lo n total since state le small some_time (inr (on, before, bound)) =
    let is_on : eq_ℤ (pos since) (pos 0) ≡ false = ground arith in
    let is_on' : ltb_ℤ (pos 0) (pos since) ≡ true = ground arith in
    let closed = add_run_lem n total since (ground arith) small (ground arith) in
    elim (Bool-cases (state == "ON")) [
      | inl e ↦ elim (Bool-cases (state == "OFF")) [
        | inl f ↦ (total + (n - since), 0, rw (is_on, is_on', e, f, closed), ground arith)
        | inr f ↦ (total, since, rw (is_on, e, f), ground arith)
      ]
      | inr e ↦ elim (Bool-cases (state == "OFF")) [
        | inl f ↦ (total + (n - since), 0, rw (is_on', e, f, closed), ground arith)
        | inr f ↦ (total, since, rw (e, f), ground arith)
      ]
    ]

run_until_lem :
    (start now total since : ℕ)
    → now < 2 ^ 63
    → IsCounted start now total since
    → (seconds : ℕ) × (run_until (pos now) (counting total since) ≡ pos seconds)
      × (start + seconds ≤ now)
run_until_lem start now total since small (inl (off, bound)) =
    let not_on : ltb_ℤ (pos 0) (pos since) ≡ false = ground arith in
    (total, rw not_on refl, ground arith)
run_until_lem start now total since small (inr (on, before, bound)) =
    let is_on : ltb_ℤ (pos 0) (pos since) ≡ true = ground arith in
    let closed = add_run_lem now total since before small (ground arith) in
    (total + (now - since), rw (is_on, closed) refl, ground arith)

IsAscending-le :
    {F : Type 0} {now lo : ℕ} {ts : List (Telemetry F)} → IsAscending now lo ts → lo ≤ now
IsAscending-le (done le) = le
IsAscending-le (later n e le s) = let rest = IsAscending-le s in omega arith

module _ {F : Type 0} where
  run_loop-unknown :
      (t : Telemetry F) (ts : List (Telemetry F)) (r : Running)
      → state_of "power_state" t ≡ none
      → run_loop (t ∷ ts) r ≡ run_loop ts r
  unfolding run_loop
  run_loop-unknown t ts r h = rw (h, run_loop) refl

  run_loop-known :
      (t : Telemetry F) (ts : List (Telemetry F)) (r : Running) (state : String)
      → state_of "power_state" t ≡ some state
      → run_loop (t ∷ ts) r ≡ run_loop ts (run_step t.timestamp state r)
  unfolding run_loop
  run_loop-known t ts r state h = rw (h, run_loop) refl

  run_loop-IsCounted :
      (start lo now total since : ℕ) (ts : List (Telemetry F))
      → 0 < lo
      → now < 2 ^ 63
      → IsAscending now lo ts
      → IsCounted start lo total since
      → (total' : ℕ) × (since' : ℕ) × (run_loop ts (counting total since) ≡ counting total' since')
        × IsCounted start now total' since'
  unfolding run_loop
  run_loop-IsCounted start lo now total since [] some_time small (done le) c =
      (total, since, refl, ground arith)
  run_loop-IsCounted start lo now total since (t ∷ ts) some_time small (later n e le s) c =
      let until : n ≤ now = IsAscending-le s in
      elim (Option-cases (state_of "power_state" t)) [
        | inl none_known ↦
            let (total', since', same, c') =
              run_loop-IsCounted start n now total since ts (ground arith) small s (ground arith) in
            (total', since', run_loop-unknown t ts (counting total since) none_known ∙ same, c')
        | inr (state, known) ↦
            let (total1, since1, step, c1) =
              run_step-IsCounted start lo n total since state le (ground arith) (ground arith) c in
            let (total', since', same, c') =
              run_loop-IsCounted start n now total1 since1 ts (ground arith) small s c1 in
            (
              total',
              since',
              run_loop-known t ts (counting total since) state known
                  ∙ ap (run_loop ts) (ap (λ n. run_step n state (counting total since)) e ∙ step)
                  ∙ same,
              c',
            )
      ]

  -- The running time of a history whose readings ascend in time from `start` to `now`, read from its
  -- end, both positive Unix times of an `int64`, is a number of seconds, at most `now` less `start`.
  pub calculate_ac_run_time-bounds :
      (history : List (Telemetry F)) (start now : ℕ)
      → 0 < start
      → now < 2 ^ 63
      → IsAscending now start (reverse history)
      → (seconds : ℕ) × (calculate_ac_run_time history (pos now) ≡ pos seconds)
        × (start + seconds ≤ now)
  unfolding calculate_ac_run_time
  calculate_ac_run_time-bounds [] start now some_time small s =
      (0, refl, let until : start ≤ now = IsAscending-le s in omega arith)
  calculate_ac_run_time-bounds (t ∷ ts) start now some_time small s =
      let until : start ≤ now = IsAscending-le s in
      let (total, since, same, c) =
        run_loop-IsCounted start start now 0 0 (reverse (t ∷ ts)) some_time small s
          (inl (refl, ground arith)) in
      let (seconds, closed, bound) = run_until_lem start now total since small c in
      (seconds, rw same closed, bound)

-- Readings that switch the device on and off in turn, with the seconds it was on.
pub data IsRuns {F : Type 0} : List (Telemetry F) → ℕ → Type 0 where
  rest : IsRuns [] 0
  run :
      {t u : Telemetry F} {ts : List (Telemetry F)} {n : ℕ} (a b : ℕ)
      → state_of "power_state" t ≡ some "ON"
      → t.timestamp ≡ pos a
      → state_of "power_state" u ≡ some "OFF"
      → u.timestamp ≡ pos b
      → 0 < a
      → a ≤ b
      → b < 2 ^ 63
      → IsRuns ts n
      → IsRuns (t ∷ u ∷ ts) (b - a + n)

no_runs : {F : Type 0} {n : ℕ} → IsRuns {F = F} [] n → 0 ≡ n
no_runs rest = refl

one_run :
    (total a b : ℕ)
    → 0 < a
    → a ≤ b
    → b < 2 ^ 63
    → total + (b - a) < 2 ^ 63
    → run_step (pos b) "OFF" (run_step (pos a) "ON" (counting total 0))
      ≡ counting (total + (b - a)) 0
one_run total a b some_time le small fits =
    let is_on : ltb_ℤ (pos 0) (pos a) ≡ true = ground arith in
    rw (is_on, add_run_lem b total a le small fits) refl

module _ {F : Type 0} where
  run_loop-IsRuns :
      (ts : List (Telemetry F)) (n total : ℕ)
      → IsRuns ts n
      → total + n < 2 ^ 63
      → run_loop ts (counting total 0) ≡ counting (total + n) 0
  unfolding run_loop
  run_loop-IsRuns _ _ total rest fits = ap (λ k. counting k 0) (omega arith)
  run_loop-IsRuns _ _ total
        (run {t = t} {u = u} {ts = ts} {n = n} a b on at_a off at_b some_time le small s) fits =
      let first = run_loop-known t (u ∷ ts) (counting total 0) "ON" on in
      let second = run_loop-known u ts (run_step t.timestamp "ON" (counting total 0)) "OFF" off in
      let step : run_step u.timestamp "OFF" (run_step t.timestamp "ON" (counting total 0))
          ≡ counting (total + (b - a)) 0 =
        rw (at_a, at_b) (one_run total a b some_time le small (omega arith)) in
      first
      ∙ second
      ∙ ap (run_loop ts) step
      ∙ run_loop-IsRuns ts n (total + (b - a)) s (omega arith)
      ∙ ap (λ k. counting k 0) (omega arith)

  -- If the history, from its end, switches the device on and off in turn, with each pair in the order
  -- of time and the whole within an `int64`, the running time is the sum of what the pairs took.
  pub calculate_ac_run_time-IsRuns :
      (history : List (Telemetry F)) (n : ℕ) (now : ℤ)
      → IsRuns (reverse history) n
      → n < 2 ^ 63
      → calculate_ac_run_time history now ≡ pos n
  unfolding calculate_ac_run_time
  calculate_ac_run_time-IsRuns [] n now s fits = ap pos (no_runs s)
  calculate_ac_run_time-IsRuns (t ∷ ts) n now s fits =
      ap (run_until now) (run_loop-IsRuns (reverse (t ∷ ts)) n 0 s (omega arith))
      ∙ ap pos (omega arith)
