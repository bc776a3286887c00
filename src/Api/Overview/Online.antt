-- ===== src/Api/Overview/Online.antt =====
-- device_handler.go: the count of the devices that are online.
use io_t_fleet_management.Prelude.{
  [], ◌∷◌, refl, inl, inr, ◌≡◌, ◌↔◌, ◌⊎◌, ◌≤◌, ◌<◌, ◌+◌, List, ℕ, length, ltb, arith, ◌==◌,
  Bool-cases, eq_iff, ap, suc,
}
use io_t_fleet_management.Prelude.Int.{ℤ}
use io_t_fleet_management.Go.Float.{Float64}
use io_t_fleet_management.Go.Outcome.{returned}
use io_t_fleet_management.Cloud.{Host, Dynamo}
use io_t_fleet_management.Models.{DeviceState}
use io_t_fleet_management.Telemetry.Periods.{Zone}
use io_t_fleet_management.Telemetry.Charts.{Table}
use io_t_fleet_management.Api.{Clock, DeviceHandler}
use io_t_fleet_management.Api.Overview.{count_online, add_online, system_status}
use io_t_fleet_management.Devices.Store.{connection_status}

module _ {F : Type 0} where
  -- A reading of the clock and the state that it is taken for.
  abbrev pub IsOnline : ℤ × DeviceState F → Type 0
  IsOnline (now_ns, state) = connection_status now_ns state.last_seen_at ≡ "ONLINE"

  abbrev pub Any : List (ℤ × DeviceState F) → Type 0
  Any [] = ⊥
  Any (pair ∷ others) = IsOnline pair ⊎ Any others

  abbrev online : List (ℤ × DeviceState F) → ℕ → ℕ
  online [] count = count
  online ((now_ns, state) ∷ others) count =
      online others (add_online (connection_status now_ns state.last_seen_at) count)

  online_bounds :
      (found : List (ℤ × DeviceState F)) (count : ℕ)
      → (count ≤ online found count) × (online found count ≤ count + length found)
  online_bounds [] count = (omega arith, omega arith)
  online_bounds ((now_ns, state) ∷ others) count =
      let ih = online_bounds others in
      elim (Bool-cases (connection_status now_ns state.last_seen_at == "ONLINE")) [
        | inl e ↦ let h = ih (count + 1) in rw e (omega arith, omega arith)
        | inr e ↦ let h = ih count in rw e (omega arith, omega arith)
      ]

  online_lt :
      (found : List (ℤ × DeviceState F)) (count : ℕ) → Any found → count < online found count
  online_lt [] count h = absurd h
  online_lt ((now_ns, state) ∷ others) count (inl h) =
      let bounds = online_bounds others (count + 1) in
      rw ((eq_iff (connection_status now_ns state.last_seen_at) "ONLINE").1 h) (omega arith)
  online_lt ((now_ns, state) ∷ others) count (inr h) =
      elim (Bool-cases (connection_status now_ns state.last_seen_at == "ONLINE")) [
        | inl e ↦ let k = online_lt others (count + 1) h in rw e (omega arith)
        | inr e ↦ rw e (online_lt others count h)
      ]

  online_none : (found : List (ℤ × DeviceState F)) → Any found ⊎ (online found 0 ≡ 0)
  online_none [] = inr refl
  online_none ((now_ns, state) ∷ others) =
      elim (Bool-cases (connection_status now_ns state.last_seen_at == "ONLINE")) [
        | inl e ↦ inl (inl ((eq_iff (connection_status now_ns state.last_seen_at) "ONLINE").0 e))
        | inr e ↦ elim (online_none others) [ inl h ↦ inl (inr h) | inr h ↦ inr (rw e h) ]
      ]

  pub online-Any : (found : List (ℤ × DeviceState F)) → (0 < online found 0) ↔ Any found
  online-Any found = (go, online_lt found 0)
    where
      go : 0 < online found 0 → Any found
      go h = elim (online_none found) [ inl k ↦ k | inr k ↦ absurd (omega arith) ]

system_status_iff :
    (n : ℕ)
    → ((system_status n ≡ "Connected") ↔ (0 < n)) × ((system_status n ≡ "Offline") ↔ ¬ 0 < n)
system_status_iff n = elim (Bool-cases (ltb 0 n)) [
  | inl e ↦ rw e (((λ h. ground arith), (λ h. refl)), ((λ h. cc), (λ h. absurd (h (ground arith)))))
  | inr e ↦ rw e (((λ h. cc), (λ h. ground arith)), ((λ h k. ground arith), (λ h. refl)))
]

module _ {F W Item Raw : Type 0} ⦃d : Float64 F⦄ (host : Host W) (clock : Clock W)
    (visit : Table F → Table F) (zone : Zone) (db : Dynamo F W Item Raw)
    (handler : DeviceHandler F W) where
  -- Each state with the reading of the clock that is taken for it, one after the other.
  abbrev pub read_at : List (DeviceState F) → W → List (ℤ × DeviceState F)
  read_at [] w = []
  read_at (state ∷ others) w =
      let (now_ns, w') = clock.nanoseconds w in (now_ns, state) ∷ read_at others w'

  -- The world after the clock has been read once for each state.
  abbrev pub after_reading : List (DeviceState F) → W → W
  after_reading [] w = w
  after_reading (state ∷ others) w = after_reading others (clock.nanoseconds w).1

  length-read_at : (found : List (DeviceState F)) (w : W) → length (read_at found w) ≡ length found
  length-read_at [] w = refl
  length-read_at (state ∷ others) w = ap suc (length-read_at others (clock.nanoseconds w).1)

  counted :
      (found : List (DeviceState F)) (count : ℕ) (w : W)
      → count_online host clock visit zone db handler found count w
        ≡ (returned (online (read_at found w) count), after_reading found w)
  unfolding count_online
  counted [] count w = refl
  counted (state ∷ others) count w =
      let (now_ns, w') = clock.nanoseconds w in
      counted others (add_online (connection_status now_ns state.last_seen_at) count) w'

  -- The clock is read once for each state. The overview counts no more devices than there are, and
  -- reports the system as connected exactly when some device is online at the reading of the clock
  -- that is taken for it, and as offline exactly when none is.
  pub count_online_lem :
      (found : List (DeviceState F)) (w : W)
      → (n : ℕ) × (count_online host clock visit zone db handler found 0 w
          ≡ (returned n, after_reading found w))
        × (n ≤ length found)
        × ((system_status n ≡ "Connected") ↔ Any (read_at found w))
        × ((system_status n ≡ "Offline") ↔ ¬ Any (read_at found w))
  count_online_lem found w =
      let readings = read_at found w in
      let n = online readings 0 in
      let any = online-Any readings in
      let bounds = online_bounds readings 0 in
      let same = length-read_at found w in
      let status = system_status_iff n in
      (
        n,
        counted found 0 w,
        omega arith,
        ((λ h. any.0 (status.0.0 h)), (λ h. status.0.1 (any.1 h))),
        ((λ h k. status.1.0 h (any.1 k)), (λ h. status.1.1 (λ k. h (any.0 k)))),
      )
