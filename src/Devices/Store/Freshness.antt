-- ===== src/Devices/Store/Freshness.antt =====
-- store_state.go: `ConnectionStatus`.
use io_t_fleet_management.Prelude.{refl, inl, inr, ◌≡◌, ◌↔◌, ◌*◌, ◌+◌, ◌<◌, ◌≤◌, Bool-cases, arith}
use io_t_fleet_management.Prelude.Int.{pos, -ℤ_parts}
use io_t_fleet_management.Devices.Store.{
  connection_status, ℕ, ◌-ℤ◌, ltb, ltb_ℤ, offline_limit, saturated, nanoseconds,
}

past_limit :
    (now_ns seen : ℕ)
    → ltb_ℤ (pos offline_limit) (saturated (pos now_ns -ℤ nanoseconds (pos seen)))
      ≡ ltb (seen * 1_000_000_000 + 120 * 1_000_000_000) now_ns
past_limit now_ns seen = ground (arith, -ℤ_parts (pos now_ns) (pos (seen * 1_000_000_000)))

-- For times that are not negative, a device last seen at `seen` seconds is offline exactly when the clock, in
-- nanoseconds, is more than two minutes past that, and online otherwise.
pub connection_status_iff :
    (now_ns seen : ℕ)
    → ((connection_status (pos now_ns) (pos seen) ≡ "OFFLINE")
        ↔ (seen * 1_000_000_000 + 120 * 1_000_000_000 < now_ns))
      × ((connection_status (pos now_ns) (pos seen) ≡ "ONLINE")
          ↔ (now_ns ≤ seen * 1_000_000_000 + 120 * 1_000_000_000))
unfolding connection_status
connection_status_iff now_ns seen =
    elim (Bool-cases (ltb (seen * 1_000_000_000 + 120 * 1_000_000_000) now_ns)) [
      | inl e ↦
          rw (past_limit now_ns seen, e)
            (((λ h. ground arith), (λ h. refl)), ((λ h. cc), (λ h. ground arith)))
      | inr e ↦
          rw (past_limit now_ns seen, e)
            (((λ h. cc), (λ h. ground arith)), ((λ h. ground arith), (λ h. refl)))
    ]
