-- ===== src/Probe/Days.antt =====
-- When a probe may fire: at most once a UTC day, and only after the cutoff on a day without trades.
use neurodegen.Common.{
  ℕ, suc, ◌≤◌, ◌≡◌, ◌≢◌, ◌↔◌, refl, ap, ◌∙◌, inl, inr, Bool, true, false, some, List, [], ◌∷◌,
  arith, Bool-cases, if◌then◌else◌, All, ==_iff,
}
use neurodegen.Common.Number.{Number}
use neurodegen.Services.{Call, Services}
use neurodegen.Probe.{
  ProbeSettings, ProbeState, utc_day_bucket, utc_hour, by_count, count_or_zero, should_fire_probe,
  fire_probe, fire_if, probe_gate,
}

module _ {W : Type 0} ⦃num : Number W⦄ (s : ProbeSettings W) (services : Services W) where
  -- A probe is due exactly when probes are enabled, none fired on this UTC day, the UTC hour has
  -- reached the cutoff, and the count of the day's trades is 0 or could not be read.
  pub should_fire_probe_iff :
      (state : ProbeState) (now : ℕ) (t : List (Call W))
      → ((should_fire_probe s services state now t).0.should ≡ true) ↔ (
          (s.enable_probe_trade ≡ true)
          × (state.last_probe_day ≢ some (utc_day_bucket now))
          × (s.probe_trade_hour_utc ≤ utc_hour now)
          × (count_or_zero (services.daily_trade_count t) ≡ 0))
  unfolding should_fire_probe by_count
  should_fire_probe_iff state now t = ground arith

  -- One tick of the agent's cycle: the times of the check and of the end of the probe.
  abbrev pub Tick : Type 0
  Tick = ℕ × ℕ

  -- Whether a probe fires in a tick.
  pub fires : ProbeState → Tick → List (Call W) → Bool
  fires state (now, later) t =
      let (decision, t₁) = should_fire_probe s services state now t in
      if decision.should then (fire_probe s services t₁).0.fired else false

  -- The probes fired in a run of ticks.
  pub fired_count : ProbeState → List Tick → List (Call W) → ℕ
  fired_count state [] t = 0
  fired_count state ((now, later) ∷ ticks) t =
      let (state', t') = probe_gate s services state now later t in
      let rest = fired_count state' ticks t' in
      if fires state (now, later) t then suc rest else rest

  -- Both times of each tick lie on the UTC day.
  abbrev pub OnDay : ℕ → List Tick → Type 0
  OnDay day = All (λ tick. (utc_day_bucket tick.0 ≡ day) × (utc_day_bucket tick.1 ≡ day))

  fires-after :
      (state : ProbeState) (day now later : ℕ) (t : List (Call W))
      → state.last_probe_day ≡ some day
      → utc_day_bucket now ≡ day
      → fires state (now, later) t ≡ false
  unfolding fires should_fire_probe
  fires-after state day now later t fired today = ground (arith, ==_iff day (utc_day_bucket now))

  gate-after :
      (state : ProbeState) (day now later : ℕ) (t : List (Call W))
      → state.last_probe_day ≡ some day
      → utc_day_bucket now ≡ day
      → (probe_gate s services state now later t).0 ≡ state
  unfolding probe_gate fire_if should_fire_probe
  gate-after state day now later t fired today = ground (arith, ==_iff day (utc_day_bucket now))

  gate-fired :
      (state : ProbeState) (now later : ℕ) (t : List (Call W))
      → fires state (now, later) t ≡ true
      → (probe_gate s services state now later t).0.last_probe_day ≡ some (utc_day_bucket later)
  unfolding fires probe_gate fire_if
  gate-fired state now later t h = ground arith

  none_after :
      (state : ProbeState) (day : ℕ) (ticks : List Tick) (t : List (Call W))
      → state.last_probe_day ≡ some day
      → OnDay day ticks
      → fired_count state ticks t ≡ 0
  unfolding fired_count
  none_after state day [] t fired on = refl
  none_after state day ((now, later) ∷ ticks) t fired on =
      let out = probe_gate s services state now later t in
      let same = gate-after state day now later t fired on.0.0 in
      rw (fires-after state day now later t fired on.0.0)
        (none_after out.0 day ticks out.1 (ap (λ s. s.last_probe_day) same ∙ fired) on.1)

  -- Whatever the services answer and whatever fired before, the ticks of one UTC day fire at most one
  -- probe that completes.
  pub fired_count-le :
      (state : ProbeState) (day : ℕ) (ticks : List Tick) (t : List (Call W))
      → OnDay day ticks
      → fired_count state ticks t ≤ 1
  unfolding fired_count
  fired_count-le state day [] t on = omega arith
  fired_count-le state day ((now, later) ∷ ticks) t on =
      let out = probe_gate s services state now later t in
      elim (Bool-cases (fires state (now, later) t)) [
        | inr quiet ↦ rw quiet (fired_count-le out.0 day ticks out.1 on.1)
        | inl fired ↦
            let stamped = gate-fired state now later t fired ∙ ap some on.0.1 in
            rw fired (omega (arith, none_after out.0 day ticks out.1 stamped on.1))
      ]
