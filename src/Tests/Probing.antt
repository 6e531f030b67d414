-- ===== src/Tests/Probing.antt =====
-- Runs of the probe scheduler and of the position tracker.
use neurodegen.Common.{ℕ, ◌≤◌, refl, none, List, [], ◌∷◌}
use neurodegen.Common.Fixed.{fixed_number}
use neurodegen.Probe.{ProbeState, fire_probe, utc_day_bucket}
use neurodegen.Probe.Days.{fired_count, fired_count-le}
use neurodegen.Probe.Legs.{Probed, fire_probe-Probed}
use neurodegen.Common.Calls.{ok}
use neurodegen.Common.Fixed.{Fixed}
use neurodegen.Services.{Services}
use neurodegen.Perception.HotState.{PerceptionEvent}
use neurodegen.Tracker.{Payload, quote}
use neurodegen.Tests.Fixtures.{held, usd, probe_settings, services}

abbrev never : ProbeState
never = record { last_probe_day = none }

-- 21:00 and 22:00 of the first day, and the ends of the two probes.
abbrev ticks : List (ℕ × ℕ)
ticks = (75600000, 75601000) ∷ (79200000, 79201000) ∷ []

fired_count-le_example : fired_count probe_settings services never ticks [] ≤ 1
unfolding utc_day_bucket
fired_count-le_example =
    fired_count-le probe_settings services never 0 ticks [] ((refl, refl), ((refl, refl), tt))

fire_probe-Probed_example :
    Probed probe_settings services
      (fire_probe probe_settings services []).0
      []
      (fire_probe probe_settings services []).1
fire_probe-Probed_example = fire_probe-Probed probe_settings services []

-- The wallet holds nothing, so the managed position is closed at the last quote.
abbrev after_exit : Services Fixed
after_exit = record services { open_positions = λ t. ok (held ∷ []) }

abbrev quotes : List (PerceptionEvent (Payload Fixed))
quotes =
    record { event_id = "q"; source = "cmc_hub"; timestamp = 4; payload = quote "CAKE" (usd 3) }
    ∷ []
