-- ===== src/Loop.antt =====
-- start, stop and the two timers of `AgentLoop` of src/lib/services/agentLoop.ts, as what may happen in
-- any order: a call, the end of a wait, a tick. What a cycle does between its start and its end is
-- `Cycle.run_cycle`; an evaluation of the regime waits for nothing, so it is one step, and its own
-- guard never applies.
pub mod Overlap
pub mod Transitions
pub mod Screening
use neurodegen.Common.{
  ℕ, zero, suc, ◌+◌, ◌-◌, String, Bool, true, false, not, ◌&&◌, ◌||◌, Option, none, some, List, [],
  ◌∷◌, if◌then◌else◌,
}
use neurodegen.Common.Number.{Number}
use neurodegen.Cognition.{RegimeLabel, quiet, active, momentum, volatile}
use neurodegen.Perception.Regime.{
  RegimeMetrics, RegimeState, empty_regime_state, classify_regime, evaluate_regime,
}

pub data LoopEvent (W : Type 0) : Type 0 where
  call_start probe_state_loaded call_stop cycle_tick cycle_over : LoopEvent W
  regime_tick : RegimeMetrics W → ℕ → LoopEvent W

-- `regime_change` with its attestation.
pub record RegimeChange : Type 0 where
  pub from_regime : RegimeLabel
  pub to_regime : RegimeLabel

-- `starting` counts the calls of `start` that wait for the probe's state, `timers` the pairs of
-- intervals that run; `has_timers` says whether the loop holds a pair. `cycles` counts the bodies of
-- `runCycle` that run, `begun` those that were begun.
pub record Loop : Type 0 where
  pub running : Bool
  pub starting : ℕ
  pub timers : ℕ
  pub has_timers : Bool
  pub cycle_in_flight : Bool
  pub cycles : ℕ
  pub begun : ℕ
  pub regime_state : RegimeState
  pub changes : List RegimeChange

abbrev pub new_loop : Loop
new_loop = record {
  running = false;
  starting = 0;
  timers = 0;
  has_timers = false;
  cycle_in_flight = false;
  cycles = 0;
  begun = 0;
  regime_state = empty_regime_state;
  changes = [];
}

abbrev pub same_regime : RegimeLabel → RegimeLabel → Bool
same_regime quiet quiet = true
same_regime active active = true
same_regime momentum momentum = true
same_regime volatile volatile = true
same_regime _ _ = false

-- `if (prev && prev !== classification.regime)`
abbrev pub change_from : Option RegimeLabel → RegimeLabel → List RegimeChange → List RegimeChange
change_from none to told = told
change_from (some prev) to told =
    if same_regime prev to then told else record { from_regime = prev; to_regime = to } ∷ told

unfoldable pub start : Loop → Loop
start l = if l.running then l else record l { running = true; starting = l.starting + 1 }

-- What `start` does after the wait; the earlier handles are overwritten.
unfoldable pub go_on : Loop → Loop
go_on l = record l { starting = l.starting - 1; timers = l.timers + 1; has_timers = true }

unfoldable pub stop : Loop → Loop
stop l =
    if l.has_timers
    then record l { running = false; has_timers = false; timers = l.timers - 1 }
    else record l { running = false }

-- The guards of `runCycle`, where a timer runs.
unfoldable pub begin_cycle : Loop → Loop
begin_cycle l =
    if l.running && not l.cycle_in_flight
    then record l { cycle_in_flight = true; cycles = l.cycles + 1; begun = l.begun + 1 }
    else l

-- The `finally` of `runCycle`.
unfoldable pub end_cycle : Loop → Loop
end_cycle l = record l { cycle_in_flight = false; cycles = l.cycles - 1 }

abbrev pub is_positive : ℕ → Bool
is_positive zero = false
is_positive (suc _) = true

module _ {W : Type 0} ⦃num : Number W⦄ where
  unfoldable pub evaluate : RegimeMetrics W → ℕ → Loop → Loop
  evaluate m now l =
      let c = (classify_regime m l.regime_state now).0 in
      if not l.running then l else record l {
        regime_state = evaluate_regime l.regime_state m now;
        changes = change_from l.regime_state.last_regime c.regime l.changes;
      }

  -- What cannot happen in a state leaves it as it is: an end without a wait, a tick without a timer.
  unfoldable pub on_event : LoopEvent W → Loop → Loop
  on_event call_start l = start l
  on_event probe_state_loaded l = if is_positive l.starting then go_on l else l
  on_event call_stop l = stop l
  on_event cycle_tick l = if is_positive l.timers then begin_cycle l else l
  on_event cycle_over l = if is_positive l.cycles then end_cycle l else l
  on_event (regime_tick m now) l = if is_positive l.timers then evaluate m now l else l

  unfoldable pub run_loop : List (LoopEvent W) → Loop → Loop
  run_loop [] l = l
  run_loop (e ∷ es) l = run_loop es (on_event e l)
