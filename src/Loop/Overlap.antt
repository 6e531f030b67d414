-- ===== src/Loop/Overlap.antt =====
-- How many cycles run at a time.
use neurodegen.Common.{
  ◌≤◌, ◌≡◌, refl, Bool, true, false, List, [], ◌∷◌, arith, All, if◌then◌else◌, ◌∙◌,
}
use neurodegen.Common.Number.{Number}
use neurodegen.Loop.{
  LoopEvent, call_start, probe_state_loaded, call_stop, cycle_tick, cycle_over, regime_tick, Loop,
  new_loop, start, go_on, stop, begin_cycle, end_cycle, evaluate, on_event, run_loop,
}

-- The flag says how many cycles run: one or none.
Guarded : Loop → Type 0
Guarded l = l.cycles ≡ (if l.cycle_in_flight then 1 else 0)

abbrev pub is_start : {W : Type 0} → LoopEvent W → Bool
is_start call_start = true
is_start _ = false

Guarded-le : (l : Loop) → Guarded l → l.cycles ≤ 1
unfolding Guarded
Guarded-le l h = ground (arith, h)

stop-keeps :
    (l : Loop)
    → ((stop l).running ≡ false) × ((stop l).begun ≡ l.begun) × ((stop l).changes ≡ l.changes)
unfolding stop
stop-keeps l = ground arith

module _ {W : Type 0} ⦃num : Number W⦄ where
  on_event-Guarded : (e : LoopEvent W) (l : Loop) → Guarded l → Guarded (on_event e l)
  unfolding Guarded on_event start go_on stop begin_cycle end_cycle evaluate
  on_event-Guarded call_start l h = ground (arith, h)
  on_event-Guarded probe_state_loaded l h = ground (arith, h)
  on_event-Guarded call_stop l h = ground (arith, h)
  on_event-Guarded cycle_tick l h = ground (arith, h)
  on_event-Guarded cycle_over l h = ground (arith, h)
  on_event-Guarded (regime_tick m now) l h = ground (arith, h)

  run_loop-Guarded : (es : List (LoopEvent W)) (l : Loop) → Guarded l → Guarded (run_loop es l)
  unfolding run_loop
  run_loop-Guarded [] l h = h
  run_loop-Guarded (e ∷ es) l h = run_loop-Guarded es (on_event e l) (on_event-Guarded e l h)

  on_event-stopped :
      (e : LoopEvent W) (l : Loop)
      → l.running ≡ false
      → is_start e ≡ false
      → ((on_event e l).running ≡ false)
        × ((on_event e l).begun ≡ l.begun)
        × ((on_event e l).changes ≡ l.changes)
  unfolding on_event start go_on stop begin_cycle end_cycle evaluate
  on_event-stopped call_start l h k = ground (arith, h, k)
  on_event-stopped probe_state_loaded l h k = ground (arith, h)
  on_event-stopped call_stop l h k = ground (arith, h)
  on_event-stopped cycle_tick l h k = ground (arith, h)
  on_event-stopped cycle_over l h k = ground (arith, h)
  on_event-stopped (regime_tick m now) l h k = ground (arith, h)

  run_loop-stopped :
      (es : List (LoopEvent W)) (l : Loop)
      → l.running ≡ false
      → All (λ e. is_start e ≡ false) es
      → ((run_loop es l).begun ≡ l.begun) × ((run_loop es l).changes ≡ l.changes)
  unfolding run_loop
  run_loop-stopped [] l h ks = (refl, refl)
  run_loop-stopped (e ∷ es) l h ks =
      let (off, same, told) = on_event-stopped e l h ks.0 in
      let (later, told_later) = run_loop-stopped es (on_event e l) off ks.1 in
      (later ∙ same, told_later ∙ told)

  -- In whatever order calls, ends of waits and ticks come, with intervals of an earlier start among
  -- them: at most one cycle runs at a time. After a stop no cycle begins and no change of the regime is
  -- told until the next start.
  pub run_loop-one_cycle :
      (es later : List (LoopEvent W))
      → All (λ e. is_start e ≡ false) later
      → let l = run_loop es new_loop in
        (l.cycles ≤ 1)
        × ((run_loop later (stop l)).begun ≡ l.begun)
        × ((run_loop later (stop l)).changes ≡ l.changes)
  unfolding Guarded
  run_loop-one_cycle es later h =
      let l = run_loop es new_loop in
      let (off, begun, told) = stop-keeps l in
      let (begun_later, told_later) = run_loop-stopped later (stop l) off h in
      (Guarded-le l (run_loop-Guarded es new_loop refl), begun_later ∙ begun, told_later ∙ told)
