-- ===== src/Loop/Transitions.antt =====
-- The changes of the regime that are told and attested.
use mathlib.Core.Path.{subst}
use neurodegen.Common.{
  ℕ, ◌≡◌, ◌≢◌, refl, sym, ◌∙◌, Bool, true, false, Option, none, some, List, [], ◌∷◌, arith,
  Bool-cases, inl, inr, not, ◌&&◌, if◌then◌else◌,
}
use neurodegen.Common.Number.{Number}
use neurodegen.Cognition.{RegimeLabel, quiet, active, momentum, volatile}
use neurodegen.Perception.Regime.{
  RegimeMetrics, RegimeState, classify_regime, advance_regime_state, evaluate_regime,
}
use neurodegen.Loop.{
  LoopEvent, call_start, probe_state_loaded, call_stop, cycle_tick, cycle_over, regime_tick,
  RegimeChange, Loop, new_loop, same_regime, change_from, start, go_on, stop, begin_cycle,
  end_cycle, is_positive, evaluate, on_event, run_loop,
}

-- The newest change leads to the current regime, each other one to where the next began, and none leads
-- from a regime to itself.
abbrev pub Linked : Option RegimeLabel → List RegimeChange → Type 0
Linked current [] = Unit
Linked none (c ∷ cs) = true ≡ false
Linked (some r) (c ∷ cs) =
    (c.to_regime ≡ r)
    × (same_regime c.from_regime c.to_regime ≡ false)
    × Linked (some c.from_regime) cs

-- What is told where the regime goes from one to another: nothing for the first one and for the same
-- one, and otherwise the change.
pub data Told
    : Option RegimeLabel → Option RegimeLabel → List RegimeChange → List RegimeChange → Type 0 where
  first : (r : Option RegimeLabel) (told : List RegimeChange) → Told none r told told
  same : (r : RegimeLabel) (told : List RegimeChange) → Told (some r) (some r) told told
  moved :
      (r s : RegimeLabel) (told : List RegimeChange)
      → r ≢ s
      → Told (some r) (some s) told (record { from_regime = r; to_regime = s } ∷ told)

same_regime-eq : (r s : RegimeLabel) → same_regime r s ≡ true → r ≡ s
same_regime-eq quiet quiet h = refl
same_regime-eq active active h = refl
same_regime-eq momentum momentum h = refl
same_regime-eq volatile volatile h = refl
same_regime-eq _ _ h = ground (arith, h)

same_regime_refl : (r : RegimeLabel) → same_regime r r ≡ true
same_regime_refl r = ground arith

change_from-Told :
    (prev : Option RegimeLabel) (to : RegimeLabel) (told : List RegimeChange)
    → Told prev (some to) told (change_from prev to told)
change_from-Told none to told = first (some to) told
change_from-Told (some prev) to told = elim (Bool-cases (same_regime prev to)) [
  | inl e ↦
      rw e (
        subst (λ r. Told (some prev) (some r) told told) (same_regime-eq prev to e)
          (same prev told))
  | inr e ↦ rw e (moved prev to told (λ h. cc (e, same_regime_refl prev, h)))
]

Same : Loop → Loop → Type 0
Same l next =
    (next.regime_state.last_regime ≡ l.regime_state.last_regime) × (next.changes ≡ l.changes)

if-Same : (b : Bool) (l k k' : Loop) → Same l k → Same l k' → Same l (if b then k else k')
if-Same true l k k' h h' = h
if-Same false l k k' h h' = h'

Told-idle :
    (prev : Option RegimeLabel) (told next : List RegimeChange)
    → next ≡ told
    → Told prev prev told next
Told-idle none told next h = subst (Told none none told) (sym h) (first none told)
Told-idle (some r) told next h = subst (Told (some r) (some r) told) (sym h) (same r told)

change_from-Linked :
    (prev : Option RegimeLabel) (to : RegimeLabel) (told : List RegimeChange)
    → Linked prev told
    → Linked (some to) (change_from prev to told)
change_from-Linked none to [] h = tt
change_from-Linked none to (c ∷ cs) h = ground (arith, h)
change_from-Linked (some prev) to told h = elim (Bool-cases (same_regime prev to)) [
  | inl e ↦ rw e (subst (λ r. Linked (some r) told) (same_regime-eq prev to e) h)
  | inr e ↦ rw e ((refl, e, h))
]

abbrev IsLinked : Loop → Type 0
IsLinked l = Linked l.regime_state.last_regime l.changes

if-IsLinked : (b : Bool) (k l : Loop) → IsLinked k → IsLinked l → IsLinked (if b then k else l)
if-IsLinked true k l h h' = h
if-IsLinked false k l h h' = h'

module _ {W : Type 0} ⦃num : Number W⦄ where
  evaluate_regime-last :
      (state : RegimeState) (m : RegimeMetrics W) (now : ℕ)
      → (evaluate_regime state m now).last_regime ≡ some (classify_regime m state now).0.regime
  unfolding evaluate_regime advance_regime_state
  evaluate_regime-last state m now = refl

  evaluate-IsLinked :
      (m : RegimeMetrics W) (now : ℕ) (l : Loop) → IsLinked l → IsLinked (evaluate m now l)
  unfolding evaluate
  evaluate-IsLinked m now l h = if-IsLinked (not l.running) l _ h (
      let to = (classify_regime m l.regime_state now).0.regime in
      subst (λ r. Linked r (change_from l.regime_state.last_regime to l.changes))
        (sym (evaluate_regime-last l.regime_state m now))
        (change_from-Linked l.regime_state.last_regime to l.changes h))

  on_event-IsLinked : (e : LoopEvent W) (l : Loop) → IsLinked l → IsLinked (on_event e l)
  unfolding on_event start go_on stop begin_cycle end_cycle
  on_event-IsLinked call_start l h = if-IsLinked l.running _ _ h h
  on_event-IsLinked probe_state_loaded l h = if-IsLinked (is_positive l.starting) _ _ h h
  on_event-IsLinked call_stop l h = if-IsLinked l.has_timers _ _ h h
  on_event-IsLinked cycle_tick l h =
      if-IsLinked (is_positive l.timers) _ _
        (if-IsLinked (l.running && not l.cycle_in_flight) _ _ h h) h
  on_event-IsLinked cycle_over l h = if-IsLinked (is_positive l.cycles) _ _ h h
  on_event-IsLinked (regime_tick m now) l h =
      if-IsLinked (is_positive l.timers) _ _ (evaluate-IsLinked m now l h) h

  run_loop-IsLinked : (es : List (LoopEvent W)) (l : Loop) → IsLinked l → IsLinked (run_loop es l)
  unfolding run_loop
  run_loop-IsLinked [] l h = h
  run_loop-IsLinked (e ∷ es) l h = run_loop-IsLinked es (on_event e l) (on_event-IsLinked e l h)

  -- The regime that the loop is to be in after an event: the classification of the metrics, if the
  -- loop runs and has a timer; otherwise the one before.
  abbrev pub judged : LoopEvent W → Loop → Option RegimeLabel
  judged (regime_tick m now) l =
      if is_positive l.timers && l.running
      then some (classify_regime m l.regime_state now).0.regime
      else l.regime_state.last_regime
  judged _ l = l.regime_state.last_regime

  -- From one loop to the next: the regime that it is in, and the change that is told.
  pub record Judges (e : LoopEvent W) (l next : Loop) : Type 0 where
    pub regime : next.regime_state.last_regime ≡ judged e l
    pub told : Told l.regime_state.last_regime (judged e l) l.changes next.changes

  -- Every event of a run is followed up in this way.
  pub data Along : List (LoopEvent W) → Loop → Type 0 where
    over : (l : Loop) → Along [] l
    after :
        (e : LoopEvent W) (es : List (LoopEvent W)) (l : Loop)
        → Judges e l (on_event e l)
        → Along es (on_event e l)
        → Along (e ∷ es) l

  Same-Judges :
      (e : LoopEvent W) (l next : Loop)
      → judged e l ≡ l.regime_state.last_regime
      → Same l next
      → Judges e l next
  unfolding Same
  Same-Judges e l next still h = record {
    regime = h.0 ∙ sym still;
    told =
        subst (λ r. Told l.regime_state.last_regime r l.changes next.changes) (sym still)
          (Told-idle l.regime_state.last_regime l.changes next.changes h.1);
  }

  evaluate-Judges :
      (m : RegimeMetrics W) (now : ℕ) (l : Loop)
      → Judges (regime_tick m now) l (on_event (regime_tick m now) l)
  unfolding on_event evaluate Same
  evaluate-Judges m now l = elim (Bool-cases (is_positive l.timers)) [
    | inr e ↦ simp e (Same-Judges (regime_tick m now) l l (ground (arith, e)) (refl, refl))
    | inl e ↦ elim (Bool-cases l.running) [
      | inr f ↦ simp (e, f) (Same-Judges (regime_tick m now) l l (ground (arith, f)) (refl, refl))
      | inl f ↦
          simp (e, f)
            (let to = (classify_regime m l.regime_state now).0.regime in
              let judges : judged (regime_tick m now) l ≡ some to = ground (arith, e, f) in
              record {
                regime = evaluate_regime-last l.regime_state m now ∙ sym judges;
                told =
                    subst
                      (λ r.
                        Told l.regime_state.last_regime r l.changes
                          (change_from l.regime_state.last_regime to l.changes))
                      (sym judges) (change_from-Told l.regime_state.last_regime to l.changes);
              })
    ]
  ]

  on_event-Judges : (e : LoopEvent W) (l : Loop) → Judges e l (on_event e l)
  unfolding on_event start go_on stop begin_cycle end_cycle Same
  on_event-Judges call_start l =
      Same-Judges call_start l _ refl (if-Same l.running l _ _ (refl, refl) (refl, refl))
  on_event-Judges probe_state_loaded l =
      Same-Judges probe_state_loaded l _ refl
        (if-Same (is_positive l.starting) l _ _ (refl, refl) (refl, refl))
  on_event-Judges call_stop l =
      Same-Judges call_stop l _ refl (if-Same l.has_timers l _ _ (refl, refl) (refl, refl))
  on_event-Judges cycle_tick l = Same-Judges cycle_tick l _ refl (
      if-Same (is_positive l.timers) l _ _
        (if-Same (l.running && not l.cycle_in_flight) l _ _ (refl, refl) (refl, refl)) (refl, refl))
  on_event-Judges cycle_over l =
      Same-Judges cycle_over l _ refl
        (if-Same (is_positive l.cycles) l _ _ (refl, refl) (refl, refl))
  on_event-Judges (regime_tick m now) l = evaluate-Judges m now l

  run_loop-Along : (es : List (LoopEvent W)) (l : Loop) → Along es l
  run_loop-Along [] l = over l
  run_loop-Along (e ∷ es) l = after e es l (on_event-Judges e l) (run_loop-Along es (on_event e l))

  -- In whatever order calls and ticks come: each evaluation of a loop that runs puts it into the regime
  -- that the metrics are classified as, and nothing else moves it. A change is told exactly where the
  -- regime moves from one to another, and once. So the changes that were told form a chain: none leads
  -- from a regime to itself, each begins where the one before it led, and the newest leads to the
  -- regime that the loop is in.
  pub run_loop-Linked :
      (es : List (LoopEvent W))
      → let l = run_loop es new_loop in
        Along es new_loop × Linked l.regime_state.last_regime l.changes
  run_loop-Linked es = (run_loop-Along es new_loop, run_loop-IsLinked es new_loop tt)
