-- ===== src/Twak/Process.antt =====
-- When and to what the promise of a TWAK process settles.
use Prim.Native.String.{◌++◌ as text_append}
use text.Mathlib.TextLemmas.{append_assoc, append-nil, nil-append}
use neurodegen.Common.{
  ◌≡◌, refl, String, Bool, true, false, Option, none, some, List, [], ◌∷◌, ◌++◌, ap, sym, ◌∙◌,
  arith, is_some, get_or, All,
}
use neurodegen.Common.Calls.{Result, ok, err}
use neurodegen.Twak.{
  SpawnResult, ChildEvent, stdout_data, stderr_data, child_error, close, timer_fires, TwakError,
  timed_out, spawn_failed, Child, spawned, on_child_event, run_twak,
}

abbrev pub is_output : ChildEvent → Bool
is_output (stdout_data _) = true
is_output (stderr_data _) = true
is_output _ = false

-- What was written before.
abbrev pub out_of : List ChildEvent → String
out_of [] = ""
out_of (stdout_data s ∷ es) = text_append s (out_of es)
out_of (_ ∷ es) = out_of es

abbrev pub err_of : List ChildEvent → String
err_of [] = ""
err_of (stderr_data s ∷ es) = text_append s (err_of es)
err_of (_ ∷ es) = err_of es

-- What an event that ends the process settles the promise to, after the output.
abbrev pub ended : ChildEvent → String → String → Option (Result TwakError SpawnResult)
ended (child_error e) out log = some (err (spawn_failed e))
ended (close code) out log =
    some (ok (record { exit_code = get_or code 0; stdout = out; stderr = log }))
ended timer_fires out log = some (err (timed_out log))
ended _ out log = none

run_twak-append :
    (es fs : List ChildEvent) (c : Child) → run_twak (es ++ fs) c ≡ run_twak fs (run_twak es c)
unfolding run_twak
run_twak-append [] fs c = refl
run_twak-append (e ∷ es) fs c = run_twak-append es fs (on_child_event e c)

on_child_event-settled :
    (e : ChildEvent) (c : Child)
    → is_some c.settled ≡ true
    → (on_child_event e c).settled ≡ c.settled
unfolding on_child_event
on_child_event-settled e c h = ground (arith, h)

-- A settled promise does not change.
run_twak-settled :
    (es : List ChildEvent) (c : Child)
    → is_some c.settled ≡ true
    → (run_twak es c).settled ≡ c.settled
unfolding run_twak
run_twak-settled [] c h = refl
run_twak-settled (e ∷ es) c h =
    let step = on_child_event-settled e c h in
    run_twak-settled es (on_child_event e c) (ap is_some step ∙ h) ∙ step

-- Output alone settles nothing and is kept in its order.
run_twak-output :
    (es : List ChildEvent) (c : Child)
    → All (λ e. is_output e ≡ true) es
    → ((run_twak es c).stdout ≡ text_append c.stdout (out_of es))
      × ((run_twak es c).stderr ≡ text_append c.stderr (err_of es))
      × ((run_twak es c).settled ≡ c.settled)
unfolding run_twak on_child_event
run_twak-output [] c h = (sym (append-nil c.stdout), sym (append-nil c.stderr), refl)
run_twak-output (stdout_data s ∷ es) c h =
    let (out, log, same) = run_twak-output es (on_child_event (stdout_data s) c) h.1 in
    (out ∙ append_assoc c.stdout s (out_of es), log, same)
run_twak-output (stderr_data s ∷ es) c h =
    let (out, log, same) = run_twak-output es (on_child_event (stderr_data s) c) h.1 in
    (out, log ∙ append_assoc c.stderr s (err_of es), same)
run_twak-output (e ∷ es) c h = ground (arith, h)

on_child_event-ended :
    (e : ChildEvent) (c : Child)
    → c.settled ≡ none
    → is_output e ≡ false
    → ((on_child_event e c).settled ≡ ended e c.stdout c.stderr)
      × (is_some (on_child_event e c).settled ≡ true)
unfolding on_child_event
on_child_event-ended e c h k = ground (arith, h, k)

-- The promise of a process settles at the first event that is no output (the timer, an error or the
-- exit), to what that event says and to the output before it; nothing that happens later changes it.
pub run_twak-first :
    (before after : List ChildEvent) (e : ChildEvent)
    → All (λ f. is_output f ≡ true) before
    → is_output e ≡ false
    → (run_twak (before ++ (e ∷ after)) spawned).settled ≡ ended e (out_of before) (err_of before)
unfolding run_twak spawned
run_twak-first before after e h k =
    let (out, log, waiting) = run_twak-output before spawned h in
    let (now, is_settled) = on_child_event-ended e (run_twak before spawned) waiting k in
    let last = run_twak-settled after (on_child_event e (run_twak before spawned)) is_settled in
    ap (λ c. c.settled) (run_twak-append before (e ∷ after) spawned)
    ∙ (last
        ∙ (now
            ∙ (ap (λ o. ended e o (run_twak before spawned).stderr)
                  (out ∙ nil-append (out_of before))
                ∙ ap (λ l. ended e (out_of before) l) (log ∙ nil-append (err_of before)))))
