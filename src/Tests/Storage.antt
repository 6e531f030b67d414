-- ===== src/Tests/Storage.antt =====
-- Runs of the writer of events.
use package.text.Mathlib.Text.{◌==◌ as str_eq}
use neurodegen.Common.{◌+◌, ◌-◌, ◌≤◌, ◌≡◌, refl, String, Bool, true, false, List, [], ◌∷◌, length}
use neurodegen.Perception.ColdStorage.{
  WriterEvent, call_start, call_stop, interval_tick, call_add_event, insert_over, new_writer, start,
  stop, flush, make_room, push, flush_full, add_event, on_event, run_writer,
}
use neurodegen.Perception.ColdStorage.Laws.{count, count_all, added, run_writer-present_or_dropped}

abbrev is_first : String → Bool
is_first event = str_eq event "a"

-- Two full batches, the first of which fails to be inserted and is put back.
abbrev stored_late : List (WriterEvent String)
stored_late =
    call_start
    ∷ call_add_event "a"
    ∷ call_add_event "b"
    ∷ call_add_event "c"
    ∷ call_add_event "d"
    ∷ insert_over 0 false
    ∷ interval_tick
    ∷ insert_over 0 true
    ∷ call_stop
    ∷ []

stored_late_writer :
    let w = run_writer 2 stored_late new_writer in
    (w.stored ≡ "c" ∷ "d" ∷ []) × (w.inserting ≡ ("a" ∷ "b" ∷ []) ∷ []) × (w.requeued ≡ 2)
unfolding run_writer on_event start stop flush make_room push flush_full add_event
stored_late_writer = (refl, refl, refl)

run_writer-present_or_dropped_example :
    let w = run_writer 2 stored_late new_writer in
    (count is_first w.dropped
        + count is_first w.buffer
        + count_all is_first w.inserting
        + count is_first w.stored
      ≡ count is_first (added stored_late))
    × (length w.dropped + (length w.buffer - (2 - 1)) ≤ w.requeued)
run_writer-present_or_dropped_example = run_writer-present_or_dropped 2 is_first stored_late
