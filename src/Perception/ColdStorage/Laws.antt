-- ===== src/Perception/ColdStorage/Laws.antt =====
-- What becomes of the events that the writer is given.
use neurodegen.Common.{
  ℕ, zero, suc, ◌+◌, ◌-◌, ◌*◌, ◌≤◌, ◌≡◌, refl, Bool, true, false, Option, none, some, List, [], ◌∷◌,
  ◌++◌, arith, length, length-append, filter,
}
use neurodegen.Perception.ColdStorage.{
  WriterEvent, call_start, call_stop, interval_tick, call_add_event, insert_over, ColdStorageWriter,
  new_writer, splice, start, flush, stop, beside, take_batch, settle, make_room, push, flush_full,
  add_event, on_event, run_writer,
}

module _ {E : Type 0} where
  abbrev pub count : (E → Bool) → List E → ℕ
  count p xs = length (filter p xs)

  abbrev pub count_all : (E → Bool) → List (List E) → ℕ
  count_all p [] = 0
  count_all p (b ∷ bs) = count p b + count_all p bs

  -- What the writer was given.
  abbrev pub added : List (WriterEvent E) → List E
  added [] = []
  added (call_add_event event ∷ es) = event ∷ added es
  added (_ ∷ es) = added es

  -- The events with a property, wherever they are.
  abbrev pub present : (E → Bool) → ColdStorageWriter E → ℕ
  present p w = count p w.dropped + count p w.buffer + count_all p w.inserting + count p w.stored

  count-append : (p : E → Bool) (xs ys : List E) → count p (xs ++ ys) ≡ count p xs + count p ys
  count-append p [] ys = omega arith
  count-append p (x ∷ xs) ys = ground (arith, count-append p xs ys)

  count_all-append :
      (p : E → Bool) (bs cs : List (List E))
      → count_all p (bs ++ cs) ≡ count_all p bs + count_all p cs
  count_all-append p [] cs = omega arith
  count_all-append p (b ∷ bs) cs = omega (arith, count_all-append p bs cs)

  count-splice :
      (p : E → Bool) (n : ℕ) (xs : List E)
      → count p (splice n xs).0 + count p (splice n xs).1 ≡ count p xs
  count-splice p zero xs = omega arith
  count-splice p (suc n) [] = refl
  count-splice p (suc n) (x ∷ xs) = ground (arith, count-splice p n xs)

  length-splice :
      (n : ℕ) (xs : List E)
      → ((length (splice n xs).0 + length (splice n xs).1) ≡ length xs)
        × (length (splice n xs).1 ≡ length xs - n)
  length-splice zero xs = (omega arith, omega arith)
  length-splice (suc n) [] = (refl, omega arith)
  length-splice (suc n) (x ∷ xs) =
      let (whole, left) = length-splice n xs in (omega (arith, whole), omega (arith, left))

  -- The batch and the others hold what was inserting.
  Taken : (E → Bool) → ℕ → Option (List E × List (List E)) → Type 0
  Taken p total none = Unit
  Taken p total (some (b, rest)) = total ≡ count p b + count_all p rest

  beside-Taken :
      (p : E → Bool) (b : List E) (total : ℕ) (o : Option (List E × List (List E)))
      → Taken p total o
      → Taken p (count p b + total) (beside b o)
  unfolding Taken
  beside-Taken p b total none t = tt
  beside-Taken p b total (some (c, rest)) t = omega (arith, t)

  take_batch-Taken :
      (p : E → Bool) (n : ℕ) (bs : List (List E)) → Taken p (count_all p bs) (take_batch n bs)
  unfolding Taken
  take_batch-Taken p zero [] = tt
  take_batch-Taken p (suc n) [] = tt
  take_batch-Taken p zero (b ∷ bs) = refl
  take_batch-Taken p (suc n) (b ∷ bs) =
      beside-Taken p b (count_all p bs) (take_batch n bs) (take_batch-Taken p n bs)

  flush-present : (p : E → Bool) (w : ColdStorageWriter E) → present p (flush w) ≡ present p w
  unfolding flush
  flush-present p w =
      let cut = splice (length w.buffer) w.buffer in
      ground (
        arith,
        count-splice p (length w.buffer) w.buffer,
        count_all-append p w.inserting (cut.0 ∷ []),
      )

  settle-present :
      (p : E → Bool) (b : Bool) (o : Option (List E × List (List E))) (w : ColdStorageWriter E)
      → Taken p (count_all p w.inserting) o
      → present p (settle b o w) ≡ present p w
  unfolding Taken
  settle-present p b none w t = refl
  settle-present p true (some (batch, rest)) w t = omega (arith, t, count-append p w.stored batch)
  settle-present p false (some (batch, rest)) w t = omega (arith, t, count-append p batch w.buffer)

  make_room-present :
      (n : ℕ) (p : E → Bool) (w : ColdStorageWriter E) → present p (make_room n w) ≡ present p w
  unfolding make_room
  make_room-present n p w =
      let cut = splice (length w.buffer - n * 10 + 1) w.buffer in
      ground (
        arith,
        count-splice p (length w.buffer - n * 10 + 1) w.buffer,
        count-append p w.dropped cut.0,
      )

  add_event-present :
      (n : ℕ) (p : E → Bool) (event : E) (w : ColdStorageWriter E)
      → present p (add_event n event w) ≡ count p (event ∷ []) + present p w
  unfolding add_event push flush_full
  add_event-present n p event w =
      let room = make_room n w in
      let pushed = push event room in
      ground (
        arith,
        make_room-present n p w,
        count-append p room.buffer (event ∷ []),
        flush-present p pushed,
      )

  on_event-present :
      (n : ℕ) (p : E → Bool) (e : WriterEvent E) (w : ColdStorageWriter E)
      → present p (on_event n e w) ≡ count p (added (e ∷ [])) + present p w
  unfolding on_event start stop
  on_event-present n p call_start w = omega arith
  on_event-present n p call_stop w =
      omega (arith, flush-present p (record w { has_interval = false }))
  on_event-present n p interval_tick w = ground (arith, flush-present p w)
  on_event-present n p (call_add_event event) w = add_event-present n p event w
  on_event-present n p (insert_over i b) w =
      omega
        (arith, settle-present p b (take_batch i w.inserting) w (take_batch-Taken p i w.inserting))

  count-added :
      (p : E → Bool) (e : WriterEvent E) (es : List (WriterEvent E))
      → count p (added (e ∷ es)) ≡ count p (added (e ∷ [])) + count p (added es)
  count-added p call_start es = omega arith
  count-added p call_stop es = omega arith
  count-added p interval_tick es = omega arith
  count-added p (call_add_event event) es = ground arith
  count-added p (insert_over i b) es = omega arith

  run_writer-present :
      (n : ℕ) (p : E → Bool) (es : List (WriterEvent E)) (w : ColdStorageWriter E)
      → present p (run_writer n es w) ≡ count p (added es) + present p w
  unfolding run_writer
  run_writer-present n p [] w = omega arith
  run_writer-present n p (e ∷ es) w = omega (
    arith,
    run_writer-present n p es (on_event n e w),
    on_event-present n p e w,
    count-added p e es,
  )

  -- What was dropped, and what the buffer holds from a full batch on, was put back before.
  Rested : ℕ → ColdStorageWriter E → Type 0
  Rested n w = length w.dropped + (length w.buffer - (n - 1)) ≤ w.requeued

  flush-Rested : (n : ℕ) (w : ColdStorageWriter E) → Rested n w → Rested n (flush w)
  unfolding Rested flush
  flush-Rested n w h = ground (arith, h, length-splice (length w.buffer) w.buffer)

  settle-Rested :
      (n : ℕ) (b : Bool) (o : Option (List E × List (List E))) (w : ColdStorageWriter E)
      → Rested n w
      → Rested n (settle b o w)
  unfolding Rested
  settle-Rested n b none w h = h
  settle-Rested n true (some (batch, rest)) w h = h
  settle-Rested n false (some (batch, rest)) w h = omega (arith, h, length-append batch w.buffer)

  add_event-Rested :
      (n : ℕ) (event : E) (w : ColdStorageWriter E) → Rested n w → Rested n (add_event n event w)
  unfolding Rested add_event make_room push flush_full flush
  add_event-Rested n event w h =
      let cut = splice (length w.buffer - n * 10 + 1) w.buffer in
      ground (
        arith,
        h,
        length-splice (length w.buffer - n * 10 + 1) w.buffer,
        length-append w.dropped cut.0,
        length-append cut.1 (event ∷ []),
        length-append w.buffer (event ∷ []),
        length-splice (length (cut.1 ++ (event ∷ []))) (cut.1 ++ (event ∷ [])),
        length-splice (length (w.buffer ++ (event ∷ []))) (w.buffer ++ (event ∷ [])),
      )

  on_event-Rested :
      (n : ℕ) (e : WriterEvent E) (w : ColdStorageWriter E) → Rested n w → Rested n (on_event n e w)
  unfolding Rested on_event start stop
  on_event-Rested n call_start w h = h
  on_event-Rested n call_stop w h = flush-Rested n (record w { has_interval = false }) h
  on_event-Rested n interval_tick w h = ground (arith, h, flush-Rested n w h)
  on_event-Rested n (call_add_event event) w h = add_event-Rested n event w h
  on_event-Rested n (insert_over i b) w h = settle-Rested n b (take_batch i w.inserting) w h

  run_writer-Rested :
      (n : ℕ) (es : List (WriterEvent E)) (w : ColdStorageWriter E)
      → Rested n w
      → Rested n (run_writer n es w)
  unfolding run_writer
  run_writer-Rested n [] w h = h
  run_writer-Rested n (e ∷ es) w h =
      run_writer-Rested n es (on_event n e w) (on_event-Rested n e w h)

  -- Whatever happens, and in whatever order inserts end: of the events with any property, as many are
  -- dropped, in the buffer, being inserted or stored as were added; and the dropped ones, with those by
  -- which the buffer exceeds one less than a batch, are no more than failed inserts put back.
  pub run_writer-present_or_dropped :
      (event_batch_size : ℕ) (p : E → Bool) (es : List (WriterEvent E))
      → let w = run_writer event_batch_size es new_writer in
        (count p w.dropped + count p w.buffer + count_all p w.inserting + count p w.stored
          ≡ count p (added es))
        × (length w.dropped + (length w.buffer - (event_batch_size - 1)) ≤ w.requeued)
  unfolding Rested
  run_writer-present_or_dropped n p es = (
    omega (arith, run_writer-present n p es new_writer),
    run_writer-Rested n es new_writer (omega arith),
  )
