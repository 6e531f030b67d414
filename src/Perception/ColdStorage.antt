-- ===== src/Perception/ColdStorage.antt =====
-- src/lib/services/perception/coldStorageWriter.ts: the buffer of events on their way to the database,
-- as what may happen in any order: a call, a tick of the timer, the end of an insert.
pub mod Laws
use neurodegen.Common.{
  ℕ, zero, suc, ◌+◌, ◌-◌, ◌*◌, Bool, true, false, not, Option, none, some, List, [], ◌∷◌, ◌++◌, leb,
  length, if◌then◌else◌,
}

pub data WriterEvent (E : Type 0) : Type 0 where
  call_start call_stop interval_tick : WriterEvent E
  call_add_event : E → WriterEvent E
  insert_over : ℕ → Bool → WriterEvent E

-- `inserting` holds the batches whose `insertEventBatch` is awaited, oldest first, `stored` what was
-- inserted and `dropped` what an overflow removed. `requeued` counts the events that failed inserts
-- put back.
pub record ColdStorageWriter (E : Type 0) : Type 0 where
  pub buffer : List E
  pub has_interval : Bool
  pub inserting : List (List E)
  pub stored : List E
  pub dropped : List E
  pub requeued : ℕ

module _ {E : Type 0} where
  abbrev pub new_writer : ColdStorageWriter E
  new_writer = record {
    buffer = [];
    has_interval = false;
    inserting = [];
    stored = [];
    dropped = [];
    requeued = 0;
  }

  unfoldable pub push : E → ColdStorageWriter E → ColdStorageWriter E
  push event w = record w { buffer = w.buffer ++ (event ∷ []) }

  -- `splice(0, n)`: what it returns, and what it leaves.
  abbrev pub splice : ℕ → List E → List E × List E
  splice zero xs = ([], xs)
  splice (suc n) [] = ([], [])
  splice (suc n) (x ∷ xs) = let rest = splice n xs in (x ∷ rest.0, rest.1)

  unfoldable pub start : ColdStorageWriter E → ColdStorageWriter E
  start w = record w { has_interval = true }

  -- `flush` up to its await.
  unfoldable pub flush : ColdStorageWriter E → ColdStorageWriter E
  flush w =
      let cut = splice (length w.buffer) w.buffer in
      if leb (length w.buffer) 0
      then w
      else record w { buffer = cut.1; inserting = w.inserting ++ (cut.0 ∷ []) }

  unfoldable pub stop : ColdStorageWriter E → ColdStorageWriter E
  stop w = flush (record w { has_interval = false })

  abbrev pub beside : List E → Option (List E × List (List E)) → Option (List E × List (List E))
  beside b none = none
  beside b (some (c, rest)) = some (c, b ∷ rest)

  -- The batch at a place, and the others.
  abbrev pub take_batch : ℕ → List (List E) → Option (List E × List (List E))
  take_batch n [] = none
  take_batch zero (b ∷ bs) = some (b, bs)
  take_batch (suc n) (b ∷ bs) = beside b (take_batch n bs)

  -- `flush` after its await: the batch is stored, or put back at the front.
  abbrev pub settle :
      Bool → Option (List E × List (List E)) → ColdStorageWriter E → ColdStorageWriter E
  settle succeeds none w = w
  settle true (some (batch, rest)) w = record w { inserting = rest; stored = w.stored ++ batch }
  settle false (some (batch, rest)) w = record w {
    inserting = rest;
    buffer = batch ++ w.buffer;
    requeued = w.requeued + length batch;
  }

-- `EVENT_BATCH_SIZE` comes from the environment.
module _ (event_batch_size : ℕ) where
  abbrev pub max_buffer_size : ℕ
  max_buffer_size = event_batch_size * 10

module _ {E : Type 0} (event_batch_size : ℕ) where
  unfoldable pub make_room : ColdStorageWriter E → ColdStorageWriter E
  make_room w =
      let most = max_buffer_size event_batch_size in
      let cut = splice (length w.buffer - most + 1) w.buffer in
      if not (leb most (length w.buffer))
      then w
      else record w { buffer = cut.1; dropped = w.dropped ++ cut.0 }

  unfoldable pub flush_full : ColdStorageWriter E → ColdStorageWriter E
  flush_full w = if leb event_batch_size (length w.buffer) then flush w else w

  unfoldable pub add_event : E → ColdStorageWriter E → ColdStorageWriter E
  add_event event w = flush_full (push event (make_room w))

  -- A tick without an interval, and the end of an insert that is not awaited, cannot happen.
  unfoldable pub on_event : WriterEvent E → ColdStorageWriter E → ColdStorageWriter E
  on_event call_start w = start w
  on_event call_stop w = stop w
  on_event interval_tick w = if w.has_interval then flush w else w
  on_event (call_add_event event) w = add_event event w
  on_event (insert_over n succeeds) w = settle succeeds (take_batch n w.inserting) w

  unfoldable pub run_writer : List (WriterEvent E) → ColdStorageWriter E → ColdStorageWriter E
  run_writer [] w = w
  run_writer (e ∷ es) w = run_writer es (on_event e w)
