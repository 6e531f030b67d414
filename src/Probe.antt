-- ===== src/Probe.antt =====
-- src/lib/services/execution/probeTradeScheduler.ts, and the gate of `runCycle` in
-- src/lib/services/agentLoop.ts that calls it: one small round trip a day. A UTC day is the number of
-- whole days since the epoch, which the text `toISOString().slice(0, 10)` stands for one to one.
pub mod Legs
pub mod Days
use text.Mathlib.Text.{◌==◌ as str_eq}
use neurodegen.Common.{
  ℕ, ◌/◌, ◌%◌, String, Bool, true, false, not, ◌&&◌, Option, none, some, List, [], ◌∷◌, ltb, ◌==◌,
  if◌then◌else◌,
}
use neurodegen.Common.Number.{Number}
use neurodegen.Common.Calls.{Result, ok, err, Act, pure, perform, ◌>>=◌}
use neurodegen.Types.{PositionState, SwapResult, spot, managed, closed, probe_trade_unwind}
use neurodegen.Services.{
  Call, execute_swap, insert_position, update_position, get_daily_trade_count, broadcast_probe,
  Services, SwapRequest, Amount, shown, literal, PositionUpdate, Reply,
}
use neurodegen.Allowlist.{Table, address_of}

-- The settings of src/config/execution.ts and src/config/features.ts.
pub record ProbeSettings (W : Type 0) : Type 0 where
  pub probe_trade_usd : W
  pub probe_trade_hour_utc : ℕ
  pub probe_trade_from_symbol : String
  pub probe_trade_to_symbol : String
  pub enable_probe_trade : Bool
  pub enable_execution : Bool
  pub dry_run_mode : Bool
  pub allowlist : Table
  pub to_upper : String → String

-- `ProbeTradeSchedulerState`
pub record ProbeState : Type 0 where
  pub last_probe_day : Option ℕ

-- `row ?? { lastProbeDay: null }`, and the same after an error
unfoldable pub load_persisted_probe_state : Reply (Option ProbeState) → ProbeState
load_persisted_probe_state (ok (some row)) = row
load_persisted_probe_state _ = record { last_probe_day = none }

abbrev pub day_ms : ℕ
day_ms = 86400000

abbrev pub hour_ms : ℕ
hour_ms = 3600000

unfoldable pub utc_day_bucket : ℕ → ℕ
utc_day_bucket now = now / day_ms

-- `now.getUTCHours()`
unfoldable pub utc_hour : ℕ → ℕ
utc_hour now = now / hour_ms % 24

pub data ProbeReason : Type 0 where
  switched_off already_fired before_cutoff already_traded needed : ProbeReason

pub record ProbeCheck : Type 0 where
  pub should : Bool
  pub reason : ProbeReason

pub data FireReason : Type 0 where
  disabled execution_disabled done : FireReason
  forward_failed reverse_failed : String → FireReason

pub record ProbeResult : Type 0 where
  pub fired : Bool
  pub forward_tx_hash : Option String
  pub reverse_tx_hash : Option String
  pub position_id : Option String
  pub reason : FireReason

abbrev fired_on : Option ℕ → ℕ → Bool
fired_on none day = false
fired_on (some d) day = d == day

-- `.catch(() => 0)`
abbrev count_or_zero : Reply ℕ → ℕ
count_or_zero (ok n) = n
count_or_zero (err _) = 0

abbrev check : Bool → ProbeReason → ProbeCheck
check b r = record { should = b; reason = r }

by_count : Reply ℕ → ProbeCheck
by_count reply =
    if ltb 0 (count_or_zero reply) then check false already_traded else check true needed

-- `.catch` on the insert: the id is dropped
abbrev id_if_stored : String → Reply Unit → Option String
id_if_stored id (ok _) = some id
id_if_stored id (err _) = none

not_fired : FireReason → ProbeResult
not_fired why = record {
  fired = false;
  forward_tx_hash = none;
  reverse_tx_hash = none;
  position_id = none;
  reason = why;
}

abbrev after_probe : ProbeState → ℕ → Bool → ProbeState
after_probe state later fired =
    if fired then record { last_probe_day = some (utc_day_bucket later) } else state

module _ {W : Type 0} ⦃num : Number W⦄ (s : ProbeSettings W) (services : Services W) where
  pub should_fire_probe : ProbeState → ℕ → Act (Call W) ProbeCheck
  should_fire_probe state now =
      if not s.enable_probe_trade
      then pure (check false switched_off)
      else if fired_on state.last_probe_day (utc_day_bucket now)
      then pure (check false already_fired)
      else if ltb (utc_hour now) s.probe_trade_hour_utc
      then pure (check false before_cutoff)
      else (perform get_daily_trade_count services.daily_trade_count >>= λ n. pure (by_count n))

  forward_request : SwapRequest W
  forward_request = record {
    from_token_symbol = s.probe_trade_from_symbol;
    to_token_symbol = s.probe_trade_to_symbol;
    amount_tokens = shown s.probe_trade_usd;
    slippage_pct = none;
  }

  reverse_request : SwapResult W → SwapRequest W
  reverse_request forward = record {
    from_token_symbol = s.probe_trade_to_symbol;
    to_token_symbol = s.probe_trade_from_symbol;
    amount_tokens = literal forward.to_amount_tokens;
    slippage_pct = none;
  }

  received : SwapResult W → W
  received swap = num.parse_float swap.to_amount_tokens

  -- `parseFloat(PROBE_TRADE_USD.toString())` is the number itself.
  probe_position : SwapResult W → String → String → ℕ → PositionState W
  probe_position forward uuid address now = record {
    position_id = uuid;
    session_id = none;
    token_symbol = s.probe_trade_to_symbol;
    token_address = address;
    direction = spot;
    size_usd = s.probe_trade_usd;
    entry_price_usd =
        if num.lt (num.hundredths 0) (received forward)
        then num.div s.probe_trade_usd (received forward)
        else num.hundredths 0;
    tp_price_usd = none;
    sl_price_usd = none;
    twak_tx_hash = forward.tx_hash;
    attestation_commit_tx = none;
    attestation_reveal_tx = none;
    status = managed;
    exit_price_usd = none;
    pnl_usd = none;
    pnl_pct = none;
    exit_reason = none;
    opened_at = now;
    closed_at = none;
  }

  -- The row of the forward leg, if the token has an address. Its id is the result.
  store_at : SwapResult W → Option String → Act (Call W) (Option String)
  store_at forward none t = (none, t)
  store_at forward (some address) t =
      if str_eq address ""
      then (none, t)
      else let uuid = services.random_uuid t in
        let position = probe_position forward uuid address (services.now t) in
        let (reply, t₁) = perform (insert_position position) services.insert t in
        (id_if_stored uuid reply, t₁)

  store_forward : SwapResult W → Act (Call W) (Option String)
  store_forward forward =
      store_at forward (address_of (s.to_upper s.probe_trade_to_symbol) s.allowlist)

  closing_update : SwapResult W → SwapResult W → ℕ → PositionUpdate W
  closing_update forward reverse now =
      let pnl = num.sub (received reverse) s.probe_trade_usd in
      record {
        status = closed;
        exit_price_usd = some (
            if num.lt (num.hundredths 0) (received forward)
            then num.div (received reverse) (received forward)
            else num.hundredths 0);
        pnl_usd = some pnl;
        pnl_pct = some (
            if num.lt (num.hundredths 0) s.probe_trade_usd
            then num.div pnl s.probe_trade_usd
            else num.hundredths 0);
        exit_reason = some probe_trade_unwind;
        closed_at = some now;
        attestation_reveal_tx = some none;
      }

  -- `if (positionId) { … }`; an error of the update is only logged
  close_stored : SwapResult W → SwapResult W → Option String → List (Call W) → List (Call W)
  close_stored forward reverse none t = t
  close_stored forward reverse (some id) t =
      if str_eq id ""
      then t
      else update_position id (closing_update forward reverse (services.now t)) ∷ t

  finish : SwapResult W → Option String → Reply (SwapResult W) → Act (Call W) ProbeResult
  finish forward id (err e) t = (
    record {
      fired = false;
      forward_tx_hash = some forward.tx_hash;
      reverse_tx_hash = none;
      position_id = id;
      reason = reverse_failed e;
    },
    broadcast_probe forward.tx_hash none ∷ t,
  )
  finish forward id (ok reverse) t = (
    record {
      fired = true;
      forward_tx_hash = some forward.tx_hash;
      reverse_tx_hash = some reverse.tx_hash;
      position_id = id;
      reason = done;
    },
    broadcast_probe forward.tx_hash (some reverse.tx_hash) ∷ close_stored forward reverse id t,
  )

  after_forward : Reply (SwapResult W) → Act (Call W) ProbeResult
  after_forward (err e) t = (not_fired (forward_failed e), t)
  after_forward (ok forward) t =
      let (id, t₁) = store_forward forward t in
      let (reply, t₂) = perform (execute_swap (reverse_request forward)) services.swap t₁ in
      finish forward id reply t₂

  pub fire_probe : Act (Call W) ProbeResult
  fire_probe =
      if not s.enable_probe_trade
      then pure (not_fired disabled)
      else if not s.enable_execution && not s.dry_run_mode
      then pure (not_fired execution_disabled)
      else (perform (execute_swap forward_request) services.swap >>= after_forward)

  -- The gate of `runCycle`: `now` is read for the check, `later` after the probe.
  fire_if : ProbeState → ℕ → ProbeCheck → Act (Call W) ProbeState
  fire_if state later decision =
      if decision.should
      then (fire_probe >>= λ probe. pure (after_probe state later probe.fired))
      else pure state

  pub probe_gate : ProbeState → ℕ → ℕ → Act (Call W) ProbeState
  probe_gate state now later =
      should_fire_probe state now >>= λ decision. fire_if state later decision

-- Opens the gate of a probe to a test by evaluation.
unfoldable pub opened : Unit {0}
unfolding by_count should_fire_probe fire_if probe_gate
opened = tt
