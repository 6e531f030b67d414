-- ===== src/Tracker.antt =====
-- src/lib/services/execution/positionTracker.ts: the reconciliation of the stored positions with the
-- wallet. An event of the hot state is here a quote or something else.
pub mod Laws
pub mod Price
use text.Mathlib.Text.{◌==◌ as str_eq}
use neurodegen.Common.{
  ℕ, String, Bool, true, false, not, ◌&&◌, Option, none, some, List, [], ◌∷◌, ltb, any,
  if◌then◌else◌,
}
use neurodegen.Common.Number.{Number}
use neurodegen.Common.Calls.{Result, ok, err, Act, perform}
use neurodegen.Types.{
  PositionStatus, submitted, filled, managed, closed, PositionState, PortfolioSnapshot, Holding,
  external_close,
}
use neurodegen.Services.{
  Call, get_open_positions, get_portfolio, update_position, Services, PositionUpdate, Reply,
}
use neurodegen.Perception.HotState.{PerceptionEvent}

-- `eventType` is `quote_update`, or another one.
pub data Payload (W : Type 0) : Type 0 where
  quote : String → W → Payload W
  not_a_quote : Payload W

-- `.catch(() => [])`
abbrev pub or_no_positions : {W : Type 0} → Reply (List (PositionState W)) → List (PositionState W)
or_no_positions (ok ps) = ps
or_no_positions (err e) = []

abbrev is_submitted : PositionStatus → Bool
is_submitted submitted = true
is_submitted _ = false

abbrev is_managed : PositionStatus → Bool
is_managed managed = true
is_managed _ = false

-- A status alone.
abbrev pub status_only : {W : Type 0} → PositionStatus → PositionUpdate W
status_only status = record {
  status = status;
  exit_price_usd = none;
  pnl_usd = none;
  pnl_pct = none;
  exit_reason = none;
  closed_at = none;
  attestation_reveal_tx = none;
}

module _ {W : Type 0} ⦃num : Number W⦄ (to_upper : String → String) where
  -- `latest` is a price with its time.
  abbrev newer : Option (W × ℕ) → ℕ → Bool
  newer none time = true
  newer (some (price, at)) time = ltb at time

  after_event : String → PerceptionEvent (Payload W) → Payload W → Option (W × ℕ) → Option (W × ℕ)
  after_event upper e not_a_quote latest = latest
  after_event upper e (quote symbol price) latest =
      if str_eq (to_upper symbol) upper && newer latest e.timestamp
      then some (price, e.timestamp)
      else latest

  latest_of : String → List (PerceptionEvent (Payload W)) → Option (W × ℕ) → Option (W × ℕ)
  latest_of upper [] latest = latest
  latest_of upper (e ∷ es) latest = latest_of upper es (after_event upper e e.payload latest)

  abbrev price_of : Option (W × ℕ) → Option W
  price_of none = none
  price_of (some (price, at)) = some price

  -- `events` are the recent ones of the source `cmc_hub`.
  pub pick_latest_cmc_price : List (PerceptionEvent (Payload W)) → String → Option W
  pick_latest_cmc_price events symbol = price_of (latest_of (to_upper symbol) events none)

  priced_close : PositionState W → W → ℕ → PositionUpdate W
  priced_close p price now =
      let tokens = num.div p.size_usd p.entry_price_usd in
      let gain = num.sub price p.entry_price_usd in
      record {
        status = closed;
        exit_price_usd = some price;
        pnl_usd = some (num.mul tokens gain);
        pnl_pct = some (num.div gain p.entry_price_usd);
        exit_reason = some external_close;
        closed_at = some now;
        attestation_reveal_tx = none;
      }

  unpriced_close : ℕ → PositionUpdate W
  unpriced_close now = record (status_only {W = W} closed) {
    exit_reason = some external_close;
    closed_at = some now;
  }

  pub external_update : PositionState W → Option W → ℕ → PositionUpdate W
  external_update p none now = unpriced_close now
  external_update p (some price) now =
      if num.lt (num.hundredths 0) p.entry_price_usd
      then priced_close p price now
      else unpriced_close now

  pub holds : PortfolioSnapshot W → String → Bool
  holds portfolio symbol =
      any (λ h. str_eq (to_upper h.token_symbol) (to_upper symbol)) portfolio.positions

  module _ (services : Services W) (events : List (PerceptionEvent (Payload W))) where
    update : String → PositionUpdate W → Act (Call W) (Reply (Unit {0}))
    update id u t = perform (update_position id u) services.update t

    -- `await a; await b`: an error ends the run.
    then_update : String → PositionUpdate W → Reply (Unit {0}) → Act (Call W) (Reply (Unit {0}))
    then_update id u (err e) t = (err e, t)
    then_update id u (ok _) t = update id u t

    promote : PositionState W → Act (Call W) (Reply (Unit {0}))
    promote p t =
        let (reply, t₁) = update p.position_id (status_only filled) t in
        then_update p.position_id (status_only managed) reply t₁

    close_externally : PositionState W → Act (Call W) (Reply (Unit {0}))
    close_externally p t =
        let price = pick_latest_cmc_price events p.token_symbol in
        update p.position_id (external_update p price (services.now t)) t

    reconcile_one : PortfolioSnapshot W → PositionState W → Act (Call W) (Reply (Unit {0}))
    reconcile_one portfolio p t =
        let held = holds portfolio p.token_symbol in
        if is_submitted p.status && held
        then promote p t
        else if is_managed p.status && not held
        then close_externally p t
        else (ok tt, t)

    go_on : Reply (Unit {0}) → Act (Call W) (Reply (Unit {0})) → Act (Call W) (Reply (Unit {0}))
    go_on (err e) rest t = (err e, t)
    go_on (ok _) rest t = rest t

    reconcile_all : PortfolioSnapshot W → List (PositionState W) → Act (Call W) (Reply (Unit {0}))
    reconcile_all portfolio [] t = (ok tt, t)
    reconcile_all portfolio (p ∷ ps) t =
        let (reply, t₁) = reconcile_one portfolio p t in go_on reply (reconcile_all portfolio ps) t₁

    with_portfolio :
        List (PositionState W) → Reply (PortfolioSnapshot W) → Act (Call W) (Reply (Unit {0}))
    with_portfolio ps (err e) t = (err e, t)
    with_portfolio ps (ok portfolio) t = reconcile_all portfolio ps t

    with_positions : List (PositionState W) → Act (Call W) (Reply (Unit {0}))
    with_positions [] t = (ok tt, t)
    with_positions (p ∷ ps) t =
        let (reply, t₁) = perform get_portfolio services.portfolio t in
        with_portfolio (p ∷ ps) reply t₁

    pub reconcile_once : Act (Call W) (Reply (Unit {0}))
    reconcile_once t =
        let (reply, t₁) = perform get_open_positions services.open_positions t in
        with_positions (or_no_positions reply) t₁

-- Opens the latest price to a test by evaluation.
unfoldable pub opened : Unit {0}
unfolding after_event latest_of pick_latest_cmc_price
opened = tt
