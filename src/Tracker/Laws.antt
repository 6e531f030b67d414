-- ===== src/Tracker/Laws.antt =====
-- What a reconciliation writes for each stored position.
use neurodegen.Common.{◌≡◌, String, Bool, true, false, none, some, List, [], ◌∷◌}
use neurodegen.Common.Number.{Number}
use neurodegen.Common.Calls.{ok, err}
use neurodegen.Types.{
  submitted, filled, managed, closed, PositionState, PortfolioSnapshot, external_close,
}
use neurodegen.Services.{
  Call, get_open_positions, get_portfolio, update_position, Services, PositionUpdate, Reply,
}
use neurodegen.Perception.HotState.{PerceptionEvent}
use neurodegen.Tracker.{Payload, or_no_positions, status_only, holds, update}

module _ {W : Type 0} (services : Services W) where
  -- The writes for one position, from the calls before to the calls after, newest first; `held` says
  -- that the wallet has its token.
  pub data Step (p : PositionState W) (held : Bool) (t : List (Call W))
      : List (Call W) → Reply (Unit {0}) → Type 0 where
    left :
        (p.status ≡ submitted → held ≡ false)
        → (p.status ≡ managed → held ≡ true)
        → Step p held t t (ok tt)
    promoted :
        services.update t ≡ ok tt
        → p.status ≡ submitted
        → held ≡ true
        → Step p held t
            (update_position p.position_id (status_only managed)
              ∷ update_position p.position_id (status_only filled)
              ∷ t)
            (services.update (update_position p.position_id (status_only filled) ∷ t))
    half_promoted :
        (e : String)
        → services.update t ≡ err e
        → p.status ≡ submitted
        → held ≡ true
        → Step p held t (update_position p.position_id (status_only filled) ∷ t) (err e)
    closed_externally :
        (u : PositionUpdate W)
        → p.status ≡ managed
        → held ≡ false
        → u.status ≡ closed
        → u.exit_reason ≡ some external_close
        → (u.exit_price_usd ≡ none → u.pnl_usd ≡ none)
        → Step p held t (update_position p.position_id u ∷ t) (services.update t)

  -- One step for each position in order, up to the first write that fails.
  pub data Reconciled (held : PositionState W → Bool)
      : List (PositionState W) → List (Call W) → List (Call W) → Reply (Unit {0}) → Type 0 where
    done : (t : List (Call W)) → Reconciled held [] t t (ok tt)
    stopped :
        (p : PositionState W) (ps : List (PositionState W)) (t after : List (Call W)) (e : String)
        → Step p (held p) t after (err e)
        → Reconciled held (p ∷ ps) t after (err e)
    next :
        (p : PositionState W) (ps : List (PositionState W)) (t between after : List (Call W))
        (r : Reply (Unit {0}))
        → Step p (held p) t between (ok tt)
        → Reconciled held ps between after r
        → Reconciled held (p ∷ ps) t after r

module _ {W : Type 0} ⦃num : Number W⦄ (to_upper : String → String) (services : Services W)
    (events : List (PerceptionEvent (Payload W))) where
  module _ (portfolio : PortfolioSnapshot W) where
    abbrev pub held_in : PositionState W → Bool
    held_in p = holds to_upper portfolio p.token_symbol

  -- The calls of a reconciliation: the read of the positions, then the read of the wallet if there are
  -- any, then the writes if the wallet could be read.
  pub data Reconciliation (t : List (Call W)) : List (Call W) → Reply (Unit {0}) → Type 0 where
    no_positions :
        or_no_positions (services.open_positions t) ≡ []
        → Reconciliation t (get_open_positions ∷ t) (ok tt)
    no_wallet :
        (e : String)
        → services.portfolio (get_open_positions ∷ t) ≡ err e
        → Reconciliation t (get_portfolio ∷ get_open_positions ∷ t) (err e)
    reconciled :
        (portfolio : PortfolioSnapshot W) (ps : List (PositionState W)) (after : List (Call W))
        (r : Reply (Unit {0}))
        → services.open_positions t ≡ ok ps
        → services.portfolio (get_open_positions ∷ t) ≡ ok portfolio
        → Reconciled services
            (held_in portfolio)
            ps
            (get_portfolio ∷ get_open_positions ∷ t)
            after
            r
        → Reconciliation t after r
