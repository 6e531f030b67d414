-- ===== src/Telegram/Updates.antt =====
-- What the broadcast of src/lib/services/agentLoop.ts for an executed trade becomes in the alerter:
-- `PositionState` with the statuses of src/types/execution.ts.
use neurodegen.Common.{◌≡◌, refl, String, false, some, none, arith}
use neurodegen.Common.Number.{Number, ◌≼◌}
use neurodegen.Types.{
  PositionStatus, submitted, pending, filled, managed, closed, expired, PositionState,
}
use neurodegen.Telegram.{PositionUpdateLike, position_open}
use neurodegen.Telegram.Alerter.{falsy_text, equals, position_alert}

abbrev pub status_text : PositionStatus → String
status_text submitted = "SUBMITTED"
status_text pending = "PENDING"
status_text filled = "FILLED"
status_text managed = "MANAGED"
status_text closed = "CLOSED"
status_text expired = "EXPIRED"
status_text PositionStatus.liquidated = "LIQUIDATED"

not_closed : (s : PositionStatus) → equals (some (status_text s)) "closed" ≡ false
not_closed submitted = refl
not_closed pending = refl
not_closed filled = refl
not_closed managed = refl
not_closed closed = refl
not_closed expired = refl
not_closed PositionStatus.liquidated = refl

module _ {W : Type 0} ⦃num : Number W⦄ where
  -- `data: execution.position`
  abbrev pub update_of : PositionState W → PositionUpdateLike W
  update_of p = record {
    status = some (status_text p.status);
    token_symbol = some p.token_symbol;
    size_usd = some p.size_usd;
    kind = none;
  }

  -- A position with a symbol and a positive size is announced as an opening, whatever its status is:
  -- also when it is closed.
  pub closed-announced_open :
      (p : PositionState W)
      → falsy_text (some p.token_symbol) ≡ false
      → p.size_usd ≼ p.size_usd
      → num.le p.size_usd (num.hundredths 0) ≡ false
      → position_alert (some (update_of p)) ≡ some (position_open (update_of p))
  unfolding position_alert
  closed-announced_open p symbol is_number positive =
      ground (arith, not_closed p.status, symbol, is_number, positive)
