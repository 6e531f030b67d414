-- ===== src/Skill/Sizing.antt =====
-- skills/neurodegen-committee/src/sizing.ts and risk.ts. Percentages are whole: 15 is 15 %.
use neurodegen.Common.{ℕ, Bool, true, false, Option, none, some, leb, if◌then◌else◌, is_some}
use neurodegen.Common.Number.{Number}
use neurodegen.Types.{RiskLevel}
use neurodegen.Cognition.{RegimeLabel, DissentSeverity, none_found, mild, strong}
use neurodegen.Risk.{DrawdownTier, normal, alert, defensive, halt, disqualified}
use neurodegen.Skill.{
  regime_size_mult, mandate_mult, max_position_usd, max_exposure_pct, min_viable_size_usd,
}

pub record RiskBand (W : Type 0) : Type 0 where
  pub label : DrawdownTier
  pub size_mult : W
  pub new_entries_blocked : Bool
  pub stop : Bool

pub record SizingInput (W : Type 0) : Type 0 where
  pub base_usd : W
  pub regime : RegimeLabel
  pub dissent : DissentSeverity
  pub mandate : RiskLevel
  pub equity_usd : W
  pub current_exposure_usd : W
  pub drawdown_pct : W

pub data SizingReason (W : Type 0) : Type 0 where
  position_cap : SizingReason W
  exposure_room : W → SizingReason W
  band_blocks : DrawdownTier → SizingReason W
  not_viable : SizingReason W

pub record SizingResult (W : Type 0) : Type 0 where
  pub size_usd : W
  pub regime_mult : W
  pub dissent_mult : W
  pub mandate_mult : W
  pub drawdown_mult : W
  pub capped : Bool
  pub reason : Option (SizingReason W)

-- `size`, `capped` and `reason` on the way.
pub record Sized (W : Type 0) : Type 0 where
  pub size : W
  pub capped : Bool
  pub reason : Option (SizingReason W)

pub record CapsBreached (W : Type 0) : Type 0 where
  pub positions : Bool
  pub daily_loss : Bool

module _ {W : Type 0} ⦃num : Number W⦄ where
  abbrev band : DrawdownTier → W → Bool → Bool → RiskBand W
  band label mult blocked stop = record {
    label = label;
    size_mult = mult;
    new_entries_blocked = blocked;
    stop = stop;
  }

  unfoldable pub drawdown_band : W → RiskBand W
  drawdown_band pct =
      if num.le (num.of_nat 30) pct
      then band disqualified (num.hundredths 0) true true
      else if num.le (num.of_nat 25) pct
      then band halt (num.hundredths 0) true false
      else if num.le (num.of_nat 20) pct
      then band defensive (num.hundredths 0) true false
      else if num.le (num.of_nat 15) pct
      then band alert (num.hundredths 50) false false
      else band normal (num.hundredths 100) false false

  unfoldable pub dissent_multiplier : DissentSeverity → W
  dissent_multiplier none_found = num.hundredths 100
  dissent_multiplier mild = num.hundredths 50
  dissent_multiplier strong = num.hundredths 0

  -- `Math.round(n * 100) / 100`
  abbrev pub round2 : W → W
  round2 n = num.div (num.math_round (num.mul n (num.of_nat 100))) (num.of_nat 100)

  -- The steps of `sizePosition`, in order.
  abbrev pub cap_position : Sized W → Sized W
  cap_position s =
      if num.lt max_position_usd s.size
      then record { size = max_position_usd; capped = true; reason = some position_cap }
      else s

  abbrev pub cap_exposure : W → Sized W → Sized W
  cap_exposure room s =
      if num.lt room s.size
      then record { size = room; capped = true; reason = some (exposure_room room) }
      else s

  abbrev pub block_entries : RiskBand W → Sized W → Sized W
  block_entries b s =
      if b.new_entries_blocked
      then record { size = num.hundredths 0; capped = true; reason = some (band_blocks b.label) }
      else s

  abbrev pub drop_unviable : Sized W → Sized W
  drop_unviable s =
      if num.le s.size min_viable_size_usd
      then record s {
        size = num.hundredths 0;
        reason = if is_some s.reason then s.reason else some not_viable;
      }
      else s

  module _ (i : SizingInput W) where
    abbrev pub multiplied : W
    multiplied =
        num.mul
          (num.mul
            (num.mul (num.mul i.base_usd (regime_size_mult i.regime))
              (dissent_multiplier i.dissent))
            (mandate_mult i.mandate))
          (drawdown_band i.drawdown_pct).size_mult

    abbrev pub room : W
    room =
        num.max (num.hundredths 0)
          (num.sub (num.mul i.equity_usd max_exposure_pct) i.current_exposure_usd)

    unfoldable pub final_size : Sized W
    final_size =
        let begun : Sized W = record { size = multiplied; capped = false; reason = none } in
        drop_unviable
          (block_entries (drawdown_band i.drawdown_pct) (cap_exposure room (cap_position begun)))

    unfoldable pub size_position : SizingResult W
    size_position = record {
      size_usd = round2 final_size.size;
      regime_mult = regime_size_mult i.regime;
      dissent_mult = dissent_multiplier i.dissent;
      mandate_mult = neurodegen.Skill.mandate_mult i.mandate;
      drawdown_mult = (drawdown_band i.drawdown_pct).size_mult;
      capped = final_size.capped;
      reason = final_size.reason;
    }

  -- `checkRiskCaps`: which of its reasons are given.
  unfoldable pub check_risk_caps : ℕ → W → ℕ → W → CapsBreached W
  check_risk_caps open_positions daily_loss max_concurrent loss_cap = record {
    positions = leb max_concurrent open_positions;
    daily_loss = num.le loss_cap daily_loss;
  }
