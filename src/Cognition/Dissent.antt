-- ===== src/Cognition/Dissent.antt =====
-- src/lib/services/cognition/dissentTracker.ts. The rationale's texts are constructors.
pub mod Laws
use neurodegen.Common.{Bool, true, false, not, ◌&&◌, ◌||◌, Option, none, some, if◌then◌else◌}
use neurodegen.Common.Number.{Number}
use neurodegen.Cognition.{
  DirectionalLabel, bullish, bearish, neutral, DissentSeverity, none_found, mild, strong,
}

pub record ParseStatus : Type 0 where
  pub narrative_ok : Bool
  pub quant_ok : Bool

pub data FailedParse : Type 0 where
  both_analysts narrative_analyst quant_analyst : FailedParse

pub data DissentRationale : Type 0 where
  parse_failed : FailedParse → DissentRationale
  analysts_agree : DissentRationale
  strong_dissent mild_dissent : DirectionalLabel → DirectionalLabel → DissentRationale

pub record DissentResult (W : Type 0) : Type 0 where
  pub dissent_detected : Bool
  pub dissent_severity : DissentSeverity
  pub narrative_direction : DirectionalLabel
  pub quant_direction : DirectionalLabel
  pub position_size_modifier : W
  pub rationale : DissentRationale

abbrev pub same_direction : DirectionalLabel → DirectionalLabel → Bool
same_direction bullish bullish = true
same_direction bearish bearish = true
same_direction neutral neutral = true
same_direction _ _ = false

abbrev is_bullish : DirectionalLabel → Bool
is_bullish bullish = true
is_bullish _ = false

abbrev is_bearish : DirectionalLabel → Bool
is_bearish bearish = true
is_bearish _ = false

-- `severity !== 'none'`
abbrev is_some_dissent : DissentSeverity → Bool
is_some_dissent none_found = false
is_some_dissent _ = true

-- `parseStatus && (!narrativeOk || !quantOk)`
abbrev pub parse_failed? : Option ParseStatus → Bool
parse_failed? none = false
parse_failed? (some p) = not p.narrative_ok || not p.quant_ok

-- Read only where a parse failed.
failed_parse : Option ParseStatus → FailedParse
failed_parse none = quant_analyst
failed_parse (some p) =
    if not p.narrative_ok && not p.quant_ok
    then both_analysts
    else if not p.narrative_ok
    then narrative_analyst
    else quant_analyst

module _ {W : Type 0} ⦃num : Number W⦄ where
  unfoldable pub result :
      DissentSeverity → W → DirectionalLabel → DirectionalLabel → DissentRationale → DissentResult W
  result severity modifier n q why = record {
    dissent_detected = is_some_dissent severity;
    dissent_severity = severity;
    narrative_direction = n;
    quant_direction = q;
    position_size_modifier = modifier;
    rationale = why;
  }

  -- `n` is `narrative.direction` and `q` is `quant.dominantDirection`.
  unfoldable pub compute_dissent :
      DirectionalLabel → DirectionalLabel → Option ParseStatus → DissentResult W
  unfolding result failed_parse
  compute_dissent n q status =
      let is_strong = (is_bullish n && is_bearish q) || (is_bearish n && is_bullish q) in
      if parse_failed? status
      then result mild (num.hundredths 50) n q (parse_failed (failed_parse status))
      else if same_direction n q
      then result none_found (num.hundredths 100) n q analysts_agree
      else if is_strong
      then result strong (num.hundredths 0) n q (strong_dissent n q)
      else result mild (num.hundredths 50) n q (mild_dissent n q)
