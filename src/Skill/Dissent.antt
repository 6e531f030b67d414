-- ===== src/Skill/Dissent.antt =====
-- skills/neurodegen-committee/src/dissent.ts. The rationale's texts are the agent's constructors.
use neurodegen.Common.{Bool, true, false, not, ◌&&◌, ◌||◌, if◌then◌else◌}
use neurodegen.Common.Number.{Number}
use neurodegen.Cognition.{
  DirectionalLabel, bullish, bearish, DissentSeverity, none_found, mild, strong,
}
use neurodegen.Cognition.Dissent.{
  ParseStatus, FailedParse, both_analysts, narrative_analyst, quant_analyst, DissentResult,
  DissentRationale, parse_failed, analysts_agree, strong_dissent, mild_dissent, same_direction,
}

abbrev severity_found : DissentSeverity → Bool
severity_found none_found = false
severity_found mild = true
severity_found strong = true

-- One is bullish and the other bearish.
abbrev is_strong_pair : DirectionalLabel → DirectionalLabel → Bool
is_strong_pair bullish bearish = true
is_strong_pair bearish bullish = true
is_strong_pair _ _ = false

abbrev pub is_strong : DissentSeverity → Bool
is_strong strong = true
is_strong _ = false

abbrev failed_analysts : ParseStatus → FailedParse
failed_analysts p =
    if not p.narrative_ok && not p.quant_ok
    then both_analysts
    else if not p.narrative_ok
    then narrative_analyst
    else quant_analyst

module _ {W : Type 0} ⦃num : Number W⦄ where
  unfoldable pub build :
      DissentSeverity → W → DirectionalLabel → DirectionalLabel → DissentRationale → DissentResult W
  build severity modifier n q why = record {
    dissent_detected = severity_found severity;
    dissent_severity = severity;
    narrative_direction = n;
    quant_direction = q;
    position_size_modifier = modifier;
    rationale = why;
  }

  -- The directions are `narrative.direction` and `quant.dominantDirection`; the status is there.
  unfoldable pub dissent_of : DirectionalLabel → DirectionalLabel → ParseStatus → DissentResult W
  dissent_of n q p =
      if not p.narrative_ok || not p.quant_ok
      then build mild (num.hundredths 50) n q (parse_failed (failed_analysts p))
      else if same_direction n q
      then build none_found (num.hundredths 100) n q analysts_agree
      else if is_strong_pair n q
      then build strong (num.hundredths 0) n q (strong_dissent n q)
      else build mild (num.hundredths 50) n q (mild_dissent n q)
