-- ===== src/Llm/Spend.antt =====
-- src/lib/clients/llm/spendTracker.ts. A UTC day is its number; `today` is the day of the clock when
-- the method runs.
pub mod Kill
use text.Mathlib.Text.{◌==◌ as str_eq}
use neurodegen.Common.{
  ℕ, suc, ◌+◌, ◌^◌, String, Bool, true, false, Option, none, some, List, [], ◌∷◌, ◌==◌,
  if◌then◌else◌,
}
use neurodegen.Common.Number.{Number}

pub record RateCard (W : Type 0) : Type 0 where
  pub input_per_million : W
  pub output_per_million : W

pub record SpendState (W : Type 0) : Type 0 where
  pub day_bucket : ℕ
  pub daily_usd : W
  pub call_count : ℕ
  pub kill_active_until : Option ℕ

record SpendStatus (W : Type 0) : Type 0 where
  day_bucket : ℕ
  daily_usd : W
  ceiling_usd : W
  killed : Bool
  call_count : ℕ

abbrev is_day : Option ℕ → ℕ → Bool
is_day none today = false
is_day (some d) today = d == today

module _ {W : Type 0} ⦃num : Number W⦄ where
  -- rates in hundredths of a dollar
  abbrev rate : ℕ → ℕ → RateCard W
  rate a b = record { input_per_million = num.hundredths a; output_per_million = num.hundredths b }

  rates : List (String × RateCard W)
  rates =
      ("claude-opus-4.8", rate 1500 7500)
      ∷ ("claude-opus-4.7", rate 1500 7500)
      ∷ ("claude-opus-4.6", rate 1500 7500)
      ∷ ("claude-sonnet-4.6", rate 300 1500)
      ∷ ("claude-haiku-4.5", rate 100 500)
      ∷ ("anthropic/claude-opus-4.8", rate 1500 7500)
      ∷ ("anthropic/claude-sonnet-4.6", rate 300 1500)
      ∷ ("anthropic/claude-haiku-4.5", rate 100 500)
      ∷ ("gpt-5", rate 500 1500)
      ∷ ("gpt-4o", rate 250 1000)
      ∷ ("gpt-4o-mini", rate 15 60)
      ∷ ("openai/gpt-5", rate 500 1500)
      ∷ ("openai/gpt-4o", rate 250 1000)
      ∷ ("openai/gpt-4o-mini", rate 15 60)
      ∷ ("deepseek/deepseek-v3.2", rate 27 110)
      ∷ ("deepseek/deepseek-r2", rate 55 220)
      ∷ ("qwen/qwen-flash", rate 10 40)
      ∷ ("qwen/qwen-3-coder", rate 30 120)
      ∷ []

  rate_in : List (String × RateCard W) → String → RateCard W
  rate_in [] model = rate 300 1500
  rate_in ((m, r) ∷ rest) model = if str_eq m model then r else rate_in rest model

  pub rate_for : String → RateCard W
  rate_for = rate_in rates

  pub cost_of : String → ℕ → ℕ → W
  cost_of model input_tokens output_tokens =
      let card = rate_for model in
      let million = num.of_nat (10 ^ 6) in
      num.add (num.mul (num.div (num.of_nat input_tokens) million) card.input_per_million)
        (num.mul (num.div (num.of_nat output_tokens) million) card.output_per_million)

  pub reset : ℕ → SpendState W
  reset today = record {
    day_bucket = today;
    daily_usd = num.hundredths 0;
    call_count = 0;
    kill_active_until = none;
  }

  pub roll_over_if_new_day : SpendState W → ℕ → SpendState W
  unfolding reset
  roll_over_if_new_day s today = if today == s.day_bucket then s else reset today

module _ {W : Type 0} ⦃num : Number W⦄ (daily_limit_usd : W) where
  pub record_call : SpendState W → ℕ → String → ℕ → ℕ → SpendState W
  record_call s today model input_tokens output_tokens =
      let rolled = roll_over_if_new_day s today in
      let spent = record rolled {
        daily_usd = num.add rolled.daily_usd (cost_of model input_tokens output_tokens);
        call_count = rolled.call_count + 1;
      } in
      if num.le daily_limit_usd spent.daily_usd
      then record spent { kill_active_until = some spent.day_bucket }
      else spent

  -- The answer and the state that the call leaves.
  pub is_killed : SpendState W → ℕ → Bool × SpendState W
  is_killed s today =
      let rolled = roll_over_if_new_day s today in
      (is_day rolled.kill_active_until rolled.day_bucket, rolled)

  -- With the amount in the error that is thrown where the day's budget is spent.
  unfoldable ensure_budget : SpendState W → ℕ → Option W × SpendState W
  unfolding is_killed
  ensure_budget s today =
      let (killed, rolled) = is_killed s today in
      (if killed then some rolled.daily_usd else none, rolled)

  unfoldable status : SpendState W → ℕ → SpendStatus W × SpendState W
  unfolding roll_over_if_new_day is_killed
  status s today =
      let rolled = roll_over_if_new_day s today in
      let (killed, left) = is_killed rolled today in
      (
        record {
          day_bucket = rolled.day_bucket;
          daily_usd = rolled.daily_usd;
          ceiling_usd = daily_limit_usd;
          killed = killed;
          call_count = rolled.call_count;
        },
        left,
      )

-- Opens the tracker to a test by evaluation.
unfoldable pub opened : Unit {0}
unfolding rates rate_in rate_for cost_of reset roll_over_if_new_day record_call is_killed
opened = tt
