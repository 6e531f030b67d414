-- ===== src/Llm/Spend/Kill.antt =====
-- The kill switch of src/lib/clients/llm/spendTracker.ts.
use neurodegen.Common.{
  ℕ, ◌≡◌, ◌⊎◌, is_some, String, true, false, some, List, [], ◌∷◌, arith, inr, All,
}
use neurodegen.Common.Number.{Number}
use neurodegen.Llm.Spend.{
  SpendState, reset, roll_over_if_new_day, record_call, is_killed, ensure_budget, status,
}

-- A recorded call: the day, the model, and the two token counts.
pub record ModelCall : Type 0 where
  pub day : ℕ
  pub model : String
  pub input_tokens : ℕ
  pub output_tokens : ℕ

module _ {W : Type 0} ⦃num : Number W⦄ (daily_limit_usd : W) where
  unfoldable pub record_all : SpendState W → List ModelCall → SpendState W
  record_all s [] = s
  record_all s (c ∷ rest) =
      record_all (record_call daily_limit_usd s c.day c.model c.input_tokens c.output_tokens) rest

  -- Either the switch is on for the tracker's day, or the day's spend is under the ceiling.
  pub IsGated : SpendState W → Type 0
  IsGated s =
      (s.kill_active_until ≡ some s.day_bucket) ⊎ (num.le daily_limit_usd s.daily_usd ≡ false)

  record_call-IsGated :
      (s : SpendState W) (today : ℕ) (model : String) (a b : ℕ)
      → IsGated (record_call daily_limit_usd s today model a b)
  unfolding IsGated record_call
  record_call-IsGated s today model a b = ground arith

  record_all-IsGated :
      (s : SpendState W) (calls : List ModelCall) → IsGated s → IsGated (record_all s calls)
  unfolding record_all
  record_all-IsGated s [] h = h
  record_all-IsGated s (c ∷ rest) h =
      record_all-IsGated
        (record_call daily_limit_usd s c.day c.model c.input_tokens c.output_tokens) rest
        (record_call-IsGated s c.day c.model c.input_tokens c.output_tokens)

  is_killed-IsGated :
      (s : SpendState W) (today : ℕ)
      → num.le daily_limit_usd (num.hundredths 0) ≡ false
      → IsGated s
      → (is_killed daily_limit_usd s today).0 ≡ false
      → (num.le daily_limit_usd (is_killed daily_limit_usd s today).1.daily_usd ≡ false)
        × ((is_killed daily_limit_usd s today).1.day_bucket ≡ today)
  unfolding is_killed roll_over_if_new_day reset IsGated
  is_killed-IsGated s today pos h off = ground arith

  record_call-keeps_kill :
      (s : SpendState W) (day : ℕ) (c : ModelCall)
      → (is_killed daily_limit_usd s day).0 ≡ true
      → c.day ≡ day
      → (is_killed daily_limit_usd
          (record_call daily_limit_usd s c.day c.model c.input_tokens c.output_tokens)
          day).0
        ≡ true
  unfolding is_killed record_call roll_over_if_new_day reset
  record_call-keeps_kill s day c on same = ground arith

  -- After any calls on any days the budget check lets a call through only if the spend that is counted
  -- for the current day is under the ceiling. (The ceiling is positive: it is not at most 0.)
  pub is_killed-under_limit :
      (start : ℕ) (calls : List ModelCall) (today : ℕ)
      → num.le daily_limit_usd (num.hundredths 0) ≡ false
      → let out = is_killed daily_limit_usd (record_all (reset start) calls) today in
        out.0 ≡ false
        → (num.le daily_limit_usd out.1.daily_usd ≡ false) × (out.1.day_bucket ≡ today)
  is_killed-under_limit start calls today pos =
      is_killed-IsGated (record_all (reset start) calls) today pos
        (record_all-IsGated (reset start) calls (unfold reset IsGated in inr pos))

  -- Once the switch is on for a day, no calls of that day turn it off.
  pub is_killed-sticky :
      (s : SpendState W) (day : ℕ) (calls : List ModelCall)
      → (is_killed daily_limit_usd s day).0 ≡ true
      → All (λ c. c.day ≡ day) calls
      → (is_killed daily_limit_usd (record_all s calls) day).0 ≡ true
  unfolding record_all
  is_killed-sticky s day [] on same = on
  is_killed-sticky s day (c ∷ rest) on same =
      is_killed-sticky (record_call daily_limit_usd s c.day c.model c.input_tokens c.output_tokens)
        day rest (record_call-keeps_kill s day c on same.0) same.1

  -- The report says `killed` exactly when the budget check throws, and both
  -- leave the same state.
  status-ensure_budget :
      (s : SpendState W) (today : ℕ)
      → ((status daily_limit_usd s today).0.killed
          ≡ is_some (ensure_budget daily_limit_usd s today).0)
        × ((status daily_limit_usd s today).1 ≡ (ensure_budget daily_limit_usd s today).1)
  unfolding status ensure_budget is_killed roll_over_if_new_day reset
  status-ensure_budget s today = ground arith
