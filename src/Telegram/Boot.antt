-- ===== src/Telegram/Boot.antt =====
-- `notifyBoot` of src/lib/services/telegramAlerter.ts, and what a worker that restarts again and
-- again sends with it. The read and the writes of `worker_state` do not throw (the code catches what
-- they throw), and no other handler runs while they are waited for.
use package.text.Mathlib.Text.{◌==◌ as str_eq}
use text.Mathlib.TextPositions.{eq_refl}
use neurodegen.Common.{
  ℕ, ◌≤◌, ◌≡◌, refl, String, Bool, true, false, not, ◌&&◌, Option, none, some, List, [], ◌∷◌, arith,
  ◌==◌, ==_iff, suc, Bool-cases, inl, inr, if◌then◌else◌,
}
use neurodegen.Common.Number.{Number}
use neurodegen.Telegram.{
  DrawdownTier, same_tier, AlertKey, BootSnapshot, Alert, online, Thresholds, drawdown_to_tier,
}
use neurodegen.Telegram.Alerter.{
  rate_limit_ms, Alerter, StartEnv, stopped, start, can_send, mark_and_fire,
}
use neurodegen.Telegram.Spacing.{same_tier_refl}

-- What is kept under BOOT_DEDUPE_KEY.
pub record BootRecord (W : Type 0) : Type 0 where
  pub day : String
  pub commit : String
  pub positions : ℕ
  pub drawdown_tier : DrawdownTier
  pub wallet_usd : W
  pub at : ℕ

-- The snapshot, `Date.now()` before the read and after the write, and the UTC day.
pub record Boot (W : Type 0) : Type 0 where
  pub snapshot : BootSnapshot W
  pub asked : ℕ
  pub marked : ℕ
  pub today : String

pub record BootOutcome (W : Type 0) : Type 0 where
  pub alerter : Alerter
  pub stored : Option (BootRecord W)
  pub sent : Option (Alert W)

module _ {W : Type 0} ⦃num : Number W⦄ (limits : Thresholds W) where
  abbrev pub record_of : Boot W → BootRecord W
  record_of b = record {
    day = b.today;
    commit = b.snapshot.git_sha;
    positions = b.snapshot.open_position_count;
    drawdown_tier = drawdown_to_tier limits b.snapshot.drawdown_pct;
    wallet_usd = b.snapshot.wallet_value_usd;
    at = b.asked;
  }

  abbrev big_wallet_swing : W → W → Bool
  big_wallet_swing last now = num.lt (num.of_nat 5) (num.abs (num.sub last now))

  -- `last` is there and nothing has changed since.
  unfoldable pub is_suppressed : Option (BootRecord W) → Boot W → Bool
  is_suppressed none b = false
  is_suppressed (some last) b =
      let next = record_of b in
      str_eq last.day next.day
      && (last.positions == next.positions)
      && same_tier last.drawdown_tier next.drawdown_tier
      && not (big_wallet_swing last.wallet_usd next.wallet_usd)

  unfoldable pub notify_boot : Boot W → Option (BootRecord W) → Alerter → BootOutcome W
  notify_boot b stored a =
      let (a', sent) = mark_and_fire AlertKey.boot (online b.snapshot) b.marked a in
      if not (can_send AlertKey.boot b.asked a)
      then record { alerter = a; stored = stored; sent = none }
      else if is_suppressed stored b
      then record { alerter = a; stored = some (record_of b); sent = none }
      else record { alerter = a'; stored = some (record_of b); sent = sent }

  abbrev count_sent : Option (Alert W) → ℕ → ℕ
  count_sent none n = n
  count_sent (some _) n = suc n

  -- How many notices a worker sends that boots once for each entry, with a new alerter each time and
  -- the stored record kept.
  unfoldable pub boot_notices : StartEnv → List (Boot W) → Option (BootRecord W) → ℕ
  boot_notices env [] stored = 0
  boot_notices env (b ∷ rest) stored =
      let o = notify_boot b stored (start env stopped) in
      let later = boot_notices env rest o.stored in count_sent o.sent later

  -- A boot on the same day with as many positions, in the same tier, and at most five dollars away.
  pub record Unchanged (last : BootRecord W) (b : Boot W) : Type 0 where
    pub day : last.day ≡ b.today
    pub positions : last.positions ≡ b.snapshot.open_position_count
    pub tier : last.drawdown_tier ≡ drawdown_to_tier limits b.snapshot.drawdown_pct
    pub wallet : big_wallet_swing last.wallet_usd b.snapshot.wallet_value_usd ≡ false
    pub after_epoch : rate_limit_ms ≤ b.asked

  -- Each boot is unchanged from the one before it.
  abbrev pub Steady : BootRecord W → List (Boot W) → Type 0
  Steady last [] = Unit
  Steady last (b ∷ rest) = Unchanged last b × Steady (record_of b) rest

  Unchanged-is_suppressed :
      (last : BootRecord W) (b : Boot W) → Unchanged last b → is_suppressed (some last) b ≡ true
  unfolding is_suppressed
  Unchanged-is_suppressed last b u = ground (
    arith,
    u.day,
    u.positions,
    u.tier,
    u.wallet,
    eq_refl last.day,
    ==_iff last.positions b.snapshot.open_position_count,
    same_tier_refl last.drawdown_tier,
  )

  can_send-no_client :
      (now : ℕ) (a : Alerter) → a.client ≡ false → can_send AlertKey.boot now a ≡ false
  unfolding can_send
  can_send-no_client now a h = simp h

  can_send-new :
      (env : StartEnv) (now : ℕ)
      → (start env stopped).client ≡ true
      → rate_limit_ms ≤ now
      → can_send AlertKey.boot now (start env stopped) ≡ true
  unfolding can_send start stopped
  can_send-new env now h k = ground (arith, h, k)

  boot_notices-no_client :
      (env : StartEnv) (boots : List (Boot W)) (stored : Option (BootRecord W))
      → (start env stopped).client ≡ false
      → boot_notices env boots stored ≡ 0
  unfolding boot_notices notify_boot
  boot_notices-no_client env [] stored h = refl
  boot_notices-no_client env (b ∷ rest) stored h =
      rw (can_send-no_client b.asked (start env stopped) h)
        (boot_notices-no_client env rest stored h)

  boot_notices-Steady :
      (env : StartEnv) (last : BootRecord W) (rest : List (Boot W))
      → (start env stopped).client ≡ true
      → Steady last rest
      → boot_notices env rest (some last) ≡ 0
  unfolding boot_notices notify_boot
  boot_notices-Steady env last [] h s = refl
  boot_notices-Steady env last (b ∷ rest) h s =
      rw (can_send-new env b.asked h s.0.after_epoch, Unchanged-is_suppressed last b s.0)
        (boot_notices-Steady env (record_of b) rest h s.1)

  -- A first boot and any number of restarts after it, each unchanged from the one before, send one
  -- notice at most.
  pub boot_notices-le_one :
      (env : StartEnv) (first : Boot W) (rest : List (Boot W)) (stored : Option (BootRecord W))
      → rate_limit_ms ≤ first.asked
      → Steady (record_of first) rest
      → boot_notices env (first ∷ rest) stored ≤ 1
  unfolding boot_notices notify_boot
  boot_notices-le_one env first rest stored h s = elim (Bool-cases (start env stopped).client) [
    | inr e ↦
        rw (can_send-no_client first.asked (start env stopped) e)
          (omega (arith, boot_notices-no_client env rest stored e))
    | inl e ↦ ground (
      arith,
      can_send-new env first.asked e h,
      boot_notices-Steady env (record_of first) rest e s,
      e,
    )
  ]
