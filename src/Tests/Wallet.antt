-- ===== src/Tests/Wallet.antt =====
-- Runs of the TWAK client and of the canonical serialization.
use package.text.Mathlib.Text.{◌==◌ as str_eq}
use neurodegen.Common.{
  ℕ, arith, Option, ◌≢◌, ◌≡◌, refl, true, false, String, some, none, List, [], ◌∷◌,
}
use neurodegen.Common.Calls.{ok, err}
use neurodegen.Common.Fixed.{Fixed, fixed_number}
use neurodegen.Twak.{
  or_throw, parse_output, spawn_failed, stdout_data, close, timer_fires, spawned, run_twak,
}
use neurodegen.Twak.Process.{run_twak-first}
use neurodegen.Twak.Portfolio.{Reads}
use neurodegen.Twak.Swap.{SwapArgs, SwapEnv, execute_swap, Happened, map_ok, execute_swap-ok}
use neurodegen.Canonical.{Value, text, number, object, Fields, no_fields, field, Json, canonicalize}
use neurodegen.Canonical.Order.{objects, fields_swap, canonicalize-Reordered}
use neurodegen.Types.{SwapResult}
use neurodegen.Tests.Fixtures.{usd, same_case}

-- A process that writes twice, exits with 0 and whose timer was not cleared.
run_twak-first_example :
    (run_twak
      (stdout_data "{" ∷ stdout_data "}" ∷ close (some 0) ∷ timer_fires ∷ [])
      spawned).settled
    ≡ some (ok (record { exit_code = 0; stdout = "{}"; stderr = "" }))
run_twak-first_example =
    run_twak-first (stdout_data "{" ∷ stdout_data "}" ∷ []) (timer_fires ∷ []) (close (some 0))
      (refl, (refl, tt)) refl

-- TWAK is down; the chain holds 5 USDT and 5 CAKE.
abbrev chain_reads : Reads Fixed
chain_reads = record {
  native = err (spawn_failed "ENOENT");
  token = λ symbol. err (spawn_failed "ENOENT");
  chain = λ symbol. ok (record { balance_tokens = "5"; is_positive = true });
  is_stablecoin = λ symbol. str_eq symbol "USDT";
  now = 1000;
}

abbrev tracked : List (String × String)
tracked = ("USDT", "0xusdt") ∷ ("CAKE", "0xcake") ∷ []

abbrev swap_env : SwapEnv Fixed
swap_env = record {
  enable_execution = true;
  dry_run_mode = false;
  max_slippage_percent = usd 1;
  allowlist = [];
  to_upper = same_case;
  get_address = λ a. some a;
  to_fixed4 = λ w. "1.0000";
  less_half_percent = same_case;
  units = λ s. [];
  now_text = "1000";
  atomic_text = λ n. "1";
  run = λ args. ok (record { exit_code = 0; stdout = "{}"; stderr = "" });
  parse_swap = λ out.
      some (record { hash = "0x1"; input = "5"; output = "2"; explorer = "bsc"; provider = "p" });
  parse_payment = λ out. none;
}

abbrev order : SwapArgs Fixed
order = record {
  from_token_symbol = "USDT";
  to_token_symbol = "CAKE";
  amount_tokens = "5";
  slippage_pct = none;
}

abbrev bought : SwapResult Fixed
bought = record {
  tx_hash = "0x1";
  from_amount_tokens = "5";
  to_amount_tokens = "2";
  explorer = "bsc";
  provider = "p";
  executed_price_usd = usd 0;
}

execute_swap-ok_example : (swap_env.enable_execution ≡ true) × Happened swap_env order bought
unfolding execute_swap map_ok or_throw parse_output
execute_swap-ok_example = execute_swap-ok swap_env order bought refl

-- `{"b": 1, "a": 2}` and `{"a": 2, "b": 1}`
abbrev b_first : Value Fixed
b_first = object 0 (field (98 ∷ []) (number (usd 1)) (field (97 ∷ []) (number (usd 2)) no_fields))

abbrev a_first : Value Fixed
a_first = object 0 (field (97 ∷ []) (number (usd 2)) (field (98 ∷ []) (number (usd 1)) no_fields))

abbrev shown : Json Fixed → Option String
shown j = some "shown"

b_not_a : ◌≢◌ {A = List ℕ} (98 ∷ []) (97 ∷ [])
b_not_a e = ground (arith, e)

canonicalize-Reordered_example : canonicalize shown b_first ≡ canonicalize shown a_first
canonicalize-Reordered_example =
    canonicalize-Reordered shown b_first a_first (objects (fields_swap b_not_a))

-- `[o, o]`, where `o` is `{"a": 2}`
abbrev twice : Fields Fixed
twice = field (97 ∷ []) (number (usd 2)) no_fields
