-- ===== src/Twak/Swap.antt =====
-- `resolveSwapToken`, `executeSwap` and `payX402` of src/lib/clients/twakClient.ts: what is run and
-- what a call gets. `toUpperCase`, `getAddress` of viem, `toFixed`, `charCodeAt` and the texts of a
-- number are parameters, and so is the process.
use Prim.Native.String.{◌++◌ as text_append}
use text.Mathlib.Text.{◌==◌ as str_eq}
use neurodegen.Common.{
  ℕ, zero, suc, ◌≡◌, refl, String, Bool, true, false, not, ◌⊎◌, inl, inr, Option, none, some, List,
  [], ◌∷◌, arith, get_or, if◌then◌else◌, Bool-cases, ap, sym, ◌∙◌,
}
use neurodegen.Common.Number.{Number}
use neurodegen.Common.Calls.{Result, ok, err}
use neurodegen.Types.{SwapResult}
use neurodegen.Allowlist.{Table, address_of, is_address}
use neurodegen.Twak.{SpawnResult, TwakError, blocked, or_throw, parsed, parse_output}
use neurodegen.Twak.Hash.{synthetic_tx_hash}

-- The fields of `RawSwapResult` that are used, and of `RawX402Result`.
pub record RawSwapResult : Type 0 where
  pub hash : String
  pub input : String
  pub output : String
  pub explorer : String
  pub provider : String

pub record X402Payment : Type 0 where
  pub proof_header : String
  pub settlement_tx_hash : String

pub record SwapArgs (W : Type 0) : Type 0 where
  pub from_token_symbol : String
  pub to_token_symbol : String
  pub amount_tokens : String
  pub slippage_pct : Option W

-- `max_slippage_percent` is `MAX_SLIPPAGE_PCT * 100`; `get_address` is `none` where it throws;
-- `less_half_percent` is `(Number(s) * 0.995).toString()`.
pub record SwapEnv (W : Type 0) : Type 0 where
  pub enable_execution : Bool
  pub dry_run_mode : Bool
  pub max_slippage_percent : W
  pub allowlist : Table
  pub to_upper : String → String
  pub get_address : String → Option String
  pub to_fixed4 : W → String
  pub less_half_percent : String → String
  pub units : String → List ℕ
  pub now_text : String
  pub atomic_text : ℕ → String
  pub run : List String → Result TwakError SpawnResult
  pub parse_swap : String → Option RawSwapResult
  pub parse_payment : String → Option X402Payment

abbrev nth_text : List String → ℕ → String
nth_text [] n = ""
nth_text (t ∷ ts) zero = t
nth_text (t ∷ ts) (suc n) = nth_text ts n

abbrev hex_digits : List String
hex_digits =
    "0" ∷ "1" ∷ "2" ∷ "3" ∷ "4" ∷ "5" ∷ "6" ∷ "7" ∷ "8" ∷ "9" ∷ "a" ∷ "b" ∷ "c" ∷ "d" ∷ "e" ∷ "f"
    ∷ []

abbrev digits_text : List ℕ → String
digits_text [] = ""
digits_text (d ∷ ds) = text_append (nth_text hex_digits d) (digits_text ds)

abbrev joined : List String → String
joined [] = ""
joined (t ∷ ts) = text_append t (joined ts)

module _ {W : Type 0} ⦃num : Number W⦄ (s : SwapEnv W) where
  abbrev pub hash_text : String → String
  hash_text seed = text_append "0x" (digits_text (synthetic_tx_hash (s.units seed)))

  -- `if (addr && …) { try { return getAddress(addr) } catch { return addr } } return symbol`
  abbrev checksummed : String → Option String → String
  checksummed symbol none = symbol
  checksummed symbol (some addr) =
      if is_address addr then get_or (s.get_address addr) addr else symbol

  unfoldable pub resolve_swap_token : String → String
  resolve_swap_token symbol =
      let upper = s.to_upper symbol in
      if str_eq upper "BNB" then "BNB" else checksummed symbol (address_of upper s.allowlist)

  unfoldable pub swap_args : SwapArgs W → List String
  swap_args a =
      "swap"
      ∷ a.amount_tokens
      ∷ resolve_swap_token a.from_token_symbol
      ∷ resolve_swap_token a.to_token_symbol
      ∷ "--chain"
      ∷ "bsc"
      ∷ "--slippage"
      ∷ s.to_fixed4 (get_or a.slippage_pct s.max_slippage_percent)
      ∷ "--json"
      ∷ []

  unfoldable pub dry_swap : SwapArgs W → SwapResult W
  dry_swap a =
      let seed = joined (
        a.from_token_symbol ∷ ":" ∷ a.to_token_symbol ∷ ":" ∷ a.amount_tokens ∷ ":" ∷ s.now_text
        ∷ []) in
      record {
        tx_hash = hash_text seed;
        from_amount_tokens = a.amount_tokens;
        to_amount_tokens = s.less_half_percent a.amount_tokens;
        explorer = "https://bscscan.com/tx/0xdryrun";
        provider = "dry-run";
        executed_price_usd = num.of_nat 0;
      }

  abbrev swap_of : RawSwapResult → SwapResult W
  swap_of raw = record {
    tx_hash = raw.hash;
    from_amount_tokens = raw.input;
    to_amount_tokens = raw.output;
    explorer = raw.explorer;
    provider = raw.provider;
    executed_price_usd = num.of_nat 0;
  }

  unfoldable pub map_ok : {A B : Type 0} → (A → B) → Result TwakError A → Result TwakError B
  map_ok f (ok a) = ok (f a)
  map_ok f (err e) = err e

  -- With the processes that are started.
  unfoldable pub execute_swap : SwapArgs W → List (List String) × Result TwakError (SwapResult W)
  execute_swap a =
      if not s.enable_execution
      then ([], err blocked)
      else if s.dry_run_mode
      then ([], ok (dry_swap a))
      else (
        swap_args a ∷ [],
        map_ok swap_of (parse_output s.parse_swap (or_throw (s.run (swap_args a)))),
      )

  unfoldable pub payment_args : String → ℕ → List String
  payment_args url max_payment_atomic =
      "x402"
      ∷ "request"
      ∷ url
      ∷ "--max-payment"
      ∷ s.atomic_text max_payment_atomic
      ∷ "--yes"
      ∷ "--json"
      ∷ []

  unfoldable pub pay_x402 : String → ℕ → List (List String) × Result TwakError X402Payment
  pay_x402 url max_payment_atomic =
      if s.dry_run_mode
      then (
        [],
        ok (record {
          proof_header = "dry-run-x402-proof";
          settlement_tx_hash = hash_text (text_append "x402:" url);
        }),
      )
      else (
        payment_args url max_payment_atomic ∷ [],
        parse_output s.parse_payment (or_throw (s.run (payment_args url max_payment_atomic))),
      )

  -- The process ended with code 0 and printed what parses to `raw`.
  abbrev pub Answers : {A : Type 0} → (String → Option A) → List String → A → Type 0
  Answers parse args raw =
      (r : SpawnResult) × (s.run args ≡ ok r) × (r.exit_code ≡ 0) × (parse r.stdout ≡ some raw)

  parsed-ok :
      {A : Type 0} (out : String) (o : Option A) (raw : A) → parsed out o ≡ ok raw → o ≡ some raw
  parsed-ok out none raw h = ground (arith, h)
  parsed-ok out (some a) raw h = ground (arith, h)

  parse_output-ok :
      {A : Type 0} (parse : String → Option A) (o : Result TwakError String) (raw : A)
      → parse_output parse o ≡ ok raw
      → (out : String) × (o ≡ ok out) × (parse out ≡ some raw)
  unfolding parse_output
  parse_output-ok parse (err e) raw h = ground (arith, h)
  parse_output-ok parse (ok out) raw h = (out, refl, parsed-ok out (parse out) raw h)

  or_throw-ok :
      (o : Result TwakError SpawnResult) (out : String)
      → or_throw o ≡ ok out
      → (r : SpawnResult) × (o ≡ ok r) × (r.exit_code ≡ 0) × (r.stdout ≡ out)
  unfolding or_throw
  or_throw-ok (err e) out h = ground (arith, h)
  or_throw-ok (ok r) out h = (r, refl, ground (arith, h), ground (arith, h))

  map_ok-ok :
      {A B : Type 0} (f : A → B) (o : Result TwakError A) (b : B)
      → map_ok f o ≡ ok b
      → (a : A) × (o ≡ ok a) × (f a ≡ b)
  unfolding map_ok
  map_ok-ok f (ok a) b h = (a, refl, ground (arith, h))
  map_ok-ok f (err e) b h = ground (arith, h)

  answered :
      {A : Type 0} (parse : String → Option A) (args : List String) (raw : A)
      → parse_output parse (or_throw (s.run args)) ≡ ok raw
      → Answers parse args raw
  answered parse args raw h =
      let (out, threw, read) = parse_output-ok parse (or_throw (s.run args)) raw h in
      let (r, ran, ended, same) = or_throw-ok (s.run args) out threw in
      (r, ran, ended, ap parse same ∙ read)

  execute_swap-dry :
      (a : SwapArgs W)
      → s.enable_execution ≡ true
      → s.dry_run_mode ≡ true
      → execute_swap a ≡ ([], ok (dry_swap a))
  unfolding execute_swap
  execute_swap-dry a on dry = rw (on, dry) refl

  execute_swap-live :
      (a : SwapArgs W)
      → s.enable_execution ≡ true
      → s.dry_run_mode ≡ false
      → execute_swap a ≡ (
        swap_args a ∷ [],
        map_ok swap_of (parse_output s.parse_swap (or_throw (s.run (swap_args a)))),
      )
  unfolding execute_swap
  execute_swap-live a on live = rw (on, live) refl

  ok_inj : {A : Type 0} (x y : A) → ◌≡◌ {A = Result TwakError A} (ok x) (ok y) → x ≡ y
  ok_inj x y h = ground (arith, h)

  abbrev pub Happened : SwapArgs W → SwapResult W → Type 0
  Happened a r =
      ((s.dry_run_mode ≡ true) × ((execute_swap a).0 ≡ []) × (r ≡ dry_swap a))
      ⊎ ((s.dry_run_mode ≡ false)
          × ((execute_swap a).0 ≡ swap_args a ∷ [])
          × ((raw : RawSwapResult) × Answers s.parse_swap (swap_args a) raw × (swap_of raw ≡ r)))

  -- A swap that comes back is one of two: in a dry run no process was started; otherwise exactly
  -- one was, for this swap, it ended with code 0, and the transaction is the one that it printed.
  -- Neither happens while execution is disabled.
  pub execute_swap-ok :
      (a : SwapArgs W) (r : SwapResult W)
      → (execute_swap a).1 ≡ ok r
      → (s.enable_execution ≡ true) × Happened a r
  unfolding execute_swap
  execute_swap-ok a r h = elim (Bool-cases s.enable_execution) [
    | inr off ↦ ground (arith, h, off)
    | inl on ↦ (
      on,
      elim (Bool-cases s.dry_run_mode) [
        | inl dry ↦
            let done = execute_swap-dry a on dry in
            inl (dry, ap (λ x. x.0) done, ok_inj r _ (sym h ∙ ap (λ x. x.1) done))
        | inr live ↦
            let done = execute_swap-live a on live in
            let (raw, read, same) = map_ok-ok swap_of _ r (sym (ap (λ x. x.1) done) ∙ h) in
            inr
              (live, ap (λ x. x.0) done, (raw, answered s.parse_swap (swap_args a) raw read, same))
      ],
    )
  ]
