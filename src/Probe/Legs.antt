-- ===== src/Probe/Legs.antt =====
-- The calls of `fireProbe`: two legs in order, and the row of the first.
use text.Mathlib.Text.{◌==◌ as str_eq}
use text.Mathlib.TextEquality.{eq_iff}
use neurodegen.Common.{
  String, ◌≡◌, refl, ap, ◌⊎◌, inl, inr, true, false, not, ◌&&◌, ◌||◌, ◌∙◌, arith, get_or, Option,
  none, some, List, [], ◌∷◌, ◌++◌, Bool-cases,
}
use neurodegen.Common.Number.{Number}
use neurodegen.Common.Calls.{ok, err}
use neurodegen.Types.{PositionState, SwapResult, managed, closed, probe_trade_unwind}
use neurodegen.Services.{
  Call, execute_swap, insert_position, update_position, broadcast_probe, Services, PositionUpdate,
  Reply, shown, literal,
}
use neurodegen.Allowlist.{address_of}
use neurodegen.Probe.{
  ProbeSettings, id_if_stored, ProbeResult, not_fired, forward_request, reverse_request,
  probe_position, store_at, store_forward, closing_update, close_stored, finish, after_forward,
  fire_probe,
}

module _ {W : Type 0} ⦃num : Number W⦄ (s : ProbeSettings W) (services : Services W) where
  -- The row of the forward leg, written after the calls `t`, and the id that is kept: an open position
  -- under that id if the write succeeds, none if it fails, and no row without an address.
  pub data Stored (forward : SwapResult W) (t : List (Call W))
      : List (Call W) → Option String → Type 0 where
    no_row :
        get_or (address_of (s.to_upper s.probe_trade_to_symbol) s.allowlist) "" ≡ ""
        → Stored forward t [] none
    lost :
        (p : PositionState W) (e : String)
        → services.insert t ≡ err e
        → Stored forward t (insert_position p ∷ []) none
    kept :
        (p : PositionState W)
        → services.insert t ≡ ok tt
        → p.status ≡ managed
        → p.twak_tx_hash ≡ forward.tx_hash
        → Stored forward t (insert_position p ∷ []) (some p.position_id)

  -- The update that closes the row, if there is one to close.
  pub data Unwound : List (Call W) → Option String → Type 0 where
    nothing : (id : Option String) → (id ≡ none) ⊎ (id ≡ some "") → Unwound [] id
    unwound :
        (id : String) (u : PositionUpdate W)
        → u.status ≡ closed
        → u.exit_reason ≡ some probe_trade_unwind
        → Unwound (update_position id u ∷ []) (some id)

  -- The two swaps: the second one asks for the reverse of the first, for what the first one gave.
  abbrev there : Call W
  there = execute_swap (record {
    from_token_symbol = s.probe_trade_from_symbol;
    to_token_symbol = s.probe_trade_to_symbol;
    amount_tokens = shown s.probe_trade_usd;
    slippage_pct = none;
  })

  abbrev back : SwapResult W → Call W
  back forward = execute_swap (record {
    from_token_symbol = s.probe_trade_to_symbol;
    to_token_symbol = s.probe_trade_from_symbol;
    amount_tokens = literal forward.to_amount_tokens;
    slippage_pct = none;
  })

  -- The result, the calls before, and the calls after, newest first.
  pub data Probed (r : ProbeResult) (t : List (Call W)) : List (Call W) → Type 0 where
    untouched :
        s.enable_probe_trade && (s.enable_execution || s.dry_run_mode) ≡ false
        → r.fired ≡ false
        → r.forward_tx_hash ≡ none
        → r.position_id ≡ none
        → Probed r t t
    forward_refused :
        (e : String)
        → services.swap t ≡ err e
        → r.fired ≡ false
        → r.forward_tx_hash ≡ none
        → r.position_id ≡ none
        → Probed r t (there ∷ t)
    reverse_refused :
        (forward : SwapResult W) (e : String) (rows : List (Call W))
        → services.swap t ≡ ok forward
        → services.swap (rows ++ there ∷ t) ≡ err e
        → r.fired ≡ false
        → r.forward_tx_hash ≡ some forward.tx_hash
        → r.reverse_tx_hash ≡ none
        → Stored forward (there ∷ t) rows r.position_id
        → Probed r t (broadcast_probe forward.tx_hash none ∷ back forward ∷ (rows ++ there ∷ t))
    round_trip :
        (forward reverse : SwapResult W) (rows closing : List (Call W))
        → services.swap t ≡ ok forward
        → services.swap (rows ++ there ∷ t) ≡ ok reverse
        → r.fired ≡ true
        → r.forward_tx_hash ≡ some forward.tx_hash
        → r.reverse_tx_hash ≡ some reverse.tx_hash
        → Stored forward (there ∷ t) rows r.position_id
        → Unwound closing r.position_id
        → Probed r t (
            broadcast_probe forward.tx_hash (some reverse.tx_hash)
            ∷ (closing ++ back forward ∷ (rows ++ there ∷ t)))

  insert-Stored :
      (forward : SwapResult W) (p : PositionState W) (reply : Reply Unit) (t : List (Call W))
      → services.insert t ≡ reply
      → p.status ≡ managed
      → p.twak_tx_hash ≡ forward.tx_hash
      → Stored forward t (insert_position p ∷ []) (id_if_stored p.position_id reply)
  insert-Stored forward p (ok _) t same is_open of_swap = kept p same is_open of_swap
  insert-Stored forward p (err e) t same is_open of_swap = lost p e same

  -- What storing the row does: its calls, and the id that is kept.
  store_at-Stored :
      (forward : SwapResult W) (address : Option String) (t : List (Call W))
      → address_of (s.to_upper s.probe_trade_to_symbol) s.allowlist ≡ address
      → let out = store_at s services forward address t in
        (rows : List (Call W)) × Stored forward t rows out.0 × (out.1 ≡ rows ++ t)
  unfolding store_at probe_position
  store_at-Stored forward none t same = ([], no_row (ap (λ a. get_or a "") same), refl)
  store_at-Stored forward (some address) t same = elim (Bool-cases (str_eq address "")) [
    | inl e ↦ rw e ([], no_row (ap (λ a. get_or a "") same ∙ (eq_iff address "").0 e), refl)
    | inr e ↦ rw e (
      _ ∷ [],
      insert-Stored forward
          (probe_position s services forward (services.random_uuid t) address (services.now t))
          (services.insert t) t refl refl refl,
      refl,
    )
  ]

  close_stored-Unwound :
      (forward reverse : SwapResult W) (id : Option String) (t : List (Call W))
      → (closing : List (Call W)) × Unwound closing id
        × (close_stored s services forward reverse id t ≡ closing ++ t)
  unfolding close_stored closing_update
  close_stored-Unwound forward reverse none t = ([], nothing none (inl refl), refl)
  close_stored-Unwound forward reverse (some id) t = elim (Bool-cases (str_eq id "")) [
    | inl e ↦ rw e ([], nothing (some id) (inr (ap some ((eq_iff id "").0 e))), refl)
    | inr e ↦ rw e (_ ∷ [], unwound id _ refl refl, refl)
  ]

  finish-Probed :
      (forward : SwapResult W) (reply : Reply (SwapResult W)) (id : Option String)
      (rows t : List (Call W))
      → services.swap t ≡ ok forward
      → services.swap (rows ++ there ∷ t) ≡ reply
      → Stored forward (there ∷ t) rows id
      → let out = finish s services forward id reply (back forward ∷ (rows ++ there ∷ t)) in
        Probed out.0 t out.1
  unfolding finish
  finish-Probed forward (err e) id rows t first second stored =
      reverse_refused forward e rows first second refl refl refl stored
  finish-Probed forward (ok reverse) id rows t first second stored =
      let (closing, closes, e) =
        close_stored-Unwound forward reverse id (back forward ∷ (rows ++ there ∷ t)) in
      rw e (round_trip forward reverse rows closing first second refl refl refl stored closes)

  after_forward-Probed :
      (reply : Reply (SwapResult W)) (t : List (Call W))
      → services.swap t ≡ reply
      → let out = after_forward s services reply (there ∷ t) in Probed out.0 t out.1
  unfolding after_forward store_forward not_fired reverse_request
  after_forward-Probed (err e) t first = forward_refused e first refl refl refl
  after_forward-Probed (ok forward) t first =
      let (rows, stored, same) = store_at-Stored forward _ (there ∷ t) refl in
      rw same (finish-Probed forward _ _ rows t first refl stored)

  -- Whatever the services answer, a probe does nothing, where it is switched off or nothing may be
  -- executed; or stops at a forward swap that is refused; or goes on to ask for the swap back of what
  -- the forward swap gave. It reports that it fired exactly when the swap back succeeds, with the hashes
  -- that the swaps answered. A row that was stored is open and carries the reported id and the forward
  -- hash; after a swap back that succeeds it is closed under that id, and after one that is refused it
  -- is left open.
  pub fire_probe-Probed :
      (t : List (Call W)) → Probed (fire_probe s services t).0 t (fire_probe s services t).1
  unfolding fire_probe not_fired forward_request
  fire_probe-Probed t = elim (Bool-cases s.enable_probe_trade) [
    | inr off ↦ simp off (untouched (ground (arith, off)) refl refl refl)
    | inl on ↦ elim (Bool-cases (not s.enable_execution && not s.dry_run_mode)) [
      | inl idle ↦ simp (on, idle) (untouched (ground (arith, idle)) refl refl refl)
      | inr live ↦ simp (on, live) (after_forward-Probed (services.swap t) t refl)
    ]
  ]
