-- ===== src/Cognition/Committee.antt =====
-- `runCommitteeSession` of src/lib/services/cognition/committeeSession.ts: what the analysts' settled
-- calls come to, and the loop that numbers and stores the session.
pub mod Numbers
pub mod Fallback
use Prim.Native.Nat.{max}
use neurodegen.Common.{
  ℕ, zero, suc, ◌+◌, String, Bool, true, false, Option, none, some, List, [], ◌∷◌,
}
use neurodegen.Common.Number.{Number}
use neurodegen.Common.Calls.{Result, ok, err, Act, perform}
use neurodegen.Types.{ActionRecommendation, RiskLevel}
use neurodegen.Allowlist.{Table}
use neurodegen.Cognition.{RegimeLabel, NarrativeOutput, QuantOutput, neutral}
use neurodegen.Cognition.Dissent.{DissentResult, ParseStatus, compute_dissent}
use neurodegen.Cognition.Rails.{ParsedRisk, RiskOutput, enforce_safety_rails}
use neurodegen.Cognition.FinalAction.{ActionConfig, ActionInputs, derive_final_action}

-- An analyst's result: its parsed output, and `call.parseSuccess`.
pub record Analysis (A : Type 0) : Type 0 where
  pub parsed : A
  pub parse_success : Bool

-- `Promise.allSettled`: an error is the reason.
abbrev pub Settled : Type 0 → Type 0
Settled A = Result String (Analysis A)

-- `buildSyntheticQuant()`
pub synthetic_quant : Analysis QuantOutput
synthetic_quant = record {
  parsed = record {
    dominant_direction = neutral;
    liquidity_adequate = false;
    funding_rate_warning = false;
    recommended_token = none;
  };
  parse_success = false;
}

abbrev quant_of : Settled QuantOutput → Analysis QuantOutput
quant_of (ok a) = a
quant_of (err reason) = synthetic_quant

module _ {W : Type 0} ⦃num : Number W⦄ where
  -- `buildSyntheticNarrative()`
  pub synthetic_narrative : Analysis (NarrativeOutput W)
  synthetic_narrative = record {
    parsed = record {
      narrative_summary = "narrative analyst unavailable - synthetic neutral fallback";
      kol_mentioned_tokens = [];
      sentiment_score = num.hundredths 0;
      confidence_level = num.hundredths 0;
      direction = neutral;
      flagged_anomalies = "NARRATIVE_ANALYST_UNREACHABLE" ∷ [];
      top_thesis_token = none;
    };
    parse_success = false;
  }

  abbrev narrative_of : Settled (NarrativeOutput W) → Analysis (NarrativeOutput W)
  narrative_of (ok a) = a
  narrative_of (err reason) = synthetic_narrative

  dissent_of : Analysis (NarrativeOutput W) → Analysis QuantOutput → DissentResult W
  dissent_of n q =
      compute_dissent n.parsed.direction q.parsed.dominant_direction
        (some (record { narrative_ok = n.parse_success; quant_ok = q.parse_success }))

  -- From the settled analyses and the classifier's parsed answer to the final action. The classifier
  -- is called with the analyses and the dissent; its answer is a function of both.
  pub deliberate :
      ActionConfig W
      → W
      → (String → String)
      → List String
      → Table
      → RegimeLabel
      → RiskLevel
      → (Analysis (NarrativeOutput W) → Analysis QuantOutput → DissentResult W → ParsedRisk W)
      → Settled (NarrativeOutput W)
      → Settled QuantOutput
      → ActionRecommendation W
  unfolding dissent_of
  deliberate cfg min_confidence to_upper symbols addresses regime risk_level classify settled_n
        settled_q =
      let n = narrative_of settled_n in
      let q = quant_of settled_q in
      let dissent = dissent_of n q in
      let parsed = classify n q dissent in
      derive_final_action cfg (record {
        regime = regime;
        risk_level = risk_level;
        quant = q.parsed;
        dissent = dissent;
        risk = enforce_safety_rails min_confidence to_upper parsed dissent q.parsed symbols;
        token_addresses = addresses;
        to_upper = to_upper;
      })

-- `sessionWithoutHash`: what the number is put into. `E` is all else that the session records.
pub record SessionCore (W E : Type 0) : Type 0 where
  pub session_id : String
  pub session_number : ℕ
  pub created_at : ℕ
  pub final_action : ActionRecommendation W
  pub evidence : E

pub record Session (W E : Type 0) : Type 0 where
  pub core : SessionCore W E
  pub reasoning_hash : String
  pub attestation_commit_tx : Option String

-- `SessionNumberCollisionError`, or any other error.
pub data InsertError : Type 0 where
  collision : InsertError
  other : String → InsertError

pub data StoreCall (W E : Type 0) : Type 0 where
  next_number : StoreCall W E
  insert : Session W E → StoreCall W E

pub record Store (W E : Type 0) : Type 0 where
  pub next : List (StoreCall W E) → Result String ℕ
  pub insert : List (StoreCall W E) → Result InsertError (Unit {0})

-- `.catch(() => d)`
abbrev number_or : ℕ → Result String ℕ → ℕ
number_or d (ok n) = n
number_or d (err _) = d

-- `hash` is `keccak256(stringToBytes(canonicalize(core)))`; `core` is the session but for its number.
module _ {W E : Type 0} (hash : SessionCore W E → String) (core : SessionCore W E)
    (store : Store W E) where
  -- `buildCommitteeSession`, as far as it depends on the number
  pub build_committee_session : ℕ → Session W E
  build_committee_session n =
      let numbered = record core { session_number = n } in
      record { core = numbered; reasoning_hash = hash numbered; attestation_commit_tx = none }

  -- After an insert, with `left` further attempts and the loop that makes them.
  after_insert :
      ℕ
      → (ℕ → Act (StoreCall W E) (Option (Session W E)))
      → ℕ
      → Result InsertError (Unit {0})
      → Act (StoreCall W E) (Option (Session W E))
  after_insert left again n (ok _) t = (some (build_committee_session n), t)
  after_insert left again n (err (other e)) t = (some (build_committee_session n), t)
  after_insert zero again n (err collision) t = (some (build_committee_session n), t)
  after_insert (suc left) again n (err collision) t =
      let (reply, t₁) = perform next_number store.next t in
      again (max (number_or (n + 1) reply) (n + 1)) t₁

  -- The loop: `attempts` are left. With none left `session` is still null.
  store_session : ℕ → ℕ → Act (StoreCall W E) (Option (Session W E))
  store_session zero n t = (none, t)
  store_session (suc left) n t =
      let (reply, t₁) = perform (StoreCall.insert (build_committee_session n)) store.insert t in
      after_insert left (store_session left) n reply t₁

  pub number_and_store : Act (StoreCall W E) (Option (Session W E))
  number_and_store t =
      let (reply, t₁) = perform next_number store.next t in store_session 5 (number_or 1 reply) t₁
