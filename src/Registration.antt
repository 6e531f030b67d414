-- ===== src/Registration.antt =====
-- src/lib/services/competitionRegistration.ts, with `worker_state` (src/lib/queries/workerState.ts)
-- and TWAK's `register` as services. The texts of issues and refusals are constructors.
pub mod Laws
use neurodegen.Common.{
  ℕ, String, Bool, true, false, not, ◌&&◌, Option, none, some, List, [], ◌∷◌, ◌++◌, ltb, leb,
  is_some, if◌then◌else◌,
}
use neurodegen.Common.Calls.{Result, ok, err, Act, perform, ◌>>=◌}

-- `registered` and `dryRun` are constants and left out.
pub record CompetitionRecord : Type 0 where
  pub tx_hash : String
  pub participant : String
  pub contract : String
  pub registered_at : ℕ
  pub already_registered : Bool

-- What `twak compete register` answers.
pub record RegisterReply : Type 0 where
  pub tx_hash : String
  pub participant : String
  pub already_registered : Bool

pub data RegistrationCall : Type 0 where
  get_worker_state register : RegistrationCall
  set_worker_state : CompetitionRecord → RegistrationCall

pub record RegistrationServices : Type 0 where
  pub get_state : List RegistrationCall → Result String (Option CompetitionRecord)
  pub register_agent : List RegistrationCall → Result String RegisterReply
  pub set_state : List RegistrationCall → Result {0, 0} String Unit

-- A deadline or a start that `Date.parse` does not read (NaN) is `none`.
pub record RegistrationSettings : Type 0 where
  pub dry_run_mode : Bool
  pub contract_address : String
  pub registration_deadline : Option ℕ
  pub trading_window_start : Option ℕ

pub data EnsureResult : Type 0 where
  cached fresh : CompetitionRecord → EnsureResult
  deadline_passed dry_run_skipped : EnsureResult
  twak_failed : String → EnsureResult

pub data Issue : Type 0 where
  open_in_dry_run open_unregistered : Issue

-- `.catch(() => null)`
abbrev pub or_null : Result String (Option CompetitionRecord) → Option CompetitionRecord
or_null (ok o) = o
or_null (err _) = none

abbrev past_deadline : Option ℕ → ℕ → Bool
past_deadline none now = false
past_deadline (some deadline) now = ltb deadline now

abbrev window_open : Option ℕ → ℕ → Bool
window_open none now = false
window_open (some begins) now = leb begins now

module _ (services : RegistrationServices) (settings : RegistrationSettings) (now : ℕ) where
  unfoldable pub record_from : RegisterReply → CompetitionRecord
  record_from reply = record {
    tx_hash = reply.tx_hash;
    participant = reply.participant;
    contract = settings.contract_address;
    registered_at = now;
    already_registered = reply.already_registered;
  }

  unfoldable pub after_save : CompetitionRecord → Result {0, 0} String Unit → EnsureResult
  after_save r (ok _) = fresh r
  after_save r (err e) = twak_failed e

  unfoldable pub after_register : Result String RegisterReply → Act RegistrationCall EnsureResult
  after_register (err e) t = (twak_failed e, t)
  after_register (ok reply) t =
      let r = record_from reply in
      let (saved, t') = perform (set_worker_state r) services.set_state t in
      (after_save r saved, t')

  unfoldable pub after_lookup : Option CompetitionRecord → Act RegistrationCall EnsureResult
  after_lookup (some r) t = (cached r, t)
  after_lookup none t =
      if settings.dry_run_mode
      then (dry_run_skipped, t)
      else if past_deadline settings.registration_deadline now
      then (deadline_passed, t)
      else (perform register services.register_agent >>= after_register) t

  unfoldable pub ensure_competition_registration : Act RegistrationCall EnsureResult
  ensure_competition_registration t =
      let (found, t') = perform get_worker_state services.get_state t in
      after_lookup (or_null found) t'

  unfoldable pub preflight_competition_state : Act RegistrationCall (List Issue)
  preflight_competition_state t =
      let is_open = window_open settings.trading_window_start now in
      let (found, t') = perform get_worker_state services.get_state t in
      let dry : List Issue =
        if is_open && settings.dry_run_mode then open_in_dry_run ∷ [] else [] in
      let missing : List Issue =
        if is_open && not (is_some (or_null found)) then open_unregistered ∷ [] else [] in
      (dry ++ missing, t')

-- One start of the worker for each entry.
unfoldable pub ensure_all :
    RegistrationServices
    → List (RegistrationSettings × ℕ)
    → Act RegistrationCall (List EnsureResult)
ensure_all services [] t = ([], t)
ensure_all services ((settings, now) ∷ rest) t =
    let (r, t') = ensure_competition_registration services settings now t in
    let (rs, t'') = ensure_all services rest t' in (r ∷ rs, t'')
