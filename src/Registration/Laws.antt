-- ===== src/Registration/Laws.antt =====
-- Registration is done once, and what it leaves behind.
use neurodegen.Common.{
  ℕ, suc, String, ◌≡◌, refl, ap, Bool, true, false, Option, none, some, List, [], ◌∷◌, arith, All,
  length, if◌then◌else◌,
}
use neurodegen.Common.Calls.{Result, ok, err}
use neurodegen.Registration.{
  CompetitionRecord, RegistrationCall, get_worker_state, set_worker_state, RegistrationServices,
  RegistrationSettings, EnsureResult, cached, fresh, ensure_competition_registration, after_lookup,
  after_register, after_save, record_from, preflight_competition_state, ensure_all,
}

abbrev is_ok : {A : Type 0} → Result String A → Bool
is_ok (ok _) = true
is_ok (err _) = false

-- The record that the table keeps after the calls: that of the newest write that went through.
abbrev pub kept : RegistrationServices → List RegistrationCall → Option CompetitionRecord
kept services [] = none
kept services (set_worker_state r ∷ t) =
    let older = kept services t in if is_ok (services.set_state t) then some r else older
kept services (_ ∷ t) = kept services t

-- The table's reads give back what was written, and do not fail.
abbrev pub Remembers : RegistrationServices → Type 0
Remembers services = (t : List RegistrationCall) → services.get_state t ≡ ok (kept services t)

abbrev pub registered_record : EnsureResult → Option CompetitionRecord
registered_record (cached r) = some r
registered_record (fresh r) = some r
registered_record _ = none

-- The calls that register or write.
abbrev pub writes : List RegistrationCall → ℕ
writes [] = 0
writes (get_worker_state ∷ t) = writes t
writes (_ ∷ t) = suc (writes t)

module _ (services : RegistrationServices) (table : Remembers services) where
  -- What a start leaves: a registration that is reported is one that is kept.
  ensure-kept :
      (settings : RegistrationSettings) (now : ℕ) (t : List RegistrationCall)
      (r : CompetitionRecord)
      → let (result, t') = ensure_competition_registration services settings now t in
        registered_record result ≡ some r → kept services t' ≡ some r
  unfolding ensure_competition_registration after_lookup after_register after_save record_from
  ensure-kept settings now t r h = ground (arith, table t)

  ensure-cached :
      (settings : RegistrationSettings) (now : ℕ) (t : List RegistrationCall)
      (r : CompetitionRecord)
      → kept services t ≡ some r
      → ensure_competition_registration services settings now t ≡ (cached r, get_worker_state ∷ t)
  unfolding ensure_competition_registration after_lookup
  ensure-cached settings now t r h = simp (table t, h)

  ensure_all-kept :
      (later : List (RegistrationSettings × ℕ)) (t : List RegistrationCall) (r : CompetitionRecord)
      → kept services t ≡ some r
      → let (results, t') = ensure_all services later t in
        All (λ x. x ≡ cached r) results × (length results ≡ length later) × (writes t' ≡ writes t)
  unfolding ensure_all
  ensure_all-kept [] t r k = (tt, refl, refl)
  ensure_all-kept ((settings, now) ∷ rest) t r k =
      let (all_cached, lengths, same) = ensure_all-kept rest (get_worker_state ∷ t) r k in
      rw (ensure-cached settings now t r k) ((refl, all_cached), ap suc lengths, same)

  -- Once a start has reported a registration, every later start, whatever its settings and its time,
  -- reports the same record from the table and neither registers nor writes again, when the table's
  -- reads give back what was written.
  pub ensure_all-cached :
      (settings : RegistrationSettings) (now : ℕ) (t : List RegistrationCall)
      (r : CompetitionRecord) (later : List (RegistrationSettings × ℕ))
      → let (result, t') = ensure_competition_registration services settings now t in
        let (results, t'') = ensure_all services later t' in
        registered_record result ≡ some r
        → All (λ x. x ≡ cached r) results
          × (length results ≡ length later)
          × (writes t'' ≡ writes t')
  ensure_all-cached settings now t r later h =
      ensure_all-kept later _ r (ensure-kept settings now t r h)

  -- A registration that a start has reported is no issue for the check that follows it, outside dry
  -- run.
  pub ensure-preflight :
      (settings : RegistrationSettings) (now later : ℕ) (t : List RegistrationCall)
      (r : CompetitionRecord)
      → settings.dry_run_mode ≡ false
      → let (result, t') = ensure_competition_registration services settings now t in
        registered_record result ≡ some r
        → (preflight_competition_state services settings later t').0 ≡ []
  unfolding preflight_competition_state
  ensure-preflight settings now later t r dry h =
      let k = ensure-kept settings now t r h in
      ground (arith, dry, table (ensure_competition_registration services settings now t).1, k)
