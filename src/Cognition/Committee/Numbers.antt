-- ===== src/Cognition/Committee/Numbers.antt =====
-- The numbers under which a session is tried.
use neurodegen.Common.{
  ℕ, suc, ◌+◌, ◌≤◌, ◌<◌, String, ◌≡◌, Option, some, List, [], ◌∷◌, arith, length,
}
use neurodegen.Cognition.Committee.{
  SessionCore, Session, StoreCall, next_number, Store, build_committee_session,
}

-- The numbers of the inserts, newest first.
abbrev pub numbers : {W E : Type 0} → List (StoreCall W E) → List ℕ
numbers [] = []
numbers (next_number ∷ t) = numbers t
numbers (StoreCall.insert s ∷ t) = s.core.session_number ∷ numbers t

-- From `n`, at most `k` attempts under rising numbers, the last of them `m`; what was tried before and
-- after, newest first.
pub data Attempts : ℕ → ℕ → ℕ → List ℕ → List ℕ → Type 0 where
  last : (k n : ℕ) (before : List ℕ) → Attempts (suc k) n n before (n ∷ before)
  retried :
      {k m : ℕ} (n n' : ℕ) {before after : List ℕ}
      → n < n'
      → Attempts k n' m (n ∷ before) after
      → Attempts (suc k) n m before after

pub length-Attempts :
    {k n m : ℕ} {before after : List ℕ}
    → Attempts k n m before after
    → length after ≤ length before + k
length-Attempts (last k n before) = omega arith
length-Attempts (retried n n' h a) = omega (arith, length-Attempts a)

module _ {W E : Type 0} (hash : SessionCore W E → String) (core : SessionCore W E)
    (store : Store W E) where
  abbrev Stores :
      ℕ → ℕ → List (StoreCall W E) → Option (Session W E) × List (StoreCall W E) → Type 0
  Stores k n t out =
      (m : ℕ) × (out.0 ≡ some (build_committee_session hash core store m))
      × Attempts k n m (numbers t) (numbers out.1)
