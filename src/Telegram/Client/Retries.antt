-- ===== src/Telegram/Client/Retries.antt =====
-- How often a post is tried, and how long it waits.
use neurodegen.Common.{
  ℕ, suc, zero, ◌+◌, ◌*◌, ◌≤◌, ◌≡◌, ◌≢◌, refl, Bool, true, false, not, ◌&&◌, Option, none, some,
  List, [], ◌∷◌, arith, is_some, leb, length, length-append, ◌++◌,
}
use neurodegen.Telegram.Client.{Text, max_message_length, chunk_message}
use neurodegen.Telegram.Client.Posting.{
  max_retries, Response, PostCall, fetch, sleep, PostServices, GiveUp, retries_spent, Posted,
  Handling, delivered, retry_after, gave_up, handle, wait_ms, after_response, post_from,
  post_with_retry, SendResult, go_on, send_chunks, send_internal,
}

abbrev pub fetches : List PostCall → ℕ
fetches [] = 0
fetches (fetch _ ∷ t) = suc (fetches t)
fetches (sleep _ ∷ t) = fetches t

-- The wait is the answered seconds and the jitter: the doubling delay never counts.
pub wait_ms_lem :
    (delay seconds jitter : ℕ) → wait_ms delay seconds jitter ≡ seconds * 1000 + jitter
unfolding wait_ms
wait_ms_lem delay seconds jitter = ground arith

-- What a post did: `n` retries were made before, and `left` iterations are left.
record IsPosted (n left : ℕ) (t : List PostCall) (r : Posted) (t' : List PostCall) : Type 0 where
  tried : fetches t' + n ≡ fetches t + r.retried + 1
  bounded : r.retried + 1 ≤ n + left
  definite : is_some r.reason ≡ not (is_some r.message_id)
  not_spent : r.reason ≢ some retries_spent

last_attempt : (attempt : ℕ) → attempt + 0 ≡ max_retries → leb max_retries attempt ≡ true
last_attempt attempt h = ground (arith, h)

early_attempt : (attempt l : ℕ) → attempt + suc l ≡ max_retries → leb max_retries attempt ≡ false
early_attempt attempt l h = ground (arith, h)

handle-fair : (r : Response) → handle r ≢ gave_up retries_spent
handle-fair r h = ground (arith, h)

module _ (services : PostServices) (text : Text) where
  abbrev Done : ℕ → ℕ → List PostCall → Posted × List PostCall → Type 0
  Done n left t (r, t') = IsPosted n left t r t'

  -- After a response, if what comes after a wait is well.
  settle_response :
      (hd : Handling) (left attempt delay n : ℕ) (t : List PostCall)
      → attempt + left ≡ max_retries
      → hd ≢ gave_up retries_spent
      → ((l d m : ℕ) (s : List PostCall)
          → left ≡ suc l
          → Done m left s (post_from services text left (suc attempt) d m s))
      → Done n (suc left) t (
          after_response services text hd attempt delay n
            (post_from services text left (suc attempt))
            (fetch text ∷ t))
  settle_response (delivered id) left attempt delay n t h fair next = record {
    tried = omega arith;
    bounded = omega arith;
    definite = refl;
    not_spent = λ e. ground (arith, e);
  }
  settle_response (gave_up why) left attempt delay n t h fair next = record {
    tried = omega arith;
    bounded = omega arith;
    definite = refl;
    not_spent = λ e. fair (ground (arith, e));
  }
  settle_response (retry_after seconds) zero attempt delay n t h fair next =
      rw (last_attempt attempt h) (record {
        tried = omega arith;
        bounded = omega arith;
        definite = refl;
        not_spent = λ e. ground (arith, e);
      })
  settle_response (retry_after seconds) (suc l) attempt delay n t h fair next =
      let waited =
        sleep (wait_ms delay seconds (services.jitter (fetch text ∷ t))) ∷ fetch text ∷ t in
      let later = next l (delay * 2) (suc n) waited refl in
      rw (early_attempt attempt l h) (record {
        tried = omega (arith, later.tried);
        bounded = omega (arith, later.bounded);
        definite = later.definite;
        not_spent = later.not_spent;
      })

  post_from-IsPosted :
      (left attempt delay n : ℕ) (t : List PostCall)
      → attempt + left ≡ max_retries
      → Done n (suc left) t (post_from services text (suc left) attempt delay n t)
  post_from-IsPosted zero attempt delay n t h =
      settle_response _ zero attempt delay n t h (handle-fair (services.respond t))
        (λ l d m s e. ground (arith, e))
  post_from-IsPosted (suc l) attempt delay n t h =
      settle_response _ (suc l) attempt delay n t h (handle-fair (services.respond t))
        (λ k d m s e. post_from-IsPosted l (suc attempt) d m s (omega (arith, h)))

  -- A post makes at most four fetches, one more than its retries; it has either a message or a reason
  -- for none, and the reason is never that the loop ran out of attempts.
  pub post_with_retry-fetches :
      (t : List PostCall)
      → let (r, t') = post_with_retry services text t in
        (fetches t' ≡ fetches t + r.retried + 1)
        × (r.retried ≤ max_retries)
        × (is_some r.reason ≡ not (is_some r.message_id))
        × (r.reason ≢ some retries_spent)
  unfolding post_with_retry
  post_with_retry-fetches t =
      let p = post_from-IsPosted max_retries 0 1000 0 t refl in
      (omega (arith, p.tried), omega (arith, p.bounded), p.definite, p.not_spent)

-- What the chunks still to come add: all their messages, if none is given up.
record Sent (chunks : List Text) (ids : List ℕ) (t : List PostCall) (r : SendResult)
    (t' : List PostCall) : Type 0 where
  complete : r.reason ≡ none → length r.message_ids ≡ length ids + length chunks
  honest : r.sent ≡ true → r.reason ≡ none
  bounded : fetches t' ≤ fetches t + length chunks * 4

sent-honest : (why : Option GiveUp) (b : Bool) → (not (is_some why) && b) ≡ true → why ≡ none
sent-honest none b h = refl
sent-honest (some w) b h = ground (arith, h)

module _ (services : PostServices) where
  settle_chunk :
      (o : Option ℕ) (p : Posted) (chunk : Text) (chunks : List Text) (ids : List ℕ) (n : ℕ)
      (t u : List PostCall)
      → is_some p.reason ≡ not (is_some o)
      → fetches u ≤ fetches t + 4
      → ((ids' : List ℕ) (m : ℕ)
          → let (r, t') = send_chunks services chunks ids' m u in Sent chunks ids' u r t')
      → let (r, t') = go_on services o p ids n (send_chunks services chunks) u in
        Sent (chunk ∷ chunks) ids t r t'
  settle_chunk none p chunk chunks ids n t u definite few next = record {
    complete = λ e. ground (arith, definite, e);
    honest = λ e. sent-honest p.reason _ e;
    bounded = omega (arith, few);
  }
  settle_chunk (some id) p chunk chunks ids n t u definite few next =
      let later = next (ids ++ (id ∷ [])) (n + p.retried) in
      record {
        complete = λ e. omega (arith, later.complete e, length-append ids (id ∷ []));
        honest = later.honest;
        bounded = omega (arith, later.bounded, few);
      }

  send_chunks-Sent :
      (chunks : List Text) (ids : List ℕ) (n : ℕ) (t : List PostCall)
      → let (r, t') = send_chunks services chunks ids n t in Sent chunks ids t r t'
  unfolding send_chunks
  send_chunks-Sent [] ids n t = record {
    complete = λ e. omega arith;
    honest = λ e. refl;
    bounded = omega arith;
  }
  send_chunks-Sent (chunk ∷ chunks) ids n t =
      let p = post_with_retry-fetches services chunk t in
      settle_chunk _ _ chunk chunks ids n t _ p.2 (omega (arith, p.0, p.1))
        (λ ids' m. send_chunks-Sent chunks ids' m _)

  -- A message that is reported as sent has one identifier for each of its chunks, and each chunk costs
  -- at most four fetches.
  pub send_internal_complete :
      (text : Text) (t : List PostCall)
      → let (r, t') = send_internal services text t in
        (r.sent ≡ true → length r.message_ids ≡ length (chunk_message max_message_length text))
        × (fetches t' ≤ fetches t + length (chunk_message max_message_length text) * 4)
  unfolding send_internal
  send_internal_complete text t =
      let s = send_chunks-Sent (chunk_message max_message_length text) [] 0 t in
      (λ e. omega (arith, s.complete (s.honest e)), s.bounded)
