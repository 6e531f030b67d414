-- ===== src/Telegram/Client/Posting.antt =====
-- `postWithRetry`, `sendInternal` and `readRetryAfter` of src/lib/clients/telegramClient.ts. A call is
-- a `fetch` or a `sleep`; seconds are whole, as Telegram documents `retry_after` and the header.
use neurodegen.Common.{
  ℕ, suc, zero, ◌+◌, ◌*◌, Bool, true, not, ◌&&◌, Option, none, some, List, [], ◌∷◌, ◌++◌, leb, ltb,
  ◌==◌, length, if◌then◌else◌, is_some,
}
use neurodegen.Common.Calls.{Act, perform}
use neurodegen.Telegram.Client.{Text, max_message_length, chunk_message}

abbrev pub max_retries : ℕ
max_retries = 3

-- `response.json()`: what Telegram answers.
pub data TelegramBody : Type 0 where
  success : ℕ → TelegramBody
  failure : Option ℕ → TelegramBody

-- A fetch that throws, or a response with `ok`, `status`, the parsed body (`none` where it does not
-- parse) and the seconds of the `retry-after` header.
pub data Response : Type 0 where
  threw : Response
  responded : Bool → ℕ → Option TelegramBody → Option ℕ → Response

pub data PostCall : Type 0 where
  fetch : Text → PostCall
  sleep : ℕ → PostCall

pub record PostServices : Type 0 where
  pub respond : List PostCall → Response
  pub jitter : List PostCall → ℕ  -- 100 + Math.floor(Math.random() * 400)

pub data GiveUp : Type 0 where
  fetch_threw give_up_429 retries_spent : GiveUp
  http : ℕ → GiveUp

pub record Posted : Type 0 where
  pub message_id : Option ℕ
  pub retried : ℕ
  pub reason : Option GiveUp

-- What a response leads to.
pub data Handling : Type 0 where
  delivered : ℕ → Handling
  retry_after : ℕ → Handling
  gave_up : GiveUp → Handling

abbrev at_least_one : ℕ → ℕ
at_least_one zero = 1
at_least_one (suc n) = suc n

abbrev header_seconds : Option ℕ → ℕ
header_seconds none = 1
header_seconds (some n) = at_least_one n

abbrev read_retry_after : Option TelegramBody → Option ℕ → ℕ
read_retry_after (some (failure (some n))) header = at_least_one n
read_retry_after _ header = header_seconds header

abbrev refused : ℕ → Option TelegramBody → Option ℕ → Handling
refused status body header =
    if status == 429 then retry_after (read_retry_after body header) else gave_up (http status)

abbrev pub handle : Response → Handling
handle threw = gave_up fetch_threw
handle (responded true status (some (success id)) header) = delivered id
handle (responded _ status body header) = refused status body header

-- `Math.max(sleepMs, Math.min(nextDelayMs, retryAfterSeconds * 1000))`
abbrev at_most : ℕ → ℕ → ℕ
at_most a b = if leb a b then a else b

abbrev at_least : ℕ → ℕ → ℕ
at_least a b = if leb a b then b else a

unfoldable pub wait_ms : ℕ → ℕ → ℕ → ℕ
wait_ms delay seconds jitter = at_least (seconds * 1000 + jitter) (at_most delay (seconds * 1000))

abbrev given_up : GiveUp → ℕ → Posted
given_up why n = record { message_id = none; retried = n; reason = some why }

module _ (services : PostServices) (text : Text) where
  -- After a response; `again` is the loop from its next attempt, with the delay and the retries.
  abbrev pub after_response :
      Handling → ℕ → ℕ → ℕ → (ℕ → ℕ → Act PostCall Posted) → Act PostCall Posted
  after_response (delivered id) attempt delay n again t =
      (record { message_id = some id; retried = n; reason = none }, t)
  after_response (gave_up why) attempt delay n again t = (given_up why n, t)
  after_response (retry_after seconds) attempt delay n again t =
      if leb max_retries attempt
      then (given_up give_up_429 n, t)
      else again (delay * 2) (suc n) (sleep (wait_ms delay seconds (services.jitter t)) ∷ t)

  -- The loop, with the number of iterations left.
  abbrev pub post_from : ℕ → ℕ → ℕ → ℕ → Act PostCall Posted
  post_from zero attempt delay n t = (given_up retries_spent n, t)
  post_from (suc left) attempt delay n t =
      let (response, t') = perform (fetch text) services.respond t in
      after_response (handle response) attempt delay n (post_from left (suc attempt)) t'

  unfoldable pub post_with_retry : Act PostCall Posted
  post_with_retry t = post_from (suc max_retries) 0 1000 0 t

pub record SendResult : Type 0 where
  pub sent : Bool
  pub message_ids : List ℕ
  pub retried_count : ℕ
  pub reason : Option GiveUp

module _ (services : PostServices) where
  abbrev send_result : Option GiveUp → List ℕ → ℕ → SendResult
  send_result why ids n = record {
    sent = not (is_some why) && ltb 0 (length ids);
    message_ids = ids;
    retried_count = n;
    reason = why;
  }

  abbrev pub go_on :
      Option ℕ
      → Posted
      → List ℕ
      → ℕ
      → (List ℕ → ℕ → Act PostCall SendResult)
      → Act PostCall SendResult
  go_on none p ids n again t = (send_result p.reason ids (n + p.retried), t)
  go_on (some id) p ids n again t = again (ids ++ (id ∷ [])) (n + p.retried) t

  abbrev pub after_chunk :
      Posted → List ℕ → ℕ → (List ℕ → ℕ → Act PostCall SendResult) → Act PostCall SendResult
  after_chunk p ids n again t = go_on p.message_id p ids n again t

  -- The chunks in order, until one is given up.
  unfoldable pub send_chunks : List Text → List ℕ → ℕ → Act PostCall SendResult
  send_chunks [] ids n t = (send_result none ids n, t)
  send_chunks (chunk ∷ chunks) ids n t =
      let (p, t') = post_with_retry services chunk t in after_chunk p ids n (send_chunks chunks) t'

  unfoldable pub send_internal : Text → Act PostCall SendResult
  send_internal text = send_chunks (chunk_message max_message_length text) [] 0
