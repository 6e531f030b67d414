-- ===== src/Twak.antt =====
-- src/lib/clients/twakClient.ts: the process that a TWAK call runs, and the swap. The JSON that it
-- prints is parsed by a parameter. `Twak.Portfolio` reads the holdings.
pub mod Process
pub mod Hash
pub mod Portfolio
pub mod Swap
use Prim.Native.String.{◌++◌ as text_append}
use neurodegen.Common.{
  ℕ, String, Bool, true, false, not, Option, none, some, List, [], ◌∷◌, ◌==◌, is_some, get_or,
  if◌then◌else◌,
}
use neurodegen.Common.Calls.{Result, ok, err}

pub record SpawnResult : Type 0 where
  pub exit_code : ℕ
  pub stdout : String
  pub stderr : String

-- What the spawned process and the timer make happen. `close` has no code where a signal ended it.
pub data ChildEvent : Type 0 where
  stdout_data stderr_data : String → ChildEvent
  child_error : String → ChildEvent
  close : Option ℕ → ChildEvent
  timer_fires : ChildEvent

pub data TwakError : Type 0 where
  timed_out : String → TwakError
  spawn_failed : String → TwakError
  -- the exit code, stdout and stderr
  exited : ℕ → String → String → TwakError
  unparsed : String → TwakError
  blocked : TwakError

-- `settled` is what the promise has settled to; `killed` says that SIGKILL was sent.
pub record Child : Type 0 where
  pub stdout : String
  pub stderr : String
  pub settled : Option (Result TwakError SpawnResult)
  pub killed : Bool

unfoldable pub spawned : Child
spawned = record { stdout = ""; stderr = ""; settled = none; killed = false }

abbrev pub settle : Result TwakError SpawnResult → Child → Child
settle r c = if is_some c.settled then c else record c { settled = some r }

unfoldable pub on_child_event : ChildEvent → Child → Child
on_child_event (stdout_data chunk) c = record c { stdout = text_append c.stdout chunk }
on_child_event (stderr_data chunk) c = record c { stderr = text_append c.stderr chunk }
on_child_event (child_error e) c = settle (err (spawn_failed e)) c
on_child_event (close code) c =
    settle (ok (record { exit_code = get_or code 0; stdout = c.stdout; stderr = c.stderr })) c
on_child_event timer_fires c =
    if is_some c.settled then c else record (settle (err (timed_out c.stderr)) c) { killed = true }

-- `runTwak`: the promise after the events.
unfoldable pub run_twak : List ChildEvent → Child → Child
run_twak [] c = c
run_twak (e ∷ es) c = run_twak es (on_child_event e c)

-- What a call gets once the promise has settled.
unfoldable pub or_throw : Result TwakError SpawnResult → Result TwakError String
or_throw (err e) = err e
or_throw (ok r) =
    if not (r.exit_code == 0) then err (exited r.exit_code r.stdout r.stderr) else ok r.stdout

abbrev pub parsed : {A : Type 0} → String → Option A → Result TwakError A
parsed out none = err (unparsed out)
parsed out (some a) = ok a

-- `parseJsonOutput`, with `JSON.parse` of the trimmed output
unfoldable pub parse_output :
    {A : Type 0} → (String → Option A) → Result TwakError String → Result TwakError A
parse_output parse (err e) = err e
parse_output parse (ok out) = parsed out (parse out)
