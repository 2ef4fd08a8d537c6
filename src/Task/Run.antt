-- ===== src/Task/Run.antt =====
-- `Run` of a task: the caller, which waits on an unbuffered channel, and the goroutine of the handler.
-- The handler of a TCPTask or WsTask itself sends on the channel, any number of times, or closes it; the
-- goroutine of an HTTPTask or APITask sends one signal behind its handler, which stands for an empty
-- message. A step is one communication, one decision or one assignment.
pub mod Blocked
pub mod First
pub mod Signal
use optimusprime.Prelude.{
  ℕ, ◌≡◌, ◌||◌, if◌then◌else◌, Bool, true, false, Option, none, some, List, [], ◌∷◌,
}
use optimusprime.Prelude.Text.{Bytes}
use optimusprime.Prelude.Int.{ℤ, pos, ◌<ℤ◌}
use optimusprime.Task.{TaskState, state_new, state_run, state_finished}

-- What `Run` returns: a result, or one of its two errors.
pub data Returned : Type 0 where
  result : Bytes → Returned
  closed_error timeout_error : Returned

-- The caller waits; it has its answer, and next sets the state; it has set the state, and next deletes
-- the task from the pool; it has deleted the task; it has returned.
pub data Caller : Type 0 where
  waiting : Caller
  answered finished deleted returned : Returned → Caller

-- What a handler does next: it uses its channel, it panics, it works without its channel, or it waits
-- for something that never comes.
pub data Action : Type 0 where
  sends : Bytes → Action
  closes : Action
  panics : Action
  works : Action
  hangs : Action

-- The goroutine of the handler: the actions that are left, or its end. An action that cannot go on is
-- the first of a list; a panic without protection ends the process.
pub data Worker : Type 0 where
  runs : List Action → Worker
  ended : Worker
  crashed : Worker

pub record RunState : Type 0 where
  pub caller : Caller
  pub worker : Worker
  pub closed : Bool
  pub state : TaskState
  pub in_pool : Bool

-- What the goroutine of an HTTPTask does, by what its handler does, which has no channel: the signal
-- follows the handler. A panic ends the handler; with protection it is caught there, and the signal
-- follows it too.
unfoldable pub http_actions : Bool → List Action → List Action
http_actions protected [] = sends [] ∷ []
http_actions protected (panics ∷ acts) = if protected then sends [] ∷ [] else panics ∷ []
http_actions protected (sends bs ∷ acts) = http_actions protected acts
http_actions protected (closes ∷ acts) = http_actions protected acts
http_actions protected (works ∷ acts) = works ∷ http_actions protected acts
http_actions protected (hangs ∷ acts) = hangs ∷ []

-- That of an APITask has no protection.
unfoldable pub api_actions : List Action → List Action
api_actions acts = http_actions false acts

-- The next action panics: a panic of the handler, or any use of a channel that is closed.
unfoldable pub panics_now : Bool → List Action → Bool
panics_now closed [] = false
panics_now closed (panics ∷ acts) = true
panics_now closed (sends bs ∷ acts) = closed
panics_now closed (closes ∷ acts) = closed
panics_now closed (works ∷ acts) = false
panics_now closed (hangs ∷ acts) = false

unfoldable pub start_run : List Action → RunState
start_run acts = record {
  caller = waiting;
  worker = runs acts;
  closed = false;
  state = state_run;
  in_pool = true;
}

-- The caller has its answer.
unfoldable pub leave_run : Returned → RunState → RunState
leave_run r s = record s { caller = answered r }

-- The steps of a TCP or websocket task with the given time limit; `protected` is CheckWrapPanic, which
-- a websocket task does not ask.
pub data Step (time_out : ℤ) (protected : Bool) : RunState → RunState → Type 0 where
  -- The caller takes a message.
  receives :
      {s : RunState} {bs : Bytes} {acts : List Action}
      → s.caller ≡ waiting
      → s.worker ≡ runs (sends bs ∷ acts)
      → s.closed ≡ false
      → Step time_out protected s (leave_run (result bs) (record s { worker = runs acts }))
  -- The handler closes the channel.
  closes_channel :
      {s : RunState} {acts : List Action}
      → s.worker ≡ runs (closes ∷ acts)
      → s.closed ≡ false
      → Step time_out protected s (record s { worker = runs acts; closed = true })
  -- The caller finds the channel closed.
  finds_closed :
      {s : RunState}
      → s.caller ≡ waiting
      → s.closed ≡ true
      → Step time_out protected s (leave_run closed_error s)
  -- The time is over, if there is a limit.
  times_out :
      {s : RunState}
      → pos 0 <ℤ time_out
      → s.caller ≡ waiting
      → Step time_out protected s (leave_run timeout_error s)
  -- The caller, with its answer, sets the state, deletes the task and returns.
  sets_state :
      {s : RunState} {r : Returned}
      → s.caller ≡ answered r
      → Step time_out protected s (record s { caller = finished r; state = state_finished })
  deletes_task :
      {s : RunState} {r : Returned}
      → s.caller ≡ finished r
      → Step time_out protected s (record s { caller = deleted r; in_pool = false })
  leaves :
      {s : RunState} {r : Returned}
      → s.caller ≡ deleted r
      → Step time_out protected s (record s { caller = returned r })
  -- The handler works on.
  works_on :
      {s : RunState} {acts : List Action}
      → s.worker ≡ runs (works ∷ acts)
      → Step time_out protected s (record s { worker = runs acts })
  -- The handler returns, or panics.
  returns :
      {s : RunState} → s.worker ≡ runs [] → Step time_out protected s (record s { worker = ended })
  recovers :
      {s : RunState} {acts : List Action}
      → protected ≡ true
      → s.worker ≡ runs acts
      → panics_now s.closed acts ≡ true
      → Step time_out protected s (record s { worker = ended })
  crashes :
      {s : RunState} {acts : List Action}
      → protected ≡ false
      → s.worker ≡ runs acts
      → panics_now s.closed acts ≡ true
      → Step time_out protected s (record s { worker = crashed })

-- Any number of steps.
pub data Steps (time_out : ℤ) (protected : Bool) : RunState → RunState → Type 0 where
  stays : {s : RunState} → Steps time_out protected s s
  goes :
      {s t u : RunState}
      → Step time_out protected s t
      → Steps time_out protected t u
      → Steps time_out protected s u

-- What Run of an HTTPTask, an APITask and a WsTask can come to: the caller and the goroutine as above,
-- with the actions that the goroutine has. An APITask and a WsTask do not ask for the protection.
abbrev pub HttpRun : ℤ → Bool → List Action → RunState → Type 0
HttpRun time_out protected acts s =
    Steps time_out protected (start_run (http_actions protected acts)) s

abbrev pub ApiRun : ℤ → List Action → RunState → Type 0
ApiRun time_out acts s = Steps time_out false (start_run (api_actions acts)) s

abbrev pub WsRun : ℤ → List Action → RunState → Type 0
WsRun time_out acts s = Steps time_out false (start_run acts) s
