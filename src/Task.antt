-- ===== src/Task.antt =====
-- task: the handles of the five kinds of task, the pools of the tasks that run, and their operations.
-- Each pool and each map of handles has a mutex, so a call that holds it is one step. An int32 id is
-- kept as its 32 bits.
pub mod Ids
pub mod Lookup
pub mod Timer
pub mod Run
pub mod Params
pub mod Dump
pub mod Stat
mod Tests
use Prim.Native.String.{String}
use optimusprime.Prelude.{
  ℕ, ◌+◌, ◌%◌, ◌^◌, Bool, true, false, Option, none, some, List, [], ◌∷◌, ◌==◌, if◌then◌else◌,
}
use optimusprime.Prelude.Text.{Bytes}
use optimusprime.Prelude.Int.{ℤ}
use optimusprime.Prelude.Map.{lookup, insert, delete, string_eq, nat_eq, Eq}

-- A handler, as reflect and runtime tell it apart: by its code and by the name of its function.
pub record Handler : Type 0 where
  pub code_pointer : ℕ
  pub full_name : Bytes

pub record Handle : Type 0 where
  pub handler : Handler
  pub time_out : ℤ

pub record TimerHandle : Type 0 where
  pub handler : Handler
  pub interval_time : ℤ
  pub singleton : Bool

pub data TaskState : Type 0 where
  state_new state_run state_finished : TaskState

-- A TCPTask, HTTPTask, WsTask or APITask; the key is its Type or its Pattern.
pub record Task (K : Type 0) : Type 0 where
  pub id : ℕ
  pub gid : ℕ
  pub pattern : K
  pub handler : Handler
  pub func_name : Bytes
  pub state : TaskState
  pub time_out : ℤ

pub record TimerTask : Type 0 where
  pub id : ℕ
  pub gid : ℕ
  pub type_id : ℕ
  pub handler : Handler
  pub func_name : Bytes
  pub state : TaskState
  pub interval_time : ℤ
  pub singleton : Bool

abbrev pub Pool : Type 0 → Type 0
Pool T = List (ℕ × T)

-- The variables of the package.
pub record Tasks : Type 0 where
  pub global_task_id : ℕ
  pub tcp_handles : List (ℕ × Handle)
  pub http_handles : List (String × Handle)
  pub ws_handles : List (String × Handle)
  pub api_handles : List (String × Handle)
  pub timer_handles : List (ℕ × TimerHandle)
  pub tcp_pool : Pool (Task ℕ)
  pub http_pool : Pool (Task String)
  pub ws_pool : Pool (Task String)
  pub api_pool : Pool (Task String)
  pub timer_pool : Pool TimerTask

-- `atomic.AddInt32(&globalTaskId, 1)`.
unfoldable pub next_id : ℕ → ℕ
next_id last = (last + 1) % 2 ^ 32

-- Registration replaces a handle with the same key.
unfoldable pub register_tcp : ℕ → Handler → ℤ → Tasks → Tasks
register_tcp k h t st = record st {
  tcp_handles = insert k (record { handler = h; time_out = t }) st.tcp_handles;
}

unfoldable pub register_http : String → Handler → ℤ → Tasks → Tasks
register_http k h t st = record st {
  http_handles = insert k (record { handler = h; time_out = t }) st.http_handles;
}

unfoldable pub register_ws : String → Handler → ℤ → Tasks → Tasks
register_ws k h t st = record st {
  ws_handles = insert k (record { handler = h; time_out = t }) st.ws_handles;
}

unfoldable pub register_api : String → Handler → ℤ → Tasks → Tasks
register_api k h t st = record st {
  api_handles = insert k (record { handler = h; time_out = t }) st.api_handles;
}

unfoldable pub register_timer : ℕ → Handler → ℤ → Bool → Tasks → Tasks
register_timer k h t single st = record st {
  timer_handles =
      insert k (record { handler = h; interval_time = t; singleton = single }) st.timer_handles;
}

abbrev pub make_task : {K : Type 0} → ℕ → K → Handle → Task K
make_task i k h = record {
  id = i;
  gid = 0;
  pattern = k;
  handler = h.handler;
  func_name = [];
  state = state_new;
  time_out = h.time_out;
}

-- A key without a handle is an error (`none`), and changes nothing.
abbrev pub Created : Type 0 → Type 0
Created T = Option T × Tasks

unfoldable pub create_tcp : ℕ → Tasks → Option Handle → Created (Task ℕ)
unfolding next_id
create_tcp k st none = (none, st)
create_tcp k st (some h) =
    let i = next_id st.global_task_id in
    let t = make_task i k h in
    (some t, record st { global_task_id = i; tcp_pool = insert i t st.tcp_pool })

unfoldable pub new_tcp_task : ℕ → Tasks → Created (Task ℕ)
unfolding create_tcp
new_tcp_task k st = create_tcp k st (lookup k st.tcp_handles)

unfoldable pub create_http : String → Tasks → Option Handle → Created (Task String)
unfolding next_id
create_http k st none = (none, st)
create_http k st (some h) =
    let i = next_id st.global_task_id in
    let t = make_task i k h in
    (some t, record st { global_task_id = i; http_pool = insert i t st.http_pool })

unfoldable pub new_http_task : String → Tasks → Created (Task String)
unfolding create_http
new_http_task k st = create_http k st (lookup k st.http_handles)

unfoldable pub create_ws : String → Tasks → Option Handle → Created (Task String)
unfolding next_id
create_ws k st none = (none, st)
create_ws k st (some h) =
    let i = next_id st.global_task_id in
    let t = make_task i k h in
    (some t, record st { global_task_id = i; ws_pool = insert i t st.ws_pool })

unfoldable pub new_ws_task : String → Tasks → Created (Task String)
unfolding create_ws
new_ws_task k st = create_ws k st (lookup k st.ws_handles)

unfoldable pub create_api : String → Tasks → Option Handle → Created (Task String)
unfolding next_id
create_api k st none = (none, st)
create_api k st (some h) =
    let i = next_id st.global_task_id in
    let t = make_task i k h in
    (some t, record st { global_task_id = i; api_pool = insert i t st.api_pool })

unfoldable pub new_api_task : String → Tasks → Created (Task String)
unfolding create_api
new_api_task k st = create_api k st (lookup k st.api_handles)

unfoldable pub new_timer_task : ℕ → TimerHandle → Tasks → TimerTask × Tasks
unfolding next_id
new_timer_task k h st =
    let i = next_id st.global_task_id in
    let t : TimerTask = record {
      id = i;
      gid = 0;
      type_id = k;
      handler = h.handler;
      func_name = [];
      state = state_new;
      interval_time = h.interval_time;
      singleton = h.singleton;
    } in
    (t, record st { global_task_id = i; timer_pool = insert i t st.timer_pool })

-- The end of each `Run`.
unfoldable pub end_tcp : ℕ → Tasks → Tasks
end_tcp i st = record st { tcp_pool = delete i st.tcp_pool }

unfoldable pub end_http : ℕ → Tasks → Tasks
end_http i st = record st { http_pool = delete i st.http_pool }

unfoldable pub end_ws : ℕ → Tasks → Tasks
end_ws i st = record st { ws_pool = delete i st.ws_pool }

unfoldable pub end_api : ℕ → Tasks → Tasks
end_api i st = record st { api_pool = delete i st.api_pool }

unfoldable pub end_timer : ℕ → Tasks → Tasks
end_timer i st = record st { timer_pool = delete i st.timer_pool }
