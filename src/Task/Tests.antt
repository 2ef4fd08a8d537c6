-- ===== src/Task/Tests.antt =====
-- The theorems of package task at concrete pools, runs and requests.
use Prim.Native.String.{String}
use optimusprime.Prelude.{
  ℕ, ◌≡◌, refl, ap, sym, ◌∙◌, arith, ◌⊎◌, inl, inr, Bool, true, false, Option, none, some, [], ◌∷◌,
}
use optimusprime.Prelude.Text.{Bytes, codes}
use optimusprime.Prelude.Int.{pos, ◌<ℤ◌}
use optimusprime.Prelude.Map.{lookup, string_eq, nat_eq}
use optimusprime.Task.{
  Handler, TimerHandle, Tasks, Task, Pool, state_run, state_finished, new_tcp_task, new_http_task,
  new_ws_task, new_api_task,
}
use optimusprime.Task.Ids.{CreatedAdds, new_task-Adds}
use optimusprime.Task.Lookup.{get_by_gid}
use optimusprime.Task.Lookup.Found.{In, Finds, get_by_gid_any_order}
use optimusprime.Task.Timer
use optimusprime.Task.Timer.{IsSingle, timer_task_serve, timer_task_serve-IsSingle}
use optimusprime.Task.Run.{
  RunState, Steps, goes, stays, receives, sets_state, deletes_task, leaves, works_on, works,
  HttpRun, http_actions, start_run, leave_run, result, timeout_error, returned, sends, panics,
  closes, runs, ended,
}
use optimusprime.Task.Run.First.{run_returns_first}
use optimusprime.Task.Run.Signal.{http_returns}
use optimusprime.Task.Params.{
  text, number, other, Decoded, object, not_object, ParamMap, Request, ok, parse_json_params,
  as_param, parse_json_params-lookup,
}

abbrev handler_of : String → Handler
handler_of name = record { code_pointer = 1; full_name = codes name }

abbrev running : ℕ → ℕ → Task ℕ
running i g = record {
  id = i;
  gid = g;
  pattern = 5;
  handler = handler_of "main.serve";
  func_name = codes "serve";
  state = state_run;
  time_out = pos 0;
}

abbrev page : Task String
page = record {
  id = 2;
  gid = 8;
  pattern = "/";
  handler = handler_of "main.page";
  func_name = codes "page";
  state = state_run;
  time_out = pos 0;
}

abbrev timer : Bool → TimerHandle
timer single = record {
  handler = handler_of "main.tick";
  interval_time = pos 1000;
  singleton = single;
}

-- A TCP task and an API task run.
abbrev two_running : Tasks
two_running = record {
  global_task_id = 2;
  tcp_handles = (5, record { handler = handler_of "main.serve"; time_out = pos 0 }) ∷ [];
  http_handles = [];
  ws_handles = [];
  api_handles = ("/", record { handler = handler_of "main.page"; time_out = pos 0 }) ∷ [];
  timer_handles = (1, timer true) ∷ (2, timer false) ∷ [];
  tcp_pool = (1, running 1 7) ∷ [];
  http_pool = [];
  ws_pool = [];
  api_pool = (2, page) ∷ [];
  timer_pool = [];
}

new_task-Adds_example :
    CreatedAdds 5
      (λ s. s.tcp_pool)
      two_running
      (lookup 5 two_running.tcp_handles)
      (new_tcp_task 5 two_running)
    × CreatedAdds "/"
        (λ s. s.http_pool)
        two_running
        (lookup "/" two_running.http_handles)
        (new_http_task "/" two_running)
    × CreatedAdds "/"
        (λ s. s.ws_pool)
        two_running
        (lookup "/" two_running.ws_handles)
        (new_ws_task "/" two_running)
    × CreatedAdds "/"
        (λ s. s.api_pool)
        two_running
        (lookup "/" two_running.api_handles)
        (new_api_task "/" two_running)
new_task-Adds_example = new_task-Adds 5 "/" two_running (record {
  room = omega arith;
  tcp = (omega arith, tt);
  http = tt;
  ws = tt;
  api = (omega arith, tt);
})

abbrev one_order : Pool (Task ℕ)
one_order = (1, running 1 7) ∷ (3, running 3 9) ∷ []

abbrev other_order : Pool (Task ℕ)
other_order = (3, running 3 9) ∷ (1, running 1 7) ∷ []

swapped :
    (i j : ℕ) (a b : Task ℕ) (t : Task ℕ)
    → In t ((i, a) ∷ (j, b) ∷ [])
    → In t ((j, b) ∷ (i, a) ∷ [])
swapped i j a b t (inl e) = inr (inl e)
swapped i j a b t (inr (inl e)) = inl e
swapped i j a b t (inr (inr h)) = elim h [ ]

only_seven : (t : Task ℕ) → In t one_order → t.gid ≡ 7 → t ≡ running 1 7
only_seven t (inl e) g = e
only_seven t (inr (inl e)) g = ground (arith, ap (λ (u : Task ℕ). u.gid) e)
only_seven t (inr (inr h)) g = elim h [ ]

get_by_gid_any_order_example :
    Finds (λ (t : Task ℕ). t.gid) 7 one_order (get_by_gid (λ (t : Task ℕ). t.gid) 7 one_order)
    × (get_by_gid (λ (t : Task ℕ). t.gid) 7 one_order
        ≡ get_by_gid (λ (t : Task ℕ). t.gid) 7 other_order)
get_by_gid_any_order_example =
    get_by_gid_any_order (λ (t : Task ℕ). t.gid) 7 one_order other_order
      (swapped 1 3 (running 1 7) (running 3 9)) (swapped 3 1 (running 3 9) (running 1 7))
      (λ t u here there g g'. only_seven t here g ∙ sym (only_seven u there g'))

timer_task_serve-IsSingle_example : IsSingle 1 (
    Timer.run
      (Timer.ticks 1 (timer true)
        ∷ Timer.ends 3
        ∷ Timer.ticks 1 (timer true)
        ∷ Timer.ticks 2 (timer false)
        ∷ [])
      (timer_task_serve two_running))
timer_task_serve-IsSingle_example =
    timer_task_serve-IsSingle 1
      (Timer.ticks 1 (timer true)
        ∷ Timer.ends 3
        ∷ Timer.ticks 1 (timer true)
        ∷ Timer.ticks 2 (timer false)
        ∷ [])
      two_running ((refl, tt), (tt, tt)) refl

-- A handler that answers, and then closes its channel.
abbrev taken : RunState
taken =
    leave_run (result (7 ∷ []))
      (record (start_run (sends (7 ∷ []) ∷ closes ∷ [])) { worker = runs (closes ∷ []) })

abbrev done : RunState
done = record taken { caller = returned (result (7 ∷ [])); state = state_finished; in_pool = false }

answers : Steps (pos 10) false (start_run (sends (7 ∷ []) ∷ closes ∷ [])) done
unfolding start_run leave_run
answers =
    goes (receives refl refl refl)
      (goes (sets_state refl) (goes (deletes_task refl) (goes (leaves refl) stays)))

run_returns_first_example : (result (7 ∷ []) ≡ result (7 ∷ [])) ⊎ (result (7 ∷ []) ≡ timeout_error)
unfolding start_run leave_run
run_returns_first_example =
    run_returns_first (pos 10) false (7 ∷ []) (closes ∷ []) (result (7 ∷ [])) done answers refl

abbrev panicked : RunState
panicked = record (start_run (panics ∷ [])) { worker = ended }

-- A float stands for itself; a body of one byte is an object, any other is a list.
abbrev written : ℕ → Bytes
written x = x ∷ []

abbrev decoded : Bytes → Option (Decoded ℕ)
decoded [] = none
decoded (b ∷ []) = some (object (("a", text (b ∷ [])) ∷ ("b", other) ∷ ("c", number 3) ∷ []))
decoded (b ∷ c ∷ bs) = some not_object

parse_json_params-lookup_example :
    (p : ParamMap) × (parse_json_params written decoded (λ (x : ℕ). some (x ∷ [])) (9 ∷ []) ≡ ok p)
    × ((j : String)
        → lookup j p
          ≡ as_param written decoded
              (λ (x : ℕ). some (x ∷ []))
              (lookup j (("a", text (9 ∷ [])) ∷ ("b", other) ∷ ("c", number 3) ∷ [])))
parse_json_params-lookup_example =
    parse_json_params-lookup written decoded (λ (x : ℕ). some (x ∷ [])) (9 ∷ [])
      (("a", text (9 ∷ [])) ∷ ("b", other) ∷ ("c", number 3) ∷ [])
      ((refl, (refl, tt)), ((refl, tt), (tt, tt))) refl

abbrev list_request : Request
list_request = record { content_type = "application/json"; body = some (91 ∷ 93 ∷ []); form = [] }

-- A handler that panics under the protection, which the signal follows, and Run after it.
abbrev served : RunState
served = record {
  caller = returned (result []);
  worker = runs [];
  closed = false;
  state = state_finished;
  in_pool = false;
}

http_served : HttpRun (pos 10) true (works ∷ panics ∷ []) served
unfolding http_actions start_run leave_run
http_served = goes (works_on refl) (
    goes (receives refl refl refl)
      (goes (sets_state refl) (goes (deletes_task refl) (goes (leaves refl) stays))))

http_returns_example :
    ((result [] ≡ result []) × ((runs [] ≡ runs []) ⊎ (runs [] ≡ ended)))
    ⊎ ((result [] ≡ timeout_error) × (pos 0 <ℤ pos 10))
http_returns_example =
    http_returns (pos 10) true (works ∷ panics ∷ []) (result []) served http_served refl
