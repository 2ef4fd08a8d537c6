-- ===== src/Task/Ids.antt =====
-- The ids of the tasks: a new task never takes the place of one that runs.
use Prim.Native.String.{String}
use optimusprime.Prelude.{
  ℕ, suc, ◌+◌, ◌^◌, ◌≤◌, ◌<◌, ◌≡◌, refl, arith, false, ◌==◌, Option, none, some, [], ◌∷◌, length,
  ==_iff,
}
use optimusprime.Prelude.Map.{lookup, insert, nat_eq, string_eq, Lacks, lookup-insert}
use optimusprime.Task.{
  Handle, create_tcp, create_http, create_ws, create_api, Pool, Tasks, Task, new_tcp_task,
  new_http_task, new_ws_task, new_api_task, next_id,
}

-- The ids of a pool were given out.
abbrev pub AllGiven : {T : Type 0} → ℕ → Pool T → Type 0
AllGiven n [] = Unit
AllGiven n ((i, _) ∷ m) = (i ≤ n) × AllGiven n m

AllGiven-Lacks :
    {T : Type 0} (n : ℕ) (m : Pool T) → AllGiven n m → n + 1 < 2 ^ 32 → Lacks (next_id n) m
unfolding next_id
AllGiven-Lacks n [] given room = tt
AllGiven-Lacks n ((i, _) ∷ m) (le, given) room = (ground arith, AllGiven-Lacks n m given room)

insert_new :
    {T : Type 0} (i : ℕ) (t : T) (m : Pool T) → Lacks i m → length (insert i t m) ≡ suc (length m)
unfolding insert
insert_new i t [] l = refl
insert_new i t ((j, u) ∷ m) (n, l) = ground (arith, insert_new i t m l)

lookup-Lacks :
    {T : Type 0} (i j : ℕ) (u : T) (m : Pool T) → Lacks i m → lookup j m ≡ some u → (i == j) ≡ false
unfolding lookup
lookup-Lacks i j u [] l h = ground arith
lookup-Lacks i j u ((k, v) ∷ m) (n, l) h = ground (arith, lookup-Lacks i j u m l)

-- The pool m' has one task more than m, and all those of m under their ids.
pub record Adds {T : Type 0} (m m' : Pool T) : Type 0 where
  pub one_more : length m' ≡ suc (length m)
  pub keeps : (j : ℕ) (u : T) → lookup j m ≡ some u → lookup j m' ≡ some u

insert-Adds : {T : Type 0} (i : ℕ) (t : T) (m : Pool T) → Lacks i m → Adds m (insert i t m)
insert-Adds i t m l = record {
  one_more = insert_new i t m l;
  keeps = λ j u h. rw (lookup-insert i j t m, lookup-Lacks i j u m l h) h;
}

-- The call of a key without a handle is an error that changes nothing. With one, it makes a task of
-- the key, the handler and the time limit of the handle, which is added under its id.
abbrev pub CreatedAdds :
    {K : Type 0}
    → K
    → (Tasks → Pool (Task K))
    → Tasks
    → Option Handle
    → Option (Task K) × Tasks
    → Type 0
CreatedAdds k pool st none r = r ≡ (none, st)
CreatedAdds k pool st (some h) (none, st') = ⊥
CreatedAdds k pool st (some h) (some t, st') =
    Adds (pool st) (pool st')
    × (lookup t.id (pool st') ≡ some t)
    × (t.pattern ≡ k)
    × (t.handler ≡ h.handler)
    × (t.time_out ≡ h.time_out)

found_new : {T : Type 0} (i : ℕ) (t : T) (m : Pool T) → lookup i (insert i t m) ≡ some t
found_new i t m = rw (lookup-insert i i t m, (==_iff i i).1 refl) refl

-- The ids of all pools were given out, and there is one more.
pub record IsGiven (st : Tasks) : Type 0 where
  pub room : st.global_task_id + 1 < 2 ^ 32
  pub tcp : AllGiven st.global_task_id st.tcp_pool
  pub http : AllGiven st.global_task_id st.http_pool
  pub ws : AllGiven st.global_task_id st.ws_pool
  pub api : AllGiven st.global_task_id st.api_pool

added :
    {T : Type 0} (n : ℕ) (t : T) (m : Pool T)
    → AllGiven n m
    → n + 1 < 2 ^ 32
    → Adds m (insert (next_id n) t m) × (lookup (next_id n) (insert (next_id n) t m) ≡ some t)
added n t m given room =
    (insert-Adds (next_id n) t m (AllGiven-Lacks n m given room), found_new (next_id n) t m)

create_tcp-Adds :
    (k : ℕ) (st : Tasks) (o : Option Handle)
    → IsGiven st
    → CreatedAdds k (λ s. s.tcp_pool) st o (create_tcp k st o)
unfolding create_tcp
create_tcp-Adds k st none g = refl
create_tcp-Adds k st (some h) g =
    let (adds, found) = added st.global_task_id _ st.tcp_pool g.tcp g.room in
    (adds, found, refl, refl, refl)

create_http-Adds :
    (k : String) (st : Tasks) (o : Option Handle)
    → IsGiven st
    → CreatedAdds k (λ s. s.http_pool) st o (create_http k st o)
unfolding create_http
create_http-Adds k st none g = refl
create_http-Adds k st (some h) g =
    let (adds, found) = added st.global_task_id _ st.http_pool g.http g.room in
    (adds, found, refl, refl, refl)

create_ws-Adds :
    (k : String) (st : Tasks) (o : Option Handle)
    → IsGiven st
    → CreatedAdds k (λ s. s.ws_pool) st o (create_ws k st o)
unfolding create_ws
create_ws-Adds k st none g = refl
create_ws-Adds k st (some h) g =
    let (adds, found) = added st.global_task_id _ st.ws_pool g.ws g.room in
    (adds, found, refl, refl, refl)

create_api-Adds :
    (k : String) (st : Tasks) (o : Option Handle)
    → IsGiven st
    → CreatedAdds k (λ s. s.api_pool) st o (create_api k st o)
unfolding create_api
create_api-Adds k st none g = refl
create_api-Adds k st (some h) g =
    let (adds, found) = added st.global_task_id _ st.api_pool g.api g.room in
    (adds, found, refl, refl, refl)

-- NewTCPTask, NewHTTPTask, NewWsTask and NewAPITask: where the key has no handle, the result is an
-- error and nothing changes; where it has one, the result is a task of this key with the handler and
-- the time limit of the handle, and the pool has this task under its id, one task more than before, and
-- all of those before under theirs. The ids in the pools were given out, and the counter does not run
-- over.
pub new_task-Adds :
    (k : ℕ) (p : String) (st : Tasks)
    → IsGiven st
    → CreatedAdds k (λ s. s.tcp_pool) st (lookup k st.tcp_handles) (new_tcp_task k st)
      × CreatedAdds p (λ s. s.http_pool) st (lookup p st.http_handles) (new_http_task p st)
      × CreatedAdds p (λ s. s.ws_pool) st (lookup p st.ws_handles) (new_ws_task p st)
      × CreatedAdds p (λ s. s.api_pool) st (lookup p st.api_handles) (new_api_task p st)
unfolding new_tcp_task new_http_task new_ws_task new_api_task
new_task-Adds k p st g = (
  create_tcp-Adds k st (lookup k st.tcp_handles) g,
  create_http-Adds p st (lookup p st.http_handles) g,
  create_ws-Adds p st (lookup p st.ws_handles) g,
  create_api-Adds p st (lookup p st.api_handles) g,
)
