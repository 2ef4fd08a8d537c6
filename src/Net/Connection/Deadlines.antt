-- ===== src/Net/Connection/Deadlines.antt =====
-- net/tcp_connection.go: the deadlines and the keep-alive of a connection. A connection that is no
-- *net.TCPConn is left alone; what the operating system answers is given.
use optimusprime.Prelude.{Bool, if◌then◌else◌, Option, none, some, List, [], ◌∷◌, ◌&&◌}
use optimusprime.Prelude.Text.{Bytes}
use optimusprime.Prelude.Int.{ℤ, pos, leb_ℤ}
use optimusprime.Prelude.Word.{add64}

-- The calls on the connection; no deadline is `none`.
pub data SetCall : Type 0 where
  keep_alive : SetCall
  keep_alive_period : ℤ → SetCall
  read_deadline : Option ℤ → SetCall
  write_deadline : Option ℤ → SetCall
  deadline : Option ℤ → SetCall

-- The answer to a call, which is an error for some.
abbrev pub Answers : Type 0
Answers = SetCall → Option Bytes

-- The calls that were made, and the error.
abbrev pub SetResult : Type 0
SetResult = List SetCall × Option Bytes

abbrev pub default_keep_alive_period : ℤ
default_keep_alive_period = pos 10000000000

unfoldable pub then_period : ℤ → Answers → Option Bytes → SetResult
then_period period answers (some e) = (keep_alive ∷ [], some e)
then_period period answers none =
    (keep_alive ∷ keep_alive_period period ∷ [], answers (keep_alive_period period))

unfoldable pub set_keep_alive : Bool → Answers → ℤ → SetResult
unfolding then_period
set_keep_alive is_tcp answers period =
    if is_tcp then then_period period answers (answers keep_alive) else ([], none)

-- The instant `now` and the time limit; none for a limit of 0.
unfoldable pub until : ℤ → ℤ → Option ℤ
until now time_out =
    if leb_ℤ time_out (pos 0) && leb_ℤ (pos 0) time_out then none else some (add64 now time_out)

unfoldable pub set_read_deadline : Bool → Answers → ℤ → ℤ → SetResult
unfolding until
set_read_deadline is_tcp answers now time_out =
    if is_tcp
    then (read_deadline (until now time_out) ∷ [], answers (read_deadline (until now time_out)))
    else ([], none)

unfoldable pub set_write_deadline : Bool → Answers → ℤ → ℤ → SetResult
unfolding until
set_write_deadline is_tcp answers now time_out =
    if is_tcp
    then (write_deadline (until now time_out) ∷ [], answers (write_deadline (until now time_out)))
    else ([], none)

unfoldable pub set_deadline : Bool → Answers → ℤ → ℤ → SetResult
unfolding until
set_deadline is_tcp answers now time_out =
    if is_tcp
    then (deadline (until now time_out) ∷ [], answers (deadline (until now time_out)))
    else ([], none)
