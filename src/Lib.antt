-- ===== src/Lib.antt =====
-- optimusprime is a Go library for servers: packets over TCP, tasks that run the handlers of
-- requests, rate limits, and what they share. This library models its core in the way the code is
-- written: a type per struct, a function per operation, and each call that holds a mutex as one
-- step of the state it guards.
--
-- The parts:
-- - net/ratelimiter: RateLimiter. bucket.go (NewBucketWithIncrement, adjust, Cal, Wait) is
--   RateLimiter.Bucket, leaky.go is RateLimiter.Leaky, ratelimit.go (NewRateLimit, Stop, Rate,
--   Capacity) is RateLimiter.Front. Times and durations are int64 with their wrap-around
--   (Prelude.Word), the clock is an argument. The loops of NewBucketWithRate and
--   NewLeakyBucketWithRate are RateLimiter.Search on a fuel of 2 ^ 50 + 1, which the bound
--   maxIncrement of the loops makes enough; float32 is an interface (RateLimiter.Float).
-- - net/tcp_reader.go and net/tcp_writer.go: Net.Packet, over the streams of Net.Stream, which
--   stand for io.Reader, io.Writer, io.ReadFull and encoding/binary. The reader is a state monad
--   with errors and panics.
-- - net/tcp_connection.go: Net.Connection (newTcpConnection, Receive, Send, Close);
--   Net.Connection.Exchange puts two connections against each other.
-- - net/tcp_client.go: Net.Client. newClientTcpConnection, connectServer, freeClientTcpConnection
--   and closeClientTcpConnection are steps of the pool, sendClientRequest and
--   sendClientRequestNoResponse loops over what their rounds meet (the dialling, the deadline,
--   Send and Receive). The loops have the two rounds of maxBadConnRetries.
-- - net/tcp_server.go: Net.Server. The accept loop, the goroutines of the connections and the
--   calls of stop are steps on the shared state, in any order; closeConnections goes through the
--   map one connection at a time. Each write of the map says whether it falls together with the
--   iteration, which ends the process.
-- - net/tcp_common.go: Net.Address (parseListenAddr, getAddrByNetIf, isIPv4, isIPv6); the
--   interfaces of the host are an argument.
-- - task: Task has the handles and the pools of the five kinds of task (the files tcp_task.go,
--   http_task.go, ws_task.go, api_task.go, timer_task.go and their _handle.go), Task.Lookup the
--   search by goroutine and the log lines (task_common.go), Task.Timer the timers, Task.Params
--   the parameters of API tasks, and Task.Run the methods Run as a step relation between the
--   caller and the goroutine of the handler, with the recover of common/safe.go.
-- - common/config.go: Common.Config (GetConfigByKey and the defaults) and Common.Config.Load
--   (LoadConfigFromFile, LoadConfigFromData). common/table.go: Common.Table (AddRow,
--   calculateSizes, fieldString, rowString, getHead, Print with its lines of dashes in
--   Common.Table.Print, and the functions that print at once in Common.Table.Shortcuts);
--   stringWidth, which counts the cells of a text on the screen, is an argument.
-- - log/logext.go: Log.Logger has a logger with its levels, flags and counters, and the line that
--   Output makes of a message (formatHeader2, Debugf and its like); Log.Logger.Header is
--   formatHeader with moduleOf, Log.Logger.Levels the calls that end the program or panic, and
--   the setters, Log.Logger.Printed the calls without a format; Log.Decimal is itoa. Log.Writer
--   is the goroutine RealWrite with the callers of Output as a step relation, whose buffer has
--   the 1000 places of BUFFER_LEN.
-- - log/logrotate.go: Log.Rotate (NewRotateLogger, SetLogf, SetOutputLevel, Output and the check
--   of lorateLog). Log.Files is the rotating logger at work: the callers of Output, lorateLog
--   with SetLogf, and the goroutines of all files, as steps in any order. log/api.go: Log.Api
--   (InitLogger, SetLogLevel, DEBUGF and its like), over the rotate mode of log/logext.go.
-- - persistence/mysql/mysql.go: Persistence.Mysql has the connection with its map of
--   transactions, Persistence.Mysql.Select reads the rows of an answer, Persistence.Mysql.Pool
--   has GetMysqlInstance. What database/sql answers is an argument, which sees all calls before;
--   the calls are kept as a trace, against which Persistence.Mysql.Trace and
--   Persistence.Mysql.Ledger compare the map.
-- - net/api.go and net/http_server.go: Net.Api, with the multiplexer of the process as a state.
--   net/http_client.go: Net.Http. The deadlines of net/tcp_connection.go are
--   Net.Connection.Deadlines.
-- - common/aes_cbc.go, common/commandline.go, common/goid.go and common/safe.go: Common.Aes,
--   Common.Options, Common.Goid and Common.Safe. Task.Dump has the copies of the pools, Task.Stat
--   the table of the running tasks. Log.Rotate.Names has LogName and ParseIdx.
-- - Prelude has the numbers, lists, maps and texts that the others share.
--
-- How they interact: a Reader holds a RateLimit and calls its Stop (Net.Packet uses
-- RateLimiter.Front); a connection holds a reader and a writer (Net.Connection uses Net.Packet);
-- the client and the server know a connection by its id and by whether it is closed, since their
-- code uses nothing else of it.
--
-- Not modelled: net/websocket, common/uuid.go and common/runewidth.go, which are copies of other
-- libraries; main.go, which only calls the library; controller, which is adapted from the Revel
-- framework. What the standard library does (dialling, deadlines, JSON, the clock) is given to
-- the definitions as an argument. Two calls that race without a mutex are not modelled, but for
-- closeConnections and the rotation of a log: the levels of the leaky bucket are steps here, and
-- the calls of GetMysqlInstance come one after the other. In Log.Rotate one call is followed, and
-- which logger it sees while the file is rotated is an argument; the callers that hold an old
-- logger are in Log.Files.
pub mod Prelude
pub mod RateLimiter
pub mod Net
pub mod Task
pub mod Log
pub mod Persistence
pub mod Common
