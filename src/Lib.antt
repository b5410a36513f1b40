-- ===== src/Lib.antt =====
-- A verification library for famclaw, a family assistant: parts of its Go code as definitions, with
-- the theorems that make them correct.
--
-- The parts and their files (source paths are from the root of the repository):
--  - Agentcore: a turn of the agent (internal/agentcore). Turn holds the messages, tool calls and
--    results; Json the argument maps. ToolLoop is NewStageToolLoop (stage_tool_loop.go): State holds its
--    variables and helpers, Call is the body of the inner loop (the checks, policy_gate, run_tool), and
--    Loop is the loop over the rounds, with the vision note, the compression and the failure note.
--    LoopDetector is loop_detector.go, Bridge is compress_bridge.go.
--  - Compress: internal/compress. The estimator is an interface of the source and a parameter;
--    simple_estimate is the one in use. The bridge of the tool loop calls it between two rounds.
--  - Reminder: internal/reminder/scheduler.go over the tables of internal/store/db.go. Row and State
--    hold the rows and the state of a scheduler, Table the statements, Scheduler the methods.
--  - Gateway.Chunk: internal/gateway/chunk.go, ChunkMessage on bytes.
--  - Mcpserver: the gate before the Android tools (internal/mcpserver): PolicyConfig is the policy file
--    after parsing, RateLimit the sliding window, PolicyEngine the method Guard, which uses both.
--  - Web.LoginLimiter: the limiter of login attempts of internal/web/auth.go.
--  - Quarantine: internal/skillbridge/quarantine.go over its table, and the filter of a turn in
--    internal/agentcore/stage_quarantine_filter.go.
--  - Subagent: internal/subagent/scheduler.go, Submit and its goroutines as a step relation.
--  - Gateway.Router: internal/gateway/router.go. State holds the router and what it calls, Skills the
--    commands of a parent on skills, Process the pipeline of a message (transcription, approvals, the
--    guard of a shared device, the commands, the chat), Registration the account that nobody owns.
--    Gateway.Session is the queue of one user of session.go, as steps of Dispatch and of its goroutine.
--    The router calls the tables of Store, and its approvals are those that the web server decides.
--  - Store: tables of internal/store/db.go, each with its statements: Accounts (with internal/identity),
--    Approvals, Conversation (internal/agentcore), Roles, and Tokens for the links that were used.
--  - Notify.Token: GenerateToken and VerifyToken of internal/notify, over Notify.Base64 and
--    Notify.Decimal, the parts of the standard library that they use.
--  - Web.DecideLink: the two handlers of internal/web/server.go that decide an approval; the link is
--    a token of Notify.Token, and the tables are Store.Tokens and Store.Approvals.
--  - Toolcache: internal/toolcache. Rows is the table, Files the payload files, Cache is Put and More,
--    Sweep the sweep, and Ids the ids of the entries.
--  - Reminder.TimeParser: the times that a reminder is asked for (internal/reminder/timeparser.go).
--    Match holds the regular expressions, Words the calendar and the units, Float the floats of Go,
--    Absolute and Relative the two forms. Reminder.Tool is the handler that adds a reminder (tool.go), with CanonicalName of
--    internal/config/config.go; the row that it adds is one that Reminder.Scheduler delivers.
--  - Scenarios: concrete runs, at which the theorems are applied.
--
-- Conventions. A Go method that changes state is a function from a state to the next one. What the
-- code does not decide (the database, the gateways, the model, the policy engine, the tools) is a
-- function of the number of the call, so that each outcome may differ from call to call; hashes
-- and times are parameters. Numbers are natural numbers: the counters and lengths that are
-- modelled are never negative, and they stay far below 2^63. The products of durations in the time
-- parser, which may be larger, are taken modulo 2^64. The tables count a time in seconds, the
-- cache in milliseconds and the time parser in nanoseconds. Each call of a database is told
-- whether it fails. Texts are made lower on the letters of ASCII only. The HMAC, the hashes, the
-- decoding of audio, the policy evaluator, the classifier and the commands on MCP servers are
-- parameters, and so is the calendar of a location. A nil map of arguments, which
-- reflect.DeepEqual tells from an empty one, is taken for an empty one. A float of 64 bits is a
-- mantissa over a power of two, and each quotient and sum is rounded to the nearest one.
--
-- Fuel. The loop of ChunkMessage has one round of fuel more than the text has bytes, which is
-- enough because each round takes at least one byte. The rounds of a turn are counted by
-- MaxIterations, as in the source (25 for 0). Printing a decimal number n has n rounds of fuel,
-- which is enough because each divides by ten. The scale of a float is found in 128 doublings,
-- which is enough because the least quotient, a nanosecond in hours, is above 2^-42.
--
-- Not modelled. RebuildHistory of the tool loop (off by default). Log lines and durations. Passes
-- of the reminder scheduler that overlap: a process is a list of passes, one after the other,
-- while Start and ReschedulePending of cmd/famclaw/main.go may run at the same time. The text of a
-- reminder notice. The shutdown of a session, StartAll and the restarts of a gateway, the commands
-- on MCP servers. The page that the handler of a link prints. Reconcile and the timer of the
-- cache. The listings of the tables (approvals, accounts, roles), which only read. Network, files,
-- SQL and the Rego policies are outside.
pub mod Prelude
pub mod Agentcore
pub mod Compress
pub mod Gateway
pub mod Mcpserver
pub mod Notify
pub mod Quarantine
pub mod Reminder
pub mod Store
pub mod Subagent
pub mod Toolcache
pub mod Web
pub mod Scenarios
