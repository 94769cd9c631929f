-- ===== src/Lib.antt =====
-- The agent of ohmyjob: a daemon that polls its server for leases, runs the leased commands, sends
-- their output and reports how they ended.
--
-- The parts of the program, and the files that model them:
--
-- - Protocol.antt: the statuses, reasons and error codes of internal/protocol/enums.go. A Go string
--   type is `String`, so that a value from the server may be any text.
-- - Output/Chunker.antt: internal/output/chunker.go, `Write`, the flush ticks and `Close`. An operation
--   returns the new chunker and the chunks that it handed on. Bytes are numbers.
-- - Output/Buffer.antt: internal/output/buffer.go, the chunks of all runs that the server has not
--   acknowledged, under one cap. `chunker.receive` is `Buffer.Add`. The map of runs is an association
--   list; the order in which Go ranges over it is an argument.
-- - State.antt: internal/state/state.go, the active runs and the recorded outcomes, with the file that
--   keeps them. Which of the calls to the file system and the encoder succeed is an argument.
-- - Client/Errors.antt, Client/Backoff.antt, Client/Retry.antt: internal/client/errors.go and
--   internal/client/backoff.go. Go's floats are a parameter, with the operations that the code uses.
-- - Agent/Registry.antt, Agent/Terms.antt, Agent/Lease.antt, Agent/Polling.antt, Agent/Outcomes.antt,
--   Agent/Reporter.antt, Agent/Delivery.antt, Agent/Startup.antt, Agent/Discoveries.antt: internal/agent.
--   `Agent` of Agent/Types.antt holds what changes while the agent runs. `handle_lease` is handleLease
--   of internal/agent/lease.go: it returns the new agent and the calls of the server and the runner, in
--   order; what those answer is a field of `Outside`. The wake-ups of `supervise`
--   (internal/agent/reporter.go) are steps, in any order and with any answers, and
--   Agent/Reporter/Drain.antt is what follows them, `drain` and `finish`. Agent/Polling/Loop.antt is the
--   poll loop, whose list of rounds ends when the context does. Agent/Traces.antt puts leases and
--   releases one after another. Agent/Discoveries/Payload.antt is the wire form of a discovery.
-- - Runner/Process.antt, Runner/Limits.antt: internal/runner. Cancellation, the timer, signals that fail
--   and the end of the process are a step relation.
-- - Config/RunAs.antt: internal/config/runas.go, the users that work may run as. Config/File.antt and
--   Config/Credential.antt: config.go, parse.go and credential.go beside it. An error is the line, the
--   key or the field that it names; the text around those is left out.
-- - Client/Calls.antt: internal/client/client.go, a call of the server from its headers to the decoded
--   answer. The transport, net/url and the decoder of JSON are arguments.
-- - Discovery.antt and its children: internal/discovery. Discovery/Entries.antt is discovery.go, the
--   collection with its budget; Discovery/Schedule.antt, Discovery/Crontab.antt and Discovery/Names.antt
--   are the lines of a crontab and the names of its files, Discovery/Sources.antt the files and
--   directories (crontab.go); Discovery/Timers.antt and Discovery/Units.antt are timers.go, and
--   `collect` stands in Discovery/Units.antt. The file system and the output of systemctl are arguments.
-- - Machine.antt: internal/sysinfo/sysinfo.go. Enrolment.antt: internal/enroll/enroll.go, which returns
--   what it did in order, with the identity of the machine or the reason of the failure. Doctor.antt:
--   internal/doctor/checks.go, the checks with their statuses. What the machine and the server answer is
--   a record of arguments in each.
-- - Text.antt and its children: the functions of Go's `strings`, `strconv` and `fmt` that these use, on
--   lists of code points.
--
-- Base.antt and its children hold what these share: lists and tests on native numbers, signed numbers,
-- maps, machine words. A child of a component's module holds proofs and is named for what they prove;
-- the modules whose names end in Examples run the theorems at concrete inputs.
--
-- How the parts interact: a lease that passes `verify` becomes a `Run` in the registry, with a chunker
-- that feeds the buffer; its reporter takes batches from the buffer, and at the end records the outcome
-- in the state file before the run leaves the registry (`release`), so that a lease that is repeated
-- finds the run in one of the two. A mutex makes each operation of its type one step. Enrolment writes
-- the configuration and the credential, which the agent and the doctor load; the agent, the doctor and
-- the request of an enrolment take the users that `resolve_run_as` finds.
--
-- Loops that are not structural take fuel. `write_loop` has the number of bytes, of which each round
-- takes at least one; `make_room` one more than the number of chunks, of which each round drops one;
-- `retry` is given its fuel from outside and says when it is out, and so is `drain`, which needs more
-- rounds than the run has chunks in the buffer; `groups_from` has one more than the number of
-- characters, of which each round takes at least two; `digits` one more than the number, which each
-- round divides by ten.
--
-- Numbers: an `int64` or a sequence number wraps where the code can reach the end (`wrap_i64`, `u64`).
-- Times and durations are nanoseconds; a time is a natural number. A text that the code reads character
-- by character is a list of the code points of valid UTF-8, with `size` its number of bytes; that the
-- bytes of texts in memory add up below 2 ^ 63 is taken for granted. The table of printable characters
-- that `%q` consults is a parameter, and so is the context of a discovery, which stops at a given call.
--
-- Not modelled: encoding and decoding of JSON, the transport of HTTP and the deadlines of its calls,
-- logging, the operating system's processes and users, and its paths, since these are the platform's
-- and of the libraries; the command line, which wires the parts together and prints; the sentences
-- of the doctor's details and of the errors of enrolment, which no code reads; the construction of an
-- agent, and the two stages of a stop.
pub mod Base
pub mod Protocol
pub mod Output
pub mod State
pub mod Client
pub mod Agent
pub mod Runner
pub mod Config
pub mod Text
pub mod Discovery
pub mod Machine
pub mod Enrolment
pub mod Doctor
