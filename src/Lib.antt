-- ===== src/Lib.antt =====
-- A verification library for shawk, which traces the sockets of hosts and keeps the dependencies of
-- their processes in a database.
--
-- The program. An agent runs on each host. In polling mode (agent/polling) a ticker scans the
-- sockets of the host through probe/netlink into a buffered channel, and a second ticker flushes the
-- channel into the database (db). In streaming mode (agent/streaming) an eBPF tracer (probe/ebpf)
-- sends an event for each connection, and a ticker aggregates the events and inserts them. All parts
-- exchange host flows (probe): a direction, a local end, a peer end, a process, and a number of
-- connections. Flows with one unique key are one entry of a map.
--
-- The files.
--   Prelude        lists, texts, Go's error results (Result) and Go's maps (Map: lookup, insert).
--   Strconv, Net   what the code uses of Go's strconv, fmt, strings and net, by their documentation.
--   Probe          probe/probe.go: FlowDirection, AddrPort, HostFlow, UniqKey (uniq_key) and the map
--                  HostFlows with Insert (insert_flow, merge). Keys, Flows, WellFormed and Origin are
--                  about unique keys, the entries after a sequence of calls, the invariant of the
--                  map, and where its entries come from. Json is MarshalJSON.
--   Netutil        probe/netlink/netutil: private addresses, sockets that listen, links of sockets
--                  (parse_socket_inode). Procfs is ProcfsConnections and decodeAddress, Stat is
--                  parseProcStat, Entries is BuildUserEntries, Local is NetlinkLocalListeningPorts
--                  and LocalIPAddrs. Inode, Private and Entries/Found are about parseSocketInode,
--                  IsPrivateIP and BuildUserEntries.
--   Netlink        probe/netlink/connections.go: GetHostFlows, GetHostFlowsByNetlink and
--                  GetHostFlowsByProcfs. Classify, Counts, Complete, Owners with FromProc, and Agree
--                  are about which flow a socket becomes, how many are counted, that none is missing,
--                  which process a flow names, and the agreement of the two probes.
--   Db             db/db.go on the tables of assets/schema/flows.sql. Tables holds the rows, Session
--                  the state behind a connection and the handling of answers, Statements the SQL
--                  texts with the constraints of the schema, Insert the whole of
--                  InsertOrUpdateHostFlows. Grows, Posts, Finds and Runs are lemmas on the
--                  statements; Insert/Done, Insert/Edges, Insert/Branches and Insert/Recorded carry
--                  them through the code. Insert/Total, Insert/Ahead, Insert/Accepts and
--                  Insert/Succeeds are about when it returns without error, and Insert/Atomic is about its errors.
--                  Consistent is about the constraints UNIQUE and REFERENCES, its children Numbers,
--                  Sound and SoundInserts about PRIMARY KEY and CHECK, and Insert/Keeps with
--                  Insert/Consistent carry them through the code. Flows is FindPassiveFlows and
--                  FindActiveFlows from the rows of their queries on, and Select their SQL texts as
--                  joins of the tables. Flows/Grouped, Select/Joins, Select/Distinct, Select/Latest
--                  and Select/Found are about the map that they return.
--   Agent          agent/streaming/streaming.go with probe/ebpf/ebpf.go (Streaming: flow_of_event,
--                  trace, aggregate; Streaming/Aggregator is the goroutine aggregator as a function
--                  of a schedule, and Streaming/System a step relation on the state that it shares
--                  with the loop of StartTracer, with Keeps, Counts, Stuck and Moves about the states
--                  that it reaches), and agent/polling/polling.go (Polling: scan_flows, run_once,
--                  flush, buffer_capacity; Polling/System is a step relation on the state that the
--                  goroutines of watch, scanFlows, flusher and flush share, with Keeps, Safety and
--                  Reports about the states that it reaches). Channel is Go's buffered channels.
--                  Pipeline is about a scan and the insertion of its flows together. Life is Wait of
--                  agent/agent.go and the two functions Run (wait, run_polling, run_streaming).
--   Logging        logging/: the levels and the Logger on a Console (log, set_log_level). Filter is
--                  about the messages that reach the stream.
--   Flag           Go's package flag, by its documentation, as main.go uses it.
--   Config         config/config.go: load.
--   Statik         statik/statik.go: find_string.
--   Command        command/: probe, create_scheme, and Look (look, do_ipv4), with New and
--                  CreateSchema of db/db.go. Modes is about the end of probe, and Look/Printed, with
--                  Look/Groups, about what look prints of the rows of its queries, and Look/Newest of
--                  the tables.
--   Main           main.go and version/version.go: run, dispatch, do_look, do_probe and
--                  do_create_scheme, with the help texts in Texts. Dispatch, Debug, Depth and Once are
--                  about the exit codes, the option --debug, the depth of look, and probe --once.
-- Each part has a module Tests with runs of the definitions and the theorems at concrete inputs.
--
-- How the code is read. A Go call that returns an error is an Outcome: ok, err, or panics. Native
-- numbers stand for Go's integers, with the wrap-around of a counter written out; an int that may be
-- negative is its 64-bit pattern. Strings are lists of bytes. A map is an association list that
-- is only read through lookup; where the code ranges over a map, the order is a parameter. A channel
-- is its capacity and its items, and an operation that can not go on is blocked. A database statement
-- is a function on a session; it fails for the reasons that the schema gives, and also wherever the
-- server says so.
--
-- Parameters. The server is a record Postgres: how it reads an inet and an integer, which texts it
-- takes, which row of an unordered result it sends first, which of its answers fail, and whether a
-- commit whose answer failed was done; IsPostgres is the documented part that the theorems use, that a
-- search sends a row exactly if there is one, and one of the result's.
-- What a probe is told is a record Host: the entries of the processes, the sockets of the netlink
-- answer, the text of /proc/net/tcp, and the resolver of addresses. The rows that FindPassiveFlows
-- and FindActiveFlows read are the answer of a function, which the commands leave open; Select fills
-- it in with the joins. What it takes from the server and its driver is a record Selects: which inet
-- value stands for an address and which address for an inet value, which timestamp for a time, and
-- the order of the rows, of which IsSelects is the documented part. What BuildUserEntries reads of
-- /proc is a list of what each read, stat and readlink gave. The reversal of bytes of gopsutil, getpgid, and the
-- database of flush are arguments. What the commands are told is a record World, and what Run is told
-- besides is a record Shell: connections, signals, durations, the environment, the header of a log
-- line, and the text of an error. The embedded files are a record Files, and the encoding of a JSON
-- string is an argument.
--
-- Bounds and fuel. format_uint runs on the fuel n + 1, and a number n has no more digits. The flush
-- loop and the loop of aggregate run over the length that the code reads from the channel first. The
-- other loops are structural.
--
-- Not modelled. Times and tickers, of which only the order of their ticks is modelled; what the
-- goroutines of the agents log while a command waits; what overlapping calls of
-- InsertOrUpdateHostFlows on one connection, which its driver does not allow, make of the database;
-- signals, connections, and the start of the tracer, which only do I/O or call libraries; the data of
-- statik/genstatik; the test helpers of db/testing.go; the copies of other projects under vendor.
pub mod Prelude
pub mod Strconv
pub mod Net
pub mod Probe
pub mod Netutil
pub mod Netlink
pub mod Db
pub mod Agent
pub mod Logging
pub mod Flag
pub mod Config
pub mod Statik
pub mod Command
pub mod Main
