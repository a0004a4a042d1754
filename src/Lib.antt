-- ===== src/Lib.antt =====
-- The Python tools of the repository, modelled and proved: those of deploy/, and of bench/ the two that
-- supervise load clients on another host, the runs of overload and their summaries and audits, the
-- comparison of the servers, and the audit of access logs.
--
-- deploy/ has three tools. connections.py writes an nftables policy for a direct listener;
-- ingress.py writes an NGINX gate and, by connections.py, its policy; worker_cpus.py chooses the CPUs
-- of the server's workers by the topology of the network interface.
--
-- Deploy/Connections models deploy/connections.py and Deploy/Ingress models deploy/ingress.py: a record
-- `Options` with the fields of the dataclass, `validate` with the tests in the order of the source,
-- the generated texts, and `write_bundle`. Their Valid modules describe the options that validation
-- accepts without the tests; their Lines modules count the lines of the generated texts. The gate's
-- budgets are in Ingress and Ingress/Budgets, and `main`'s merge of the command line with the origin's
-- snapshot is Ingress/Merge. The output folder is a state, Deploy/Folder: an action returns a result
-- and the folder it leaves, also when it raises, and between two writes other processes may change the
-- folder by a function that is a parameter. Reading an IP address from its text is a parameter too,
-- since `ipaddress` is not part of the repository. Json is the form of `json.dumps` that the
-- tools use, and Deploy/Names the tests on names and ranges that both share.
--
-- Deploy/WorkerCpus models deploy/worker_cpus.py. CpuSet has Python's sets of CPU numbers as ascending
-- lists and CpuList is `cpu_list`. Machine is a record of the texts that `suggest` reads under /sys and
-- /proc, with the readers that take them apart; Suggest is `suggest` up to the choice, Select its loop
-- over the cache domains, Launch is `launch_arguments`, and Main is `main`. The loop runs on as many
-- rounds as there are workers, which is enough, since each round takes a CPU or ends it with an error:
-- Select/Total.
--
-- Common has the shared names: exceptions as values of a result type, integers over the native numbers,
-- decimal texts, and the count of line ends. Python's integers are unbounded, and so are these.
--
-- Bench/RemoteLoad models bench/remote_load.py, in which an agent runs a load client on another host and
-- a collector gets its events. Events has the events by their kind. Connect is the handshake of
-- `RemoteLoad.__init__` with `next_event` and `start`, and Clock the estimate of the remote clock. Agent
-- is `agent`: the commands, what it checks before a run, the rounds of its loop as a list of what each
-- round finds, and its last event. Collector is `collect` and `completed` with the attributes as a
-- state, and `watch` the caller that polls. Protocol joins the two ends: the events of the agent, spread
-- over the polls in any way.
--
-- Bench/Http2Remote models `run` of bench/http2_remote.py, which supervises the HTTP/2 clients on
-- another host. Setup has the checks and the placement of CPUs and connections; the module itself has
-- the loop, with the five dictionaries as tables, on the list of what each round finds, and the event
-- that ends it. Order and Order/Loop are about the order of its events, Complete and Shards about its
-- result. Both loops of bench/ run on the rounds that are given, so a run that goes on is a longer list.
--
-- Bench/CheckOverload models bench/check_overload.py, the audit of an overload run: the targets, the tests
-- of the report and of each required phase, and the issues. Floats have an abstract arithmetic, the
-- record `Floats`, of which nothing is assumed. Issues has the issues, and Criteria and Passed are about
-- them.
--
-- Bench/SummarizeOverload models bench/summarize_overload.py: its Rows and Samples make a row of the
-- summary from each phase of the client and the samples of its time. Audit joins it with the audit, which
-- first summarizes the report; During, Read and Demonstrated describe what the audit reads of a phase in
-- the figures of the client and the samples, without the summary.
--
-- Bench/Overload models bench/overload.py: the options of `main` and their checks, the commands, and, in
-- Loops and Report, the run; Proc and ProcText have what it reads of the texts in /proc. What the run meets
-- is the record `Outside`: for each round of its loops what is read in it, and what each call of a process
-- or a connection gives; the result is the report that is written and the exception that is raised. Audited
-- joins the run with the summary and the audit. The rounds that are given are those that take place, and
-- the wait for the ports has the error `out_of_fuel` if they end before it does.
--
-- Bench/Compare models bench/compare.py. Arguments has the capacities and commands, Ready the waits, Trial
-- `run_one` with what a trial meets as the record `Outside`, and Summary the trials of `main` and the
-- summary; Outcomes, Groups, Figures and Summarized are about them. Bench/Rotation has the order of the
-- trials, which most drivers of bench/ share, and Bench/Floats the arithmetic of floats with median,
-- minimum and maximum. Bench/NicSamples is `nic_samples` of bench/summarize_http2_diagnosis.py, which
-- reads a counter of 16 bits, and Bench/IdlePressure is bench/idle_pressure_client.py. The ports that
-- the system gives are a list, and `admin_port` has the error `out_of_fuel` if all of them are the
-- public one.
--
-- Bench/UploadClient models the workers of bench/upload_client.py: a worker's loop on the list of its
-- rounds, each with the clock readings and the answer, and the result; Queues has the buckets of the
-- sockets, in which the probes that a connection makes are a list.
--
-- Bench/KeepaliveClient models bench/keepalive_returning_client.py: a request with the replies that its
-- attempts meet, the residents in turn, and the summary.
--
-- Bench/AccessLog models `trial` of bench/access_log.py: the loop over the lines of the log that a server
-- wrote, each reduced to what the loop tests of it, and the tests of the counts. A line without a key
-- that the loop reads is not modelled. Trial has what comes before: the waits and the clients' reports.
--
-- Not modelled: the server itself, in Zig; parsing the command line; the other measurements of bench/,
-- which start servers and clients and record what they print; and the build of OpenSSL's generated
-- sources.
pub mod Bench
pub mod Common
pub mod Deploy
pub mod Json
