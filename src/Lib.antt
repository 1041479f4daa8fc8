-- ===== src/Lib.antt =====
-- fsbench: a distributed file system benchmark. A server reads a test configuration, waits for its
-- workers, sends each of them one run after another, sums up what they report and writes a report. A
-- worker lays out a directory tree, queues one work item for each directory, and lets parallel clients
-- create, read, stat or delete the files. A third program compares two reports.
--
-- Prelude        shared names of the libraries, lists over machine numbers, texts, results, Go maps
--                with the orders in which they may be ranged over, sorting, and rearrangements.
-- Common         pkg/common. OpType: the flags of `OpType`, `String`, `ToOpType`. Types: the
--                configuration records and messages. Config: `checkTestCase`, `CheckSetConfig`,
--                `LoadConfigFromFile`. Bytes: `ByteSize`, `ToBytes`, `ToMegabytes`. Encoding: the JSON
--                and YAML methods of `FSD` and `FWD`, and what arrives of a message. Int: Go's 64-bit `int`, with its wrap-around.
-- FilePath       what the program uses of Go's `path/filepath`: `Join`, `Clean`, and decimal numbers
--                as `fmt` prints them.
-- Server         cmd/server/main.go: the IDs and configurations that `scheduleTests` gives the workers;
--                Accept: the workers taken in and shut down; Schedule: its loops over tests, threads and
--                operations, from an accepted configuration; Protocol: one run of it with its
--                goroutines of `executeTestOnWorker`, move by move; Execute: `executeTestOnWorker` by
--                itself, at any messages, and in conversation with a worker; Results: the sums of
--                `sumBenchmarkResults`; Csv: `writeResultToCSV`; Report: `generateResults`.
-- Worker         pkg/worker. Populate: `populateDirs`, `populateLevel`. Queue: `fillWorkqueue`, the
--                works that `workOneShot` sends. Pool: `DoWork` and `perfTest`, the goroutines
--                interleaved move by move, and the panics that end them. Run: these together, and a run of writes on the disk. Disk: the
--                calls of Go's `os` package, on a disk that may show faults. Fs: `OSClient` of fs.go.
--                Operations: `Prepare`, `Do` and `Clean` of workItems.go, with the samples that they
--                take as a log. Metrics: the sums of prometheus.go over gathered metrics, for any type
--                of numbers. Connection: `ConnectToServer`, message by message, and the loop of
--                cmd/worker around it.
-- Compare        cmd/compare/main.go: the index of the rows, the choice of what is compared, the charts
--                and the pages.
--
-- State is passed on explicitly. A pointer that may be nil is an `Option`, a panic is an outcome of
-- its own, and `log.Fatalf` is a value that ends the process. What a loop writes through pointers
-- before it fails is part of its result. A text is the list of its codes; a Go string is its bytes.
--
-- Loops are recursions on the rounds that are left, so there is no fuel but in Bytes and FilePath:
-- `populateLevel` recurses on `Depth - currentDepth`, the loop over the works on the number of files.
-- The pool is a step relation, and its schedules are arbitrary sequences of moves that are not blocked;
-- so is the protocol of a run between the server's goroutines, whose states are those it can reach. A
-- decimal number is printed on as much fuel as it is large. The exponents of a float64 are searched in
-- as many steps as it has: 1024 up, 1074 down, and 11 for a `uint64`.
--
-- The disk of Disk is a list of files with their bytes and the faults still to come: a call takes one
-- fault, and either does what it is asked to, fails with no effect, or moves fewer bytes. Not modelled
-- of it: permissions, direct I/O, symbolic links, and names that are directories and files at once.
--
-- Parameters: the draws of the random source; the readers and writers of YAML, JSON and CSV; what each
-- message decodes to and which message can be sent; the metrics that Prometheus gathers from the
-- samples; clocks; the `uint64` of a float64 that is out of range; the order in which a Go map is
-- ranged over; and for reports and charts the arithmetic of float64.
--
-- A pool of clients does its works in any order. Where their effect on the disk is followed, in
-- Operations and Connection, they are done one after another, in an order that is a parameter;
-- in Run it is the order in which the clients of a schedule end them.
--
-- In Protocol whether the workers come to the end of what they start is a parameter of the run: with no
-- client and a work to send they do not. In Schedule what the workers report is given, and a run waits
-- for ever unless it is as many results as there are workers.
--
-- Not modelled: in Protocol, workers that answer out of turn, which Execute has one by one; latencies,
-- texts of sizes that are not ASCII, the layout of tables and charts, the HTTP handler of the metrics,
-- the command lines, and the S3 client.

pub mod Prelude
pub mod Common
pub mod FilePath
pub mod Worker
pub mod Server
pub mod Compare
