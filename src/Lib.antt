-- ===== src/Lib.antt =====
-- Verification of the Spyre health checker, a Go daemon that collects the states of the Spyre cards
-- of a node from several reporters, merges them, and streams the result to gRPC clients.
--
-- The parts of the program and their models:
--   Types: pkg/types/types.go, and the messages of pkg/health/spyre. A DeviceState is what a reporter
--     says of a PCI address; a Reporter collects a list of them from a world W, which holds what is
--     outside the program at the time of the call.
--   Reporter: internal/reporter. reporter.go is stamp and Reporter/Merge (Merge); lspci.go is
--     Reporter/Lspci with Header (splitByBlankLines, parseHeader) and Details (parseDetails);
--     Form writes out the header line that parseHeader accepts, and Accept to Output relate the parser to
--     it and to what lspci prints;
--     ras.go is Reporter/Ras with Pods (skipPod and what it calls), Logs (scanLines,
--     extractSENPCIAddress) and Watch (from scanContainerLogs up to Start); pseudo.go, cardmgmt.go and
--     cardmgmt_client.go are Reporter/Pseudo, Cardmgmt and CardHealth.
--   Healthcheck: internal/healthcheck/healthcheck.go, Vitals and the check of the kernel driver.
--   Utils: internal/utils, the pseudo devices, the gauge of the device states, and the interval.
--   Server: pkg/server/server.go. Devices is checkForRemovedDevices and getPbDevices, Stream the two
--     stream handlers, Authorize the policy on client certificates, Ready the readiness probe, and Queue
--     the flags and the channel that UpdateHealths, the handlers and Stop share, as a step relation,
--     with Order on the order of updates and Reconnect on clients that come back. Setup is NewServer,
--     the start of the three servers and Stop.
--   Main: cmd/health-checker/main.go, buildReporters, in Main/Refresh the refreshes of main, in
--     Main/Nominal the way from lspci to what is published, in Main/Delivery the way from the rounds of the
--     loop to a client, in Main/Flags the flags, and in Main/Startup
--     main itself (and internal/utils/global.go), up to its loop or its end.
--   Regexp and Scanner: Go's regexp and bufio.Scanner as far as the parsers use them. An expression is
--     data; Regexp/Sound, Complete and Search relate the matcher to a relation without a search order,
--     Regexp/Language to the texts that an expression describes, Regexp/Pieces to those of small ones, Regexp/Shape says what a match tells
--     of its groups, and Regexp/Fuel is about the fuel. Base has texts, dictionaries and lists.
--   Client: cmd/client/client.go, the example client, and in Client/Log what its log tells.
--
-- How the code is modelled:
--   A Go string is a list of code points. A Go map is an association list with distinct keys, and
--   `range` over it visits a permutation of it that is an argument (MapRange). An error is a value of
--   Outcome. A method on a mutable receiver takes the old state and returns the new one; a method that
--   holds a lock throughout is one step. What the program asks of its surroundings is an argument: the
--   output of lspci, the answers of the Kubernetes API and of the sidecar, os.Stat, whether a message
--   can be sent, the calls of the operating system, of TLS and of HTTP that start and stop the servers,
--   time.ParseDuration, and what the metrics registry answers. A goroutine's loop is a function of the list of what it receives.
--   A repetition in an expression runs on fuel, one more than the characters that are left: each round
--   takes a character, so that no round lacks fuel. `%d` is written on as much fuel as the number.
--
-- What is not modelled: logging (but for the Infof lines of the example client) and debug printing, the parsing of the command line, what the TLS, gRPC
-- and HTTP libraries do with the servers once these are set up, and the generated accessors and
-- serialisation of the messages.
pub mod Client
pub mod Base
pub mod Types
pub mod Regexp
pub mod Scanner
pub mod Server
pub mod Reporter
pub mod Utils
pub mod Healthcheck
pub mod Main
mod Tests
