-- ===== src/Lib.antt =====
-- fluxlite: a panel that chains TCP and UDP relays over machines reached by SSH.
--
-- The parts, and how they interact:
--   - operators sign in (internal/auth) over tables of accounts, sessions and recovery settings
--     (internal/store/auth.go, internal/store/recovery.go);
--   - a route is validated (internal/model), the planner gives each of its hops a listen port out of the
--     ports that its node has left, and turns the route into one relay configuration per hop
--     (internal/planner);
--   - a route is created over the slug that its name gives, the ports that the tables and each machine's
--     sockets and NAT rules leave, and the tables of nodes, routes and hops (internal/service/service.go,
--     internal/service/slug.go, internal/service/ports.go, internal/store/nodes.go, internal/store/routes.go);
--     its relays are removed when it is stopped, rerouted or deleted;
--   - readings of the relays' counters become running and daily totals (internal/store/traffic.go); at
--     the end of its quota a route is stopped, and it is resumed when the next period allows it
--     (internal/service/traffic.go, internal/store/routes.go);
--   - a plan is applied to its machines, last hop first (internal/applier), over sessions that answer what they like;
--     relays that no route accounts for are taken off (internal/service/orphans.go);
--   - a machine is enrolled by a ticket and the report that redeems it (internal/service/enroll.go, internal/store/enroll.go),
--     and sampled for whether it answers (internal/service/reachability.go), a bounded number at a time
--     (internal/watcher/watcher.go);
--   - log lines are paired into visits and kept in a bounded ring (internal/audit).
--
-- Which file models which part:
--   Common              strings, numbers, tables, effects; no part of the program by itself. Common.HostPort and
--                       Common.Decimal are net.SplitHostPort, net.JoinHostPort, strconv.Itoa and strconv.Atoi.
--   Model               internal/model/model.go: Node, Route, RouteHop, Validate, ValidateTarget.
--   Planner             internal/planner/planner.go: Allocate and firstFree.
--   Planner.Config      the same file: ListenAddress, renderConfig and Build.
--   Store               internal/store/nodes.go: the tables of nodes, routes and hops, with their keys, and nodes.
--   Store.Routes        internal/store/routes.go: CreateRoute, UpdateRoute, DeleteRoute, the lookups and the samples.
--                       Store.Sound says what the keys promise, Store.Saved what UpdateNode leaves, and Store.View sets the tables against a plain list
--                       of routes, the one that Traffic.Quota works on.
--   Ports               internal/service/ports.go: parseListeningPorts, parseNATPorts and liveLookup.
--   Slug                internal/service/slug.go: slugBase and makeSlug.
--   Service             internal/service/service.go: the IPv6 entry check. Service.Nodes is CreateNode and
--                       UpdateNode, Service.Routes CreateRoute and UpdateRoute, Service.Teardown StopRoute,
--                       DeleteRoute and RouteStatuses; Service.Placement, Service.Creation and Service.Editing
--                       compose them with the planner and the tables.
--   Traffic.Db          internal/store/traffic.go: RecordTraffic, counterDelta, PeriodUsage. Traffic.Db.Kernel sets
--                       them against a counter that grows, restarts and is read, and Traffic.Db.Daily against the
--                       usage of a period.
--   Traffic.Period      internal/service/traffic.go: QuotaPeriodStart.
--   Traffic.Quota       the same file: EnforceQuotas, pauseForQuota, resumeFromQuota; SetRouteEnabled and
--                       ClearHopRunning of internal/store/routes.go.
--   Audit.Ring          internal/audit/ring.go: Add, Page and the filter.
--   Audit.Correlator    internal/audit/parse.go: Feed and Prune.
--   Order               internal/store/order.go: reorder.
--   Enroll              internal/store/enroll.go.
--   Enrolment           internal/service/enroll.go: issueEnrollTicket and its callers, applyEnrollment, CompleteEnroll.
--                       Enrolment.Outcome is the report on every branch, Enrolment.Tickets a ticket with its report.
--   Reachability        internal/service/reachability.go, SampleNodeMetrics and UpsertNodeMetrics. Reachability.Misses sets
--                       them against a count of failures.
--   Watcher             internal/watcher/watcher.go: Watcher.Pool is forEachConcurrently, as the steps of its loop, of its
--                       goroutines and of the context; Watcher.Rounds the intervals and what a round works on.
--   Applier.Remote      internal/sshx/sshx.go as the applier calls it, with the history of all calls.
--   Applier.Units       internal/applier/units.go; Applier.Accounting is internal/applier/accounting.go.
--   Applier.Hop         internal/applier/applier.go: what is done on one machine. Applier.Route is applyHop and Apply,
--                       Applier.Removal Remove, Status, InstallRealm and Deployed.
--   Orphans             internal/service/orphans.go.
--   Auth.Db             internal/store/auth.go; Auth.Db.Recovery internal/store/recovery.go.
--   Auth.Login          internal/auth/auth.go: Login and what it calls.
--   Auth.Account        the same file: setup, sessions, password, name and second factor.
--   Auth.Recovery       internal/auth/recovery.go.
--   Tests               runs at concrete inputs.
--
-- How the code is read:
--   - a string is a list of code points, and len() counts the bytes of its UTF-8 form; a time is a number of
--     nanoseconds, and a day the number yyyymmdd;
--   - a table is a list of rows, a statement of SQL a function on it, and a transaction that fails leaves the
--     tables as they were; a statement itself never fails for want of a disk or a connection, or
--     because its request was cancelled;
--   - a method reads the clock where it takes `now` or `later`, and crypto/rand where it takes an optional text,
--     `none` where the read fails; `between` is what other requests commit between the checks of a request and its
--     first write, in CompleteEnroll between its two writes;
--   - password hashes, one-time codes, digests, %q and the comparison of floats against a quota are parameters, of
--     which nothing is assumed but what a theorem names: that a digest and a draw of random bytes are bytes, and that
--     unicode.ToLower gives no capital of ASCII;
--   - ports and ids are natural numbers: a negative one takes the branch that 0 takes. Byte totals are integers, and
--     a reading of a counter is a 64-bit word that the table stores as an int64; the sums of PeriodUsage fail or wrap
--     around as SUM and + do on int64, and so does the start of a page of the ring;
--   - the output of the port script on a node is a parameter, one for each node through an allocation, as the cache
--     of liveLookup has it; so is the answer of the applier to a removal, given how many were asked for before;
--     a round of EnforceQuotas reads the clock once;
--   - net.ParseIP, with what the code asks of the address that it gives, and the encryption of a credential are
--     parameters;
--   - the regular expressions of ports.go are written out as functions on texts;
--   - a goroutine of forEachConcurrently leaves its item only where the work on that item ends, which is a parameter;
--   - DeleteNode asks a parameter whether a subscription member that stays holds the node;
--   - what a machine answers to a call of the applier is a function of all the calls before it, so that nothing is
--     assumed of a shell, a service manager or a network; the scripts that count bytes and list relays stand by name;
--   - the tables that the orphan scan reads are a function of the same history, so that they may change at any time;
--   - the probe of an enrolled node, the key pair, its sealing and the draw of a token are parameters;
--   - in Traffic.Quota, a relay that cannot be removed is only logged, so that the list of removals stands for the
--     calls.
-- No loop needs fuel but the search for a free port, which takes the number of ports of the pool, and the attempts at
-- a slug, of which the code has 8.
--
-- Not modelled: the transport under internal/sshx, what a script of internal/applier does on a machine, ReadCounters,
-- internal/prober and internal/verifier, with what internal/service does around them (ApplyRoute, VerifyRoute, the route
-- samples), the tickers of the watcher, HTTP (internal/api), the sing-box side and its subscriptions, migrations, and
-- the formats of secrets (internal/cryptox).
pub mod Common
pub mod Model
pub mod Planner
pub mod Traffic
pub mod Audit
pub mod Order
pub mod Store
pub mod Slug
pub mod Ports
pub mod Service
pub mod Enroll
pub mod Enrolment
pub mod Reachability
pub mod Watcher
pub mod Applier
pub mod Orphans
pub mod Auth
pub mod Tests
