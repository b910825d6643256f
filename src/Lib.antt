-- ===== src/Lib.antt =====
-- BigData Express, the server's core: the graph of a site's resources, admission control over it,
-- the registration of agents, the set-up and teardown of network paths for a flow, the reports of a
-- running transfer, the grouping of files for it and their checksums, the file that maps names to
-- users, the bootstrap of jobs, and the calls between the sites' parts.
--
-- The parts and how they meet:
--   FilePath     utils/paths/path.{h,cc}: `Path::init` over the outcome of `lstat`, the predicates.
--   PathGroups   utils/paths/pathgroups.{h,cc}: `add_sub_path`, `group_by_size` and `group_into`
--                over such paths; sizes wrap at 2 ^ 64. The walk over a directory is an argument.
--   DirTree      utils/paths/dirwalker.{h,cc} (DirTree/Walker, and DirTree/Deal for its partitions) and
--                of utils/paths/dirtree.{h,cc} `PathGroup` and `partition` (DirTree/Partition). What
--                `readdir` lists is an inductive tree, an argument.
--   Checksum     utils/checksum.cc: the checksum of a directory, one file after the other or by the
--                groups of DirTree/Deal in threads. Which groups find a thread is an argument, and so
--                are the checksum of a file and the digest, which call OpenSSL.
--   GridMap      utils/grid-mapfile.{h,cc}: `grid_mapfile_get_entries`, `grid_mapfile_push_entries`
--                over files that are lists of lines; whether the renames succeed is an argument.
--   Job          server/jobmanager.h and the functions on jobs of `RBase` (server/resourcegraph.cc).
--   Graph        server/resourcegraph.{h,cc}: `RGraph`. Nodes and edges stand in maps and point to
--                one another; a pointer is a key, and to follow one whose entry is gone is the
--                outcome `fault`, beside `ok` and `throw` (Outcome). Graph/Build makes nodes and
--                edges, Graph/Remove is `del_node`, Graph/Links and Graph/Linked are the invariant:
--                the lists of edges of the nodes and the map of edges say the same.
--   Manager      server/resourcemanager.cc over the graph and the jobs: Manager/Probe is
--                `probe_path_rate`, Manager/Provision `query_path_dtns`, Manager/Register
--                `add_modules` and `del_modules`, Manager/Construct `construct`, Manager/Match
--                `match_path_dtns`, Manager/Streams `create_job` and the jobs of a node.
--                Manager/Gateway is about `create_job` in a graph that `construct` has built.
--   Network      server/wan.{h,cc} (Network/Wan) and the network code of server/scheduler.cc:
--                Network/Setup (`setup_wan_path`, `setup_sdn_path`, `verify_path`), Network/Teardown
--                (`teardown_sdn_path`, `teardown_wan_path`, `schedule_clean_up`), Network/Handling
--                (`network_handling` and the part of `schedule` around it), Network/Pairing
--                (`find_best_effort_dtn_pair` and the part of `schedule` before it). An action takes
--                the list of all events so far, the latest first, and returns a result and the
--                longer list.
--                The sites and the WAN service are one parameter, `Net`: their answer to a request
--                may be any function of the events before it, so all delays, failures and
--                inconsistent answers are covered.
--   Store        server/sitestore.{h,cc}, server/typedefs.h: the collections that a transfer reads and
--                writes, as lists of records; an update changes the first document that matches.
--   Scheduler    `mld_status` of server/scheduler.cc over the store and the network: the state
--                (Scheduler/State), the reports of a start and an error (Scheduler/Report) and of an
--                end (Scheduler/Finish), `poll_rate` (Scheduler/Poll), and `schedule`
--                (Scheduler/Schedule) with the launch of a flow (Scheduler/Launch). They set paths up
--                and tear them down by the code of Network, whose events are applied to the store. The
--                clock, the verification of checksums and the presence of a launcher are the record
--                `Env`; for the others there are `PollEnv`, `LaunchEnv` and `ScheduleEnv`.
--                Scheduler/Life puts submissions, runs of `schedule`, polls and reports in a sequence;
--                each is worked off whole before the next.
--   Bootstrap    `bootstrap_transfer_job` of server/scheduler.cc over the store: the identifiers of files
--                (Bootstrap/Paths, with `split` of utils/utils.h), the files by storage
--                (Bootstrap/Sources), `parse_raw_job_src` and `parse_raw_job_src_ds`
--                (Bootstrap/Expand), the rest (Bootstrap/Run). What the portals of other sites answer
--                is an argument, and may depend on all that was asked before.
--   Rpc          utils/rpcclient.{h,cc} (Rpc/Client), utils/rpcserver.{h,cc} (Rpc/Server) and the dispatch
--                of agent/agentmanager.{h,cc} (Rpc/Agents). `RpcClient::call` is two steps, with what
--                arrives between them; Rpc/Book is the client's abstract view, a book of calls.
--   Requests     the requests of server/scheduler.cc for files and folders (Requests/Files) and for SDN
--                paths (Requests/Sdn) over the graph, with `get_user_from_cn` of server/sitestore.cc.
--                What the agents reply is an argument, and may depend on all commands before.
--   Base         the names that all share: tests, lists, signed integers, maps with string keys.
--
-- The state of a class is a record, its map an association list in the order of the keys, and an
-- operation a function from the state; a mutation through a reference is a write at a key. The rates
-- are `double`s in the source, which hold whole numbers of bytes per second exactly below 2 ^ 53;
-- they are integers here.
--
-- Fuel: the loop of `query_path_dtns` (Manager/Provision.make_room) ends when there is no running
-- extra job left, so one round more than there are such jobs is enough. `group_into` deals out one
-- group by rounds, at least one element for each, so the length of the group is enough.
-- `match_path_dtns` passes an entry of one of its vectors in each round, so their lengths are
-- enough. `partition` (DirTree/Partition) has its fuel as an argument, for each path: every sweep over
-- the full groups raises the limit by the size of the path, unless it has none. Every other loop is by
-- recursion on a list, a tree or on the number of tries that are left.
--
-- Not modelled: the JSON documents but for the members that are read, the log, the waits, the
-- queries of the site store for storages and DTNs, the sums of sizes by `nftw` and
-- `DirectoryTree::divide`, map files that cannot be opened, the commands of the agents, MQTT, and
-- of the scheduler the queue of events, handlers that run in several threads at once, the
-- admission of jobs, the lists of storages and DTNs, `publish_dtn_user_mapping` and
-- `get_available_best_effort_dtn`. An exception out of a call of the launcher, of the store or of a
-- site's portal is not modelled. Whether `generate_proxy_cert` makes a proxy or throws is an
-- argument, as it calls OpenSSL, and so are what `group_into` copies of an item that it has
-- destroyed and the rounding of a sum of sizes to a `double`. `utils::guid` draws the identifiers
-- of edges; they are a function of the number of draws, and that no two are equal is a hypothesis
-- where it is used. The steps of `RpcClient` and of the counter of tasks of `checksum.cc` are atomic
-- here.
pub mod Base
pub mod Bootstrap
pub mod FilePath
pub mod PathGroups
pub mod Rpc
pub mod Requests
pub mod DirTree
pub mod Checksum
pub mod Store
pub mod Scheduler
pub mod GridMap
pub mod Outcome
pub mod Job
pub mod Graph
pub mod Manager
pub mod Network
