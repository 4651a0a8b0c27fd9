-- ===== src/Lib.antt =====
-- xboard-node: the node agent of the Xboard panel. It keeps a list of users in step with the panel,
-- runs a proxy kernel (sing-box or xray-core), limits devices and bandwidth, counts traffic, and
-- reports to the panel. This library models the agent's own state and logic, and leaves the
-- kernels, the network and the file system out.
--
-- The parts, and how they interact: the configuration file becomes a list of instances and nodes,
-- each of which runs a node service; the panel's REST answers and WebSocket events become the types
-- of internal/model; in machine mode the events of a node wait, merged, in a mailbox that the
-- node's service drains, and the machine's orchestrator starts and stops those services; the
-- service hands the users to the limiter, the speed tracker and the kernel's connection tracker;
-- the kernel's counters go through the traffic tracker back to the panel.
--
-- - Common: shared helpers. Tests (Boolean tests, list measures), Int (int64 with its wrap-around
--   written out), Key and Maps (a Go map is a list of entries, so that a theorem about every list
--   is one about every iteration order), Strings (byte strings, sort.Strings), Sorting, Results (Go's
--   errors), Ascii and Paths (what is used of the strings, strconv and path/filepath packages), Sets,
--   Decimal.
-- - Model: internal/model/types.go, custom_route.go (NodeSpec, Value), the copying helpers (Clone),
--   and internal/model/panel.go (FromPanel, ToPanel, RoundTrip). cloneNodeSpec of
--   internal/controlplane/mailbox.go is in Model/NodeSpec. Panel: the records of
--   internal/panel/types.go. A nil map, slice or pointer is `none`.
-- - Config: internal/config/config.go and standalone.go. Its child modules are named for what they
--   model: Inherit (inheritFrom), Env (applyEnvOverrides, resolveEnvRefs), Defaults
--   (setDefaultsFrom), Validate (validate, validateStandalone), Instances (AutoInstanceID,
--   normalizeBaseURL, NormalizeInstances), Load (LoadRoot, Load), Expand (ExpandNodes,
--   ExpandMachineNode) and Layout (ValidateStartupLayout). Reading files, filepath.Abs, YAML, the
--   environment, url.Parse and SHA-1 are parameters, most of them in the record Outside.
-- - Validation: the validation of a node in internal/model: validate.go (Transport, Spec),
--   custom_config_tags.go (Tags), custom_outbound_validate.go and custom_outbound_support.go
--   (Outbounds), custom_route_validate.go and custom_route_support.go (Routes).
-- - Standalone: internal/model/standalone.go and internal/controlplane/local.go.
-- - Limiter: internal/limiter/limiter.go; update_users is UpdateUsers, get_device_limit_by_uuid is
--   GetDeviceLimitByUUID.
-- - SpeedTracker: internal/limiter/speedtracker.go; update_buckets is UpdateBuckets, get_limiter is
--   GetLimiter. It drops its locks half-way: find_limiter is what comes before and store_limiter
--   what comes after, so a theorem about store_limiter for any decision covers every interleaving.
--   golang.org/x/time/rate is the parameter RateLib with the documented behaviour of its setters;
--   limiters are behind pointers, so the tracker has a store of them.
-- - Tracker: internal/tracker/tracker.go; process, flush_traffic, restore_traffic, flush_alive_ips and
--   restore_alive_ips are the methods of those names. Tracker/Ledger puts it in the loop of
--   pushReportAsync of internal/service/service.go: one report at a time, which the panel accepts
--   or refuses while Process goes on. SHA-256 is the parameter `digest`.
-- - ControlPlane: internal/controlplane/mailbox.go and the events of types.go; apply is Apply,
--   drain_if_ready is DrainIfReady. Wakeup has the goroutines as a step relation, with the
--   notification after the unlock as a step of its own.
-- - SingBox: internal/kernel/singbox/conntracker.go; add_conn, remove_conn, check_device_gate, routed
--   (RoutedConnection and RoutedPacketConnection) and close are the functions of those names.
--   Accounting has the byte counters, GetUserTraffic, ActiveCount and CloseByID.
-- - Service: internal/service/service.go; merge_users, subtract_users, prepare_user_state,
--   restore_user_state, ensure_running and apply_user_update are the functions of those names, and
--   should_skip, on_success and on_failure the methods of apiBackoff. What the kernel answers is an
--   argument, and the hash of the users is the parameter `user_hash`. Resync has the polls with the
--   channel of their results (pullViaAPIAsync, requestWSResync, handleWSStatus), Runtime the checks of
--   validateNodeRuntime, Events handleWSEvent, applyPullResult and drainMachineMailbox; what the
--   kernel, the hash of a configuration and the certificate manager answer is the record Oracle.
-- - Sources: internal/controlplane/panel.go and machine.go; translate_ws_event is TranslateWSEvent, and poll
--   is Poll. What the panel's client answers is an argument.
-- - Machine: internal/machine/machine.go; start_node, stop_node, rediscover, on_ws_event and
--   on_ws_status are the methods of those names, end_run the end of a node's goroutine; boot and
--   drain_box are what the service of a node does to its mailbox (markMailboxReadyAndDrain and
--   drainMachineMailbox of service.go). Happenings has them in any order, each one step; Overlap has
--   the parts of stopNode as steps of their own.
-- - Websocket: internal/panel/ws.go; handle_data_event is handleDataEvent, from the decoded payload on,
--   and run the back-off of Run. The random number of the jitter is an argument.
-- - Xray: internal/kernel/xray/dispatcher.go; check_device_limit is checkDeviceLimit, split into
--   find_path (what it reads) and finish (what it does under the write lock), del_conn is delConn,
--   dispatch and dispatch_link are Dispatch and DispatchLink for a user that is named, close_link is
--   closeTrackingWriter. What xray-core answers is an argument.
--
-- Bounds: int and int64 are 64 bits; sums and products are wrapped, and a theorem that needs a sum to
-- fit says so. Numbers of connections are not wrapped. The only fuel is that of digits:
-- 13 for the 36-ary ones, as many as the buffer of the source, and 20 for the decimal ones, which is
-- enough for 64 bits. TrimSpace and ToLower are those of ASCII text.
--
-- Not modelled: I/O, logging, clocks (a time is an argument), the watcher of the configuration
-- file, the proxy kernels and their configuration, HTTP, sockets and JSON, certificates, the
-- Telegram bot and the command line.
pub mod Common
pub mod Model
pub mod Panel
pub mod Config
pub mod Validation
pub mod Standalone
pub mod Limiter
pub mod SpeedTracker
pub mod Tracker
pub mod ControlPlane
pub mod SingBox
pub mod Xray
pub mod Service
pub mod Sources
pub mod Machine
pub mod Websocket
