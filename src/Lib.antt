-- ===== src/Lib.antt =====
-- zwrt-datad is the data and control daemon of a family of 5G routers (rust/src). It polls the vendor's
-- interfaces over ubus, publishes one JSON state, and runs bounded jobs of its own on the device.
-- This library models parts of its Rust code by functions that run, and proves what makes them
-- correct.
--
-- The parts and how they interact. The server (rust/src/server.rs) owns one value of each component
-- behind a mutex and calls its operations in any order; so each component here is a state record, a
-- function per operation, and a list of calls that a trace module runs.
--   * Recovery (rust/src/network_recovery.rs): after unanswered probes it plans a redial or a reboot.
--     `Recovery.State` has the settings, the stored state, and `load`; `Recovery` the operations
--     `reserve_check`, `update`, `resume`, `manual_intent`, `may_probe`, `hold`, `observe` and
--     `allows`; `Recovery.Probe` the checks of probe addresses; `Recovery.Eligible` which snapshots
--     count; `Recovery.Trace` the calls.
--   * Schedule (rust/src/reboot_schedule.rs): one reboot a day at a fixed time. `Schedule.LocalClock`
--     reads the line that /bin/date prints, `Schedule` has `load`, `set`, `observe`,
--     `set_environment` and `reboot_failed`, and `Schedule.Trace` the calls and restarts.
--   * Tasks (rust/src/task_schedule.rs): the tasks of the panel, each at most once a day. `Tasks.Params`
--     has `action_valid` and `scheduled_sms_params`, `Tasks` has `load`, `upsert`, `remove`, `observe`
--     and `finish`, and `Tasks.Trace` the calls and restarts.
--   * Journal (rust/src/activity.rs): the history that the other jobs report to. `Journal` has the
--     levels, `load`, `push`, `flush`, `set_level`, `clear` and the pages of `view`; `Journal.Trace`
--     the calls and restarts.
--   * Sessions (rust/src/auth.rs): who may use the interface on the local network. `Sessions` has the
--     table with `validate` and `issue`, and `secure_eq`; `Sessions.Trace` the calls.
--   * Device (rust/src/device_session.rs): the session at the vendor's web service. `Device` has
--     `login`, which also gives the calls of the vendor's services that it makes, `active` and
--     `expired` (here `has_expired`) and how the vendor's answers are read; `Device.Trace` has the
--     calls of the daemon.
--   * Charge (rust/src/charge_protection.rs): the protocol with the battery driver, `settle`,
--     `release_hold`, `set_threshold`, `restore_default`, `holding` and `enforce`, over a record of
--     what the driver's files show read after read, of which writes succeed and of what was written;
--     what `get_device_info` answers is an argument.
--   * Ubus (rust/src/ubus_socket.rs): the encoding of the messages to ubusd. `Ubus.Blob` has the
--     attributes (`put_attr`, `parse_attrs`), `Ubus.Json` the blobmsg encoding of JSON values
--     (`table`, `object_value`).
--   * Route (rust/src/cloud_route.rs): the MQTT endpoint that the platform assigns. `Route` has `load`,
--     `member`, `endpoints`, `apply` with its reply and `set_on_fallback`, and of rust/src/cloud.rs the
--     checks `topic` and `https_origin`; `Route.Trace` has the calls and restarts, `Route.Newest` the
--     description that it is compared with.
--   * Traffic (rust/src/traffic_history.rs): the daily totals of cellular traffic. `Traffic` has the
--     table of days, `load` and `apply_sample`, `Traffic.Recorder` has `record` (here `record_sample`)
--     and `persist`, and `Traffic.Trace` the calls and restarts.
--   * Stun (rust/src/stun.rs): the binding client. `Stun` has `request`, `parse` with the loop over
--     the attributes, `decode_address` and `parse_server`; `Stun.Packets` and `Stun.Addresses` have
--     what RFC 5389 says a server sends.
--   * Frame (rust/src/mesh/frame.rs): the frames of a data channel of the mesh, `encode` and
--     `decode`; `Frame.Pong` has `pong`.
--   * Storage: the file that a component keeps. Json: the values of serde_json and their accessors,
--     which Ubus, Tasks and Traffic share. Prelude: numbers, words, texts and lists.
--
-- How the code is written here. A call on `&mut self` is a function that returns the new state, with
-- what it answers beside it; the early returns are the branches. The clock, the outcome of a save and
-- the generation of clock changes are inputs of each call, so that the theorems hold for all of them.
-- A save replaces the file or leaves it, since the code writes a temporary file and renames it last.
-- Texts are lists of bytes. Numbers are natural numbers with the wrap-around or the saturation of the
-- Rust type written out.
--
-- Bounds and fuel. `parse_attrs` runs on fuel, the length of its input, which is enough because each
-- attribute takes four bytes at least; running out is an error value of its own, and the results
-- show that it does not arise. The loop of `parse` over the attributes of a STUN message runs on the
-- length of the body for the same reason; the eviction of days runs on their number, as each round
-- removes one. `field` and `object` nest to the code's MAX_DEPTH of 32. A walk
-- over the pages of the journal takes three pages, since it holds 300 entries and a page 100.
--
-- What is not modelled. The crates' parsers of URLs, of IP addresses and of JSON texts and the
-- decoding of invalid UTF-8 are parameters, and so are SHA-256, what the vendor's services answer and
-- the size of a text that serde writes. serde's reading and writing of the files is not modelled: a
-- file holds a value, or is missing, or is refused. HTTP probes, sockets, processes and the file system
-- calls are outside, and so are the components that consist of them: the mesh over WebRTC,
-- the cloud connection, the collection of the state and the controls of the vendor's interfaces.
pub mod Prelude
pub mod Json
pub mod Storage
pub mod Recovery
pub mod Schedule
pub mod Tasks
pub mod Journal
pub mod Sessions
pub mod Ubus
pub mod Frame
pub mod Traffic
pub mod Route
pub mod Stun
pub mod Device
pub mod Charge
pub mod Tests
