-- ===== src/Lib.antt =====
-- The Doorfast integration for Home Assistant: the parts of custom_components/doorfast that decide
-- what is accepted, delivered and kept.
--
-- A bridge reports calls and video sessions of door stations. `events.py` takes its push events,
-- `stations.py` keeps the configured stations, `session_diagnostics.py` says whose call is in
-- progress, `audio.py` shares the station's sound among listeners, and `pcm.py` sends the microphone.
-- `monitor.py` owns the one video generation of a station, its viewers and its call, and
-- `setup_lifecycle.py` brings the monitors to what the bridge reports.
-- `client.py` asks the bridge and holds the status that the others read.
-- All of them read the JSON of the bridge, and the types and validators of `client_types.py`.
--
-- - Prelude: Boolean tests, lists, dictionaries, integers and fallible code that the modules share.
-- - Value: decoded JSON. `get d name` is `d.get(name)`, where a missing key and null are alike; the
--   `as_` readers are the `isinstance` tests. A float carries the integer it equals and its text.
-- - Events.Validate: `validate_event` and `_validate_monitor_status`. `to_value` is the dictionary
--   that validation returns. `json_size` is the length of the compact dump.
-- - Events.Gate: `EventGate.accept` and `accept_monitor`; Gate.Window is the bounded window that both
--   use, Gate.Runs and Gate.Monitors are sequences of calls.
-- - Events.Process: `process_event`. What its callbacks, the refresh and the registry do is an
--   argument (`World`); the dispatches are a list of effects. `sync_monitor` and
--   `async_apply_status` are taken not to change the status of the client.
-- - Audio.Wav: `decode_pcm_wav`. Audio.Hub: `AudioListenerHub`. `read` is one function for each
--   stretch between two awaits, and Hub.Delivery runs stretches in any order, which covers every
--   schedule of concurrent reads. A listener object is told by its serial number. Times are in
--   milliseconds, and a stretch reads the clock once.
-- - Audio.Identity: `AudioIdentity.from_status`. ClientTypes: the validators of station data.
-- - SessionDiagnostics: `station_call_operation` and `station_call_phase`; its child Reports has the
--   reports for diagnostics. Access: `access_status.py`, the unlock records and replies. Control:
--   `station_control.py`, `generation.py` and `routing.py`. StationStatus: `station_status.py`.
-- - Pcm.Wire: what the producer reads from replies. Pcm: `PcmProducer`. Each operation holds the
--   producer's lock, so it is one function; the replies are arguments. Pcm.Lease: its invariant;
--   its children Submit and Runs have one submission and the runs of operations.
-- - Monitor: `MonitorCoordinator` of `monitor.py`: Monitor has its state, Lifecycle, Recovery, Acquire,
--   Register, Release, Status, Call and CallStatus the stretches of its operations between two awaits.
--   No lock that it holds while it changes its state is held across an await. Schedule runs the
--   stretches in any order, with any values that they carry, which covers every schedule of tasks and
--   every cancellation. A task is known by a number, and the counter of requests that the client keeps
--   is the coordinator's own. A raised exception is an `Answer`, a verdict, or `none`.
-- - Setup: `sync_monitor_state` of `setup_lifecycle.py` over the coordinators of a registry, which keeps
--   its stations while the bridge is asked; Setup.Rollback is `rollback_entry_setup`, where how a step
--   ends is an argument: it returns, raises an Exception, or leaves the rollback, as a cancellation does.
-- - Stations: `StationRegistryCoordinator`; whether a monitor closes without an error is an argument,
--   the callbacks of the listeners are a list of notices, and no other refresh runs in between.
-- - Client: `DoorfastClient` of `client.py`: Client has its state, Refresh `refresh`, Previews the
--   monitors' requests and the fence of a stopped preview, Unlocks the unlock records, Commands the
--   commands, Media the frame cache and the audio cursor, Reads `read_audio_chunk`, Snapshot `stations`.
--   Each operation is what it does before its request and what it does with the reply; Schedule runs
--   these stretches in any order. The HTTP library's responses, `json.loads` and the clock are
--   arguments. The monitor's counters of requests are set by a stretch of their own.
--
-- Bounds and fuel: `scan` has fuel for every byte of the file, and a round takes eight; the digits of
-- a number n are counted, and written, on fuel n + 1 at most, and each step divides by ten. The event gate's capacity is a
-- parameter, 128 in the code. Numbers of the bridge are checked against 2^64 as the code does.
--
-- Not modelled: of the HTTP client the requests for the microphone, the library that sends them, and
-- Python's limit on the digits that int() reads; the listeners and the snapshot of a monitor coordinator, the
-- synchronization of a single coordinator without a registry, WebRTC and websocket sessions, the
-- entities, the config flow and the frontend, the sensor attributes of `access_status.py`, polling and
-- the normalization of URLs; the recursion limit of Python, and exceptions raised by callbacks that are
-- not arguments here.
pub mod Prelude
pub mod Value
pub mod Events
pub mod Audio
pub mod ClientTypes
pub mod SessionDiagnostics
pub mod Pcm
pub mod Stations
pub mod Access
pub mod Control
pub mod StationStatus
pub mod Monitor
pub mod Setup
pub mod Client
pub mod Tests
