-- ===== src/Lib.antt =====
-- A model of pytvt, a toolkit for TVT cameras and recorders, and what is known about it.
--
-- The parts and the files that model them (paths from the root of the repository):
--
-- - Workflows/Rotate: password rotation over the channels of one recorder
--   (src/pytvt/workflows/password_rotate.py). `Run` is `rotate_nvr_channel_passwords`: prechecks,
--   discovery, the dry run, and the reports; `Select` is `PasswordRotateResult`,
--   `_filter_channels` (`filter_channels`) and the lists made of the candidates. `Force` is
--   `_force_rotate_online`, `PassA` and `PassB` the loops of the two passes; a function that stands
--   for the rest of a loop body after a call takes the call's reply (`pushed`, `changed`, ...).
--   `Tally` counts results, `Allowed` says which calls a run may make.
-- - Workflows/Base and Workflows/Client: progress events (workflows/progress.py), exceptions
--   (workflows/exceptions.py), `Channel` and `NvrLanFreeDevice` (models.py), and the recorder's
--   client as the workflows see it: `NvrClient` is an interface with a state `World`, whose calls
--   may answer anything, raise anything and change the state in any way. A run (`RunState`) keeps the
--   world, the events emitted and the writing calls made.
-- - Pool: the pool of device sessions (src/pytvt/connection_pool.py). `Operations` holds `acquire`
--   (its two locked blocks are `acquire_begin` and `acquire_install`), `release`, `remove`, `stats`
--   and `close`; `Upkeep` holds `keepalive`, `_evict_stale` and `reconnect`; `Steps` is the pool
--   under threads, one step for each block that holds the lock.
--   `closed` and `created` are ghost fields: they record what `_close_entry` and a connection did.
-- - Workflows/Subnet: moving the cameras of one recorder to another subnet
--   (src/pytvt/workflows/site_subnet_change.py). `Targets` is `_mapped_ip` and `_collect_targets`,
--   `Readdress` and `Stored` are the loops of steps 2 and 3, `Run` is `change_site_subnet_via_nvr`.
-- - Workflows/Validate: `validate_site` and `compare_sites` (src/pytvt/workflows/validate.py).
-- - Plates: license-plate events (src/pytvt/device_sdk/plate_events.py). `Plates` has the typed event,
--   `Vendor` the native structures' fields and the code tables, `Parse` the parsers
--   (`parse_ipc_plate_payload` in `Ipc`, `parse_nvr_plate_payload` in `Nvr`,
--   `parse_vsd_vehicle_payload` in `Vsd`), `Stream` the operations of `PlateEventStream`,
--   `Stream/Steps` its threads, and `Ingest` the native callback. A reader's call of the queue is
--   taken to fall between the blocks that hold the lock, not inside one.
-- - Alarm: the frames of the alarm server (src/pytvt/alarm_protocol.py). `Frame` is
--   `parse_alarm_frame` with the binary form, `Json` and `Xml` its two payloads, `Split` is
--   `split_alarm_frame`. The dictionary `parsed` is a sum of its shapes, and an exception that leaves
--   a parser is `none`.
-- - StatusLog: the Status Log export (src/pytvt/status_log.py), with `Names` for node names and `Rows`
--   for the rows.
-- - Alarm/Server: the listener's connections (src/pytvt/alarm_server.py).
-- - Protocol: the client of the recorder's binary protocol (src/pytvt/protocol.py): the packets and
--   ciphers, with `Socket` for `_recv_packet`, `Login` for the answers to a login, `Cameras` for the
--   JSON, `Scan` for `scan_nvr` and `Steps` for its state; `Streams` and `Packets` on reading, `Sizes`, `Ciphers`, `Endings` on
--   termination, and `Outcomes`, `Results`, `Returns` on the results of a scan. The loop
--   over acknowledgements has a round for each byte and failure that is left to read and one more.
-- - Runtime: the client of the local native runtime (src/pytvt/runtime_client.py): deadlines and the
--   envelope, `Wire` for the reading of an answer, `Plates` and `Plates/Event` for the checks of a plate
--   stream's answers, `Stream` for the stream itself; `Deadlines`, `Lines`, `Delivery` and `Given` on
--   what these promise.
-- - Diff: the comparison of two inventories (src/pytvt/diff.py), with `Scans` for the code, `Counts` for
--   what it accounts for and `Unkeyed` for cameras without a channel.
-- - Prelude: names of the libraries, tests on numbers, lists over the native numbers, and `Dict`, an
--   association list that models a Python dict with its insertion order, `Keyed`, the same over any
--   keys with `sorted`, and `Json`, what `json.loads` gives.
--
-- Numbers are the native ones; the program's times are ticks, and no arithmetic of the parts modelled
-- here can overflow. A text made by an f-string is the list of its pieces. Loops over lists are
-- structural; the attempts of `reconnect` are counted down from `max_reconnect_attempts`. Fuel stands
-- in three places only: in Protocol the digits of a number have as many rounds as the number, and the
-- loop over acknowledgements has more than there are packets to read; in Runtime the reading of an
-- answer has more than there are bytes to read. None of them runs out.
--
-- Not modelled: the transport (the opening of sockets, HTTP, ctypes, subprocesses; what a socket gives
-- to read is an argument), printing and argument parsing,
-- `to_dict`, logging, and the parts of the program that are not named above. An exception inside a
-- progress sink is not considered, since a sink must not raise. The string functions `strip` and
-- `lower`, the ipaddress module, the clock and the answers of devices are parameters.
pub mod Prelude
pub mod Workflows
pub mod Pool
pub mod Protocol
pub mod Runtime
pub mod Plates
pub mod Alarm
pub mod StatusLog
pub mod Diff
pub mod Tests
