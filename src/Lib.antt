-- ===== src/Lib.antt =====
-- The central service of clab-manager: who may use a lab, when, and who decides it.
--
-- The services under central/src/services keep their state in JSON files: each operation takes a lock,
-- loads the file, works on the loaded data, saves it where it changed something, and returns a value or
-- raises. An operation here is a function on the loaded data that returns its result, or what it
-- raises, with the data that it saves. Every operation runs under its module's lock, so a history is a
-- sequence of operations.
--
-- Reservations (central/src/services/reservations.py) books labs. Data has the stored entries and the
-- helpers that read, group and prune them; Timeline the sweep of the rule on simultaneous
-- reservations; Queries `get_reservation`, `list_scheduled_reservations`,
-- `cancel_scheduled_reservation`, `release_lab`, the count and `attach_reservations`; Booking
-- `reserve_lab` and `update_scheduled_reservation`; Extending `extend_reservation`. The routes of
-- central/src/api/reservations_routes.py call them.
--
-- Auth (central/src/services/auth.py) keeps accounts and groups. Data has the storage and the normal
-- forms; Load how the parsed file becomes the storage; Membership who is in which group; Users and Groups
-- the operations on accounts and on groups; Listing the lists of them for the administration;
-- Access what a signed-in user may see; Session the admission of a request; Tokens the password reset.
-- The groups name machines and labs, by which Access filters the lists that the other services make.
--
-- Labs has the smaller stores: Locks (central/src/services/lab_locks.py), Sandbox
-- (central/src/services/sandbox_labs.py) and Requests (central/src/services/lab_requests.py). Locks,
-- sandbox flags and bookings share the key `vm_id::lab_name` of Keys.
--
-- Labs has also Capacity (central/src/services/sandbox_capacity.py), the estimate whether a sandbox fits
-- on a machine.
--
-- Routes (central/src/api/reservations_routes.py) composes these services: State has what a request reads
-- and writes, Booking the routes that read, cancel, move, make and extend a booking, Release the one that
-- releases a lab and takes a modified sandbox back first.
--
-- Topology (central/src/services/topology_builder.py) checks a topology that was drawn and makes the
-- document for containerlab: Families has the kinds of routers and their interfaces, Checks the
-- validation, Wiring the nodes and links of the document.
--
-- Jump (central/src/services/jump_access.py) makes the rules by which a user of the jump host reaches the
-- routers of its reservations only. Enforced says what the rules let through: the first rule that decides
-- has the verdict, and the policy of the chain accepts.
--
-- Agent (vm-agent/src/config_management_service.py) runs on each machine. Jobs.Store has the stores of
-- the background jobs, Jobs.Worker the thread of a reconfiguration as steps, one for each pass of its
-- loop, between which a cancellation may come; a session on a router is an argument. Config has the
-- cleaning of captured configurations and their comparison. Nodes has the names and families of routers.
--
-- The other modules of a part hold its proofs, Tests the properties on concrete data. Prelude has texts,
-- dicts, lists, sorting and integers.
--
-- Numbers and times. A time is a natural number of microseconds, the resolution of Python's datetime,
-- and a duration in hours is an integer number of microseconds in place of a float, so the rounding
-- of floats below a microsecond is not modelled; `round(h, 4)` is. The monotonic clock of sessions and
-- tokens counts microseconds too. The clock's reading, drawn ids and tokens, and the password hash are
-- arguments. A text is a list of code points, and `strip` and `lower` are those of ASCII text.
-- Timestamps are stored as absent, unreadable, or an instant with or without an offset. Every loop is a
-- structural recursion over the list that the source walks, so no fuel is used but for the digits of a
-- number, which are no more than its value and one. The estimate of a sandbox has exact fractions in place
-- of floats, so at other guard bands than the one the service passes the source may exceed a budget by
-- the last digit of a float. Times have no upper bound: the error that datetime raises near the year 9999
-- is not modelled. Where no booking has the id that is to be moved, the source may have set drawn ids on
-- the entries that it keeps in memory; the model draws none there.
--
-- Not modelled: the text, the caching and the writing of the files, the format of password hashes, the
-- texts of answers and the details of audit events, the renewal of the filter and of the names after a
-- booking or a release, the printing of YAML and the comments in it, the commands that apply the rules,
-- the sessions on routers, the threads of the other jobs of the agent (and of a job that was evicted
-- before its thread began), the deployment of sandboxes, the remaining routes, provisioning, the collector
-- and the metrics, local names and accounts of the host, and the browser front end. They are input and
-- output or calls of other programs, or are left for later.
pub mod Prelude
pub mod Reservations
pub mod Auth
pub mod Labs
pub mod Routes
pub mod Agent
pub mod Topology
pub mod Jump
