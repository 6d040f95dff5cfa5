-- ===== src/Lib.antt =====
-- sunbeam-migrate: the migration manager, its database, its handlers and its commands.
--
-- The program copies OpenStack resources from a source cloud to a destination cloud and records
-- each migration as a row of a table. The manager (sunbeam_migrate/manager.py) asks the handler of
-- a resource type which other resources a resource depends on, migrates those first, runs the
-- handler, then migrates member resources and removes the source. A handler calls the two clouds
-- through the OpenStack SDK. The commands (sunbeam_migrate/cmd) read and write the same table.
--
-- Files.
--   Prelude, Exec: shared names; `Exec S A` is Python code over a state `S` that may raise, and
--     that keeps what was written before a raise. Exec/Preserves: invariants of such code;
--     Exec/Chained and Exec/Returns: what code returns; Exec/Leaves: where it ends; Exec/Same: code
--     that does the same; Exec/Succeeds: code that returns.
--   Constants, Config: sunbeam_migrate/constants.py, and the settings of sunbeam_migrate/config.py
--     that the modelled code reads. `Exec.Error` holds sunbeam_migrate/exception.py.
--   Db/Models: the row `Migration` and `save` of sunbeam_migrate/db/models.py. Db/Api:
--     sunbeam_migrate/db/api.py. Db/History: how the table may change, and the invariant `IsSound`.
--   Handlers/Interface, Handlers/Base, Handlers/Factory: sunbeam_migrate/handlers/base.py and
--     factory.py. Handlers/Owner: the sessions that base.py opens for the owner of a resource.
--     Handlers/Sdk is the interface of the OpenStack SDK. Handlers/Neutron, Keystone, Nova, Cinder,
--     Glance, Designate, Octavia, Manila and Barbican: a file for each handler of
--     sunbeam_migrate/handlers/neutron and so on. Of sunbeam_migrate/utils, neutron_utils.py is in
--     Handlers/Neutron/Router, manila_utils.py in Handlers/Manila/Mount and barbican_utils.py in
--     Handlers/Barbican/Url. Below a handler, or beside it, are its proofs: Complete, Lawful,
--     Temporary, Checksums, Member, Recordsets, Reference; Factory/Distinct is about the
--     registry, and Handlers/Found and Handlers/Created are
--     the proofs for identity, flavors, key pairs and volume types, and for secrets, shares and
--     zones.
--   Manager/Lookup, Cleanup, Parent, Members, DryRun, Perform, Batch: sunbeam_migrate/manager.py, a
--     definition per method and per block of it. `perform_individual_migration` is the method of
--     that name: `perform_once` is its body over the manager `self` that it calls again.
--     Manager/Contract proves what every such body does to the table, Manager/Depth how deep the
--     calls go, Manager/Progress when a migration is completed,
--     Manager/Resolution what a handler is given, and Manager/Batch/Done what a batch leaves.
--   Cmd: sunbeam_migrate/cmd/delete.py, restore.py, list.py, show.py, cleanup_source.py,
--     register_external.py and start.py.
--   Tests: a database in memory, two clouds, and the theorems at concrete runs.
--
-- State. `State W` is the database and the clouds; `W` is a parameter. The database is the list of
-- rows and the number of readings of the clock and of `uuid4`. `save` of a new object inserts a
-- row; `save` of a stored object writes only the attributes assigned and reads the row back.
--
-- Parameters. The primary key of the next row, the clock, `uuid4` and `ORDER BY` (Db.Models.Backend,
-- laws IsBackend: fresh keys, uuids that are not empty, the same rows in some order), the
-- classes that `importlib` loads (Env.load), the text of an error (Env.repr), the SDK's calls
-- (Handlers.Sdk.Cloud, laws IsCloud: a created or found resource has an id; `act` is any call that
-- has no field of its own), the sessions that `connect_as_project` returns (Clouds.source_as and
-- destination_as), random numbers in names, the order in which Python lists a set, the module
-- `ipaddress` (Handlers.Neutron.FloatingIp.Addresses), the search for a rule's id in the text of a
-- conflict, and the transfer of an image with its MD5 (Handlers.Glance.Image.Transfer), the
-- calls of the operating system for a mount (Handlers.Manila.Mount.Host), and Base64. A handler is
-- a record of its methods; IsHandler says that it returns an id that is not empty and reaches the
-- database through the manager alone.
--
-- Depth. The manager calls itself for dependencies and members, without a bound of its own. The
-- number given to `perform_individual_migration` is the depth of calls that Python still allows,
-- and at zero it raises `RecursionError`, as Python does; the theorems say which depths they are
-- about, and hold at every depth where they name none. Manager/Depth is about which depth is enough.
--
-- Numbers in SDK values are natural numbers. A missing resource type is the empty text in a
-- request: the factory refuses both.
--
-- Not modelled: logging and printing (sunbeam_migrate/log.py, the tables of the commands), the
-- command-line entry point, loading of the configuration file, sessions of the database and the
-- caches of sessions of the clouds, and `capabilities`. An image is read in full before its upload
-- starts, where the program reads it as it uploads; a list from the SDK is read in one request, where
-- the SDK reads it page by page.
pub mod Prelude
pub mod Exec
pub mod Constants
pub mod Config
pub mod Db
pub mod Handlers
pub mod Manager
pub mod Cmd
pub mod Tests
