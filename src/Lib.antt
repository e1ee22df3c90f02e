-- ===== src/Lib.antt =====
-- bacs: the archive of problems and the package manager.
--
-- The program keeps a repository of programming problems (bacs/archive), which clients upload, mark
-- with flags and download; each upload is imported, that is converted by bacs/problem into packages
-- of the package manager (bunsan/pm). The package manager names packages by entries, reads for each
-- an index of what it needs, and builds and installs packages in the order of their dependencies.
--
-- Which file models what, with the paths in the repository:
--
-- - Base and its children: results and actions that may throw, decided equality, sets and maps as
--   lists, `std::string` as the list of its bytes.
-- - Boost: split and join of the Boost string algorithms, as a record of operations whose laws are
--   those of its documentation; no definition of them is given outside the tests.
-- - Pm/Entry: bunsan/pm/src/lib/entry.cpp. `build` is the body of the constructors, `name`,
--   `name_char`, `◌/◌`, `make_absolute`, `entry_lt` and `remote_resource` the functions of their
--   names (`entry_lt` is operator<).
-- - Pm/Index: bunsan/pm/src/lib/index.cpp. `stage_all` and `all` are the two functions all, and
--   `absolute` is index::absolute.
-- - Pm/Snapshot: snapshots and bunsan/pm/src/lib/repository/merge_maps.hpp.
-- - Pm/Resolver: update_package_depends of bunsan/pm/src/lib/repository.cpp. The variables updated,
--   in and snapshot_cache and the disk are the record `Progress`; `visit_body` is the switch over
--   the stage types, `visit_new` the part after the two lookups, `leave` the last three lines. The
--   cache, the distributor and the builder are the record `Backend`, whose operations may throw.
--   The recursion runs on fuel: the number of stages in any set that is closed under dependencies is
--   enough, since a stage in progress is never entered again. `Graph` reads the dependencies of a
--   stage off its index, `History` says what was done to the disk, `Outcome`, `Walk` and `Safety` follow
--   the recursion, and `Update` has the results.
-- - Pm/Cache, Pm/Distributor, Pm/Builder: the files of these names under
--   bunsan/pm/src/lib/repository. The cache is the record `Cache`, its two directories are `Place`s of
--   files sorted by what they hold; the name of the archive of a source is taken to differ from those
--   of the index and the checksum. `cache_backend` is the `Backend` that they make together. The
--   depth of the imports of sources is bounded by fuel, and running out of it is an exception there.
--   An exception of these operations ends the whole update, so that the disk after it is not followed;
--   the paths of the configuration are taken to be absolute.
-- - Archive/Flag, Archive/Storage: bacs/archive/src/lib/problem.cpp, the messages of bacs/archive and
--   the files of a problem (bacs/archive/doc/internal_storage.md) as the records `Problem` and
--   `Repository`; `compute_hash_revision` of bacs/archive/src/lib/repository_impl.cpp.
-- - Archive/Repository and its children Import and All: the operations of
--   bacs/archive/src/lib/repository_impl.cpp and bacs/archive/src/lib/repository.cpp, one function
--   per member function of the same name. An operation takes the repository that its first test saw
--   apart from the one that it works on, where the code lets go of the lock in between; the import is
--   split into `import_start` and `import_finish` in the same way. What was written before an
--   exception stays written. Archives, conversion and fresh revisions are the record `Env`; what a
--   conversion returns is taken not to depend on the packages that are there, and `run_import` has what
--   it writes to them. `Changes` joins the operations that change the archive. The ids "." and "..",
--   which pass the validation and name other directories, are ordinary keys.
-- - Asio/QueuedWriter: bunsan/common/include/bunsan/asio/queued_writer.hpp. `push`, `close`, `terminate`,
--   `spawn_writer` and `handle_write` are the private functions of these names; `run_event` is what
--   the strand runs, one event at a time. `Connection` records what the connection was asked for.
--   `Fifo` is about the objects written, `Closing` about the end of the connection, and `Draining` about
--   the way to it.
-- - Asio/BufferConnection: bunsan/common/include/bunsan/asio/buffer_connection.hpp, its private
--   functions by their names; `handle_read` and `handle_write` are cut into their parts. The source and
--   the sink are what was asked of them, and `run_event` is what the strand runs. `Busy` says which
--   events can happen, `Relay` follows the bytes, `Ends` the end of the connection.
-- - Asio/LineConnection: bunsan/common/include/bunsan/asio/line_connection.hpp. The stream is the list of
--   the parts in which it arrives; async_read_until looks for the delimiter in what has arrived.
-- - Asio/BlockConnection: bunsan/common/include/bunsan/asio/block_connection.hpp over a flat stream of
--   bytes; the printing and reading of hexadecimal numbers by streams is the record `HexStream`.
-- - Pm/MetaTree: update_meta_tree of bunsan/pm/src/lib/repository.cpp, over the record `MetaBackend`,
--   which `OnCache` fills from the cache and the distributor. Its recursion runs on fuel: the number of
--   packages that the indexes name is enough, since none is entered twice.
-- - Pm/Extractor: install, update and need_update of bunsan/pm/src/lib/repository/extractor.cpp. A
--   directory is what was unpacked into it and what stands at the place of the meta file. Times are
--   numbers of seconds after 1970 and lifetimes signed numbers of 64 bits, whose sums wrap around
--   (Base/Int64). That the directory itself cannot be emptied, or the time of a file not be set, is not
--   modelled.
-- - Pm/Repository: extract, install and the three functions update of
--   bunsan/pm/src/lib/repository.cpp, composed of the parts above. `Setting` holds what a repository is
--   made of, and the bounds of its recursions.
-- - Utility/CustomResolver: bunsan/utility/src/custom_resolver.cpp; the loop over the aliases runs on
--   fuel, for which the number of aliases is enough. Paths are compared as texts.
-- - Curl/HttpVersion, Curl/Header, Curl/HeaderSet, Curl/HeaderParser: the files of these names in
--   bunsan/curl, with the parsing of status lines. The regular expressions are parameters that return
--   the groups of a match. The hashed index is a list in the order of insertion; an iterator is what is
--   still before it, and the loop over it runs on fuel.
-- - Fnmatch: the translation of patterns in bunsan/common/src/fnmatch.cpp, one function per state of the
--   parser; `Grammar` has the patterns by their parts. An unclosed choice is parsed again from a copy of it.
-- - Problem/ListStorage, Problem/Matcher: the files of these names in bacs/problem/src/single/test. The
--   first test of an unordered map is the first of the list.
-- - Process/Posix, Process/Handle: bunsan/process/src/process/file/handle.cpp and its header on a POSIX
--   system. The system calls are the record `Posix`, whose laws are those of the manual pages; a method
--   returns the handle and the kernel that it leaves. `Owners` has what a program does to its handles,
--   each at a place of its own, `Steps` and `Unchanged` what each method does to the open descriptors.
-- - Process/Execute: the visitors of bunsan/process/src/process/native_executor.cpp and the part of
--   bunsan/process/src/process/detail/unix/execute.cpp between fork and exec. `Tables` and `Composed`
--   follow the descriptors as functions on their numbers. Logging, signals, waiting and the search of
--   the path are left out.
-- - Process/Context: bunsan/process/include/bunsan/process/context.hpp and
--   bunsan/process/src/process/context.cpp; paths are texts, and the questions to Boost's paths and to
--   the environment of the process are the record `Filesystem`, with the exceptions of the former.
-- - Problem/Simple0: read_tests, read_settings and read_profiles of
--   bacs/problem/src/single/drivers/simple0/driver.cpp. Sections of the configuration are lists of keys
--   and values, the parsers of values and the splitting of texts are the record `Values`; the map of
--   the groups is a list sorted by its keys (`Sorted`). read_settings and read_profiles stand in its child
--   Sections.
-- - Problem/Simple0/Storage: the constructor of bacs/problem/src/single/drivers/simple0/tests.cpp over
--   the entries of the directory; it calls add_test and set_data_type of Problem/ListStorage.
-- - Tests: the definitions on concrete inputs, and the results at such inputs.
--
-- Interleavings: an operation of the archive that holds the lock is one step, and the repository
-- between two steps is arbitrary. Strings are byte lists, and the 32-bit checksum is a number below
-- 2 ^ 32 where a statement says so.
--
-- Not modelled: reading and writing of files, JSON and archives, logging, the nesting of exceptions
-- (only the innermost is kept), waiting for processes, network, web and rpc adapters, and the code under
-- go and subprojects.
pub mod Base
pub mod Boost
pub mod Pm
pub mod Archive
pub mod Asio
pub mod Utility
pub mod Curl
pub mod Fnmatch
pub mod Problem
pub mod Process
pub mod Tests
