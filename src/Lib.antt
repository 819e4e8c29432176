-- ===== src/Lib.antt =====
-- Models of hustngx, a library of nginx modules: the shared-memory dictionary of lib_hustngx, which
-- the samples use for state that worker processes share, the hash table of one process, the lists of
-- peers, and the table of peers of hustdbha.
--
-- The dictionary (lib_hustngx/nginx/src/core/ngx_shm_dict*.c) keeps its nodes in a red-black tree,
-- ordered by hash and key, and in a queue, most recently used first. A zone has one mutex. Every
-- writer runs through `ngx_shm_dict_set_impl`, every reader through `ngx_shm_dict_get`; both first
-- drop a few expired nodes from the end of the queue, and a writer that finds no memory drops the
-- oldest nodes by force. The typed functions of ngx_shm_dict_code.c are calls of these.
--
-- In hustdbha a declared table of peers is checked and built into an array that has, for every hash
-- of a key, the peers to read from and the two masters to write to; their names are looked up in a
-- dictionary of peers, a hash table of c_dict.c. A write asks one master after the other, and when
-- one of them fails it is recorded at the other one or in a log, to be replayed. A read asks the
-- living peers in turn.
--
-- Files:
--   Prelude, Prelude/Tests, Prelude/Lists: shared names, Boolean tests, lists over native numbers.
--   Nginx: what nginx provides, as a record of operations and laws: the queue, the slab allocator,
--     insertion into and deletion from the red-black tree, the byte comparison, the checksum.
--   Shm/Node, Shm/Zone: ngx_shm_dict_utils.c, .h. `Zone` is `ngx_shm_dict_ctx_t`, `Node` is
--     `ngx_shm_dict_node_t`; `expire`, `lookup`, `init_zone`, `insert_value` are the functions
--     with the prefix ngx_shm_dict_ (and rbtree_). A node's address is a number, the memory behind
--     the addresses is the function `heap`.
--   Shm/Writer, Shm/Store: ngx_shm_dict_writer.c. A label of `ngx_shm_dict_set_impl` is a function.
--   Shm/Reader: ngx_shm_dict_reader.c. Shm/Traverse: ngx_shm_dict.c.
--   Shm/Typed: ngx_shm_dict_code.c; a family of functions for the types of value is one function of
--     a `Kind` or a `Value`.
--   Shm/Order, Shm/Search: the order of keys and the sorted tree. Shm/Valid, Shm/Start: the
--     invariant of a zone. Shm/Times: the instants of expiry. Shm/Expire: expiry and lookup.
--     Shm/Effect, Shm/Insert, Shm/SetImpl: the effect of a write. Shm/Block: the
--     memory that it writes. Shm/Safe: the safe writers.
--     Shm/Swept, Shm/Outcomes: which calls succeed. Shm/Read: the reader. Shm/RoundTrip: writers
--     and readers together. Shm/Keys, Shm/Flush, Shm/Backwards, Shm/Expired: traversal, keys and
--     flushes. Shm/Numbers, Shm/Counters: typed values.
--   CDict/Table: lib_hustngx/nginx/src/core/c_dict.c, the chained hash table that the modules keep
--     their own data in. A chain is a list, `set`, `get`, `remove` and `resize` are the functions
--     with the prefix c_dict_. CDict/Chain, CDict/Resize, CDict/Assign, CDict/Laws, CDict/Remove:
--     its lemmas and laws.
--     CDict/Iter: its iterator. CDict/Size, CDict/Count: how many buckets and nodes it can have.
--     CDict/Members: which keys.
--   Peers: the peer lists of lib_hustngx/nginx/src/http/modules/ngx_http_utils_module.c, where a
--     function for `ngx_http_upstream_rr_peer_t` and its twin for `ngx_http_subrequest_peer_t` are
--     one. Peers/Walk, Peers/Names: the walk over living peers and the dictionary of names.
--   Params: the parameters of a query string (ngx_http_utils_module.c): `get_param_val`,
--     `append_arg`, `remove_param` and what they call. Params/Search, Params/Walk: the search for a
--     key, byte by byte. Params/Pairs, Params/Values, Params/Changes: pairs of names and values.
--   HustdbHa: which peers hold which hashes (samples/hustdbha/nginx/src/addon). HustdbHa/Table: the
--     data of hustdb_ha_def.h and hustdb_ha_table_inner.h and the writes into the table.
--     HustdbHa/Check: hustdb_ha_table_checker.c. HustdbHa/Build: hustdb_ha_table_def.c.
--     HustdbHa/Shares: what a declared table asks for, apart from the code. HustdbHa/Cells,
--     HustdbHa/Correct: what is built. HustdbHa/Numbers, HustdbHa/Writes, HustdbHa/Fits,
--     HustdbHa/Overrun: writes inside and outside of the table.
--     HustdbHa/Write: a write to the two masters of a key, from hustdb_ha_write_args.c,
--     hustdb_ha_write_handler.c, hustdb_ha_write_binlog.c, hustdb_ha_handler_base.c and the lookup
--     of hustdb_ha_table_vars.c; a call of the handler is `on_event`, what it sees is an `Outside`,
--     what it does is an `Action`, and `drive` runs it over a sequence of ends of subrequests.
--     HustdbHa/Outcome: verdicts. HustdbHa/Masters: what they lead to. HustdbHa/Answers: how many
--     steps a write takes. HustdbHa/Promises: what a 200 means, and writes to a built table.
--     HustdbHa/Read: hustdb_ha_read_handler.c.
--     HustdbHa/WriteCache: hustdb_ha_write_cache.c. HustdbHa/Cached: how it answers.
--     HustdbHa/Head: the head of a record of the binlog, from hustdb_ha_write_binlog.c.
--     HustdbHa/Record, HustdbHa/Replay: how it and the arguments of a replay are read back.
--     HustdbHa/Files: contents of files by path, and the calls of the C library on them.
--     HustdbHa/Setter, HustdbHa/Backends: hustdb_ha_table_setter.c. HustdbHa/Conf:
--     hustdb_ha_conf_setter.c. HustdbHa/Identifiers, HustdbHa/SetTable:
--     hustdb_ha_set_table_handler.c and the lock of hustdb_ha_utils.c; what runs under the mutex is
--     one step. HustdbHa/Overwrite, HustdbHa/Loaded, HustdbHa/Hosts, HustdbHa/Reconfigured,
--     HustdbHa/Tidy, HustdbHa/OneTime, HustdbHa/Interleaved, HustdbHa/Deployed: files, hosts
--     (with Hosts/Elements), the configuration (with Reconfigured/Servers), the queues of
--     identifiers, and the handler as a whole.
--   Fetch/Cache: the connection caches of lib_hustngx/nginx/src/http/modules/ngx_http_fetch_cache.c,
--     each a queue of used and a queue of free items. Fetch/Apart: lists without a common element.
--     Fetch/Conserved, Fetch/Start: the states that a cache reaches.
--   Tests: runs and instances in a concrete setting.
--
-- Bounds: the code's loops have bounds of their own, which the models take over as rounds that are
-- left: `while (n < 3)` is 3 - n rounds, the forced eviction is 30 rounds. The loop over an iterator
-- runs on fuel, for which the number of nodes and one more is enough, as does the search for a key
-- in a query string, for which the number of bytes and one more is enough. The hosts of a table are
-- loaded by iterators on fuel above eight times the number of its elements. Walks of the tree and
-- the queue, and of the chains of the hash table, are structural. A write to the caches has two
-- subrequests at most. A replay's arguments are looked up with fuel above the bytes in reach.
-- Machine words wrap as written: 64 bits for times, 32 for lengths, hashes and `exptime * 1000`.
--
-- One call sees one time, since nginx updates its clock between events only, and runs with the mutex
-- held, so calls are sequential; `ngx_shm_dict_get_keys` takes it twice, and what other processes do
-- in between is a parameter. A copy that leaves the block of a node is noted in the zone, by the
-- field `overrun`, and what it does to memory is not modelled. Null zones and null result pointers
-- are left out, as are `ngx_shm_dict_init`, which registers the zone with nginx, and a pool that
-- cannot allocate the array of keys, whose null pointer the code does not check. Of the hash table
-- the release of its memory is left out. Whether a peer is alive is a parameter, as the upstream
-- check answers it, and a pool has room for a number of blocks. The table of hustdbha has its size
-- as a parameter, 1024 in the code, and a write outside of it is a result of its own. In a write,
-- what nginx and the file system answer (statuses, peers that die, logs and headers that fail) is
-- input. Reading a request's body and the failure of a response are left out. When the table is set,
-- what the system writes and renames is input, the parser of the declaration, which hustdb_ha_def.c
-- has generated code for over cJSON, and the encryption of an identifier are parameters, and the
-- restart is a result. The other handlers, which drive nginx's events and subrequests, the other
-- samples, the serialization by cJSON and the tools are not modelled.
pub mod Prelude
pub mod Nginx
pub mod Shm
pub mod CDict
pub mod Peers
pub mod Params
pub mod HustdbHa
pub mod Fetch
pub mod Tests
