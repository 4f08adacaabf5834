-- ===== src/Lib.antt =====
-- slatedb-cloudflare runs the embedded key-value engine SlateDB on Cloudflare in two ways: inside a
-- Durable Object (durable-object/src), compiled to WebAssembly, and inside a container
-- (container/src). Either server keeps one database open at a time, answers HTTP requests on it, and
-- stores its data in an R2 bucket: the Durable Object by the binding of its Worker, the container by
-- requests to a bridge.
--
-- Parts and files. ObjectStore and Slatedb are the interfaces of the crates `object_store` and
-- `slatedb`: the data that the servers match on or construct, and the functions that they call, which
-- are fields of the records `Crate` and `Engine` and so parameters of all that follows. Prelude holds
-- lists and tests on the native numbers, results and the shape of a method, texts as their bytes, a
-- sort by keys and decimal numerals.
--  * DurableObject.Perf: durable-object/src/perf.rs. `PerfCounters` is a function of the names of its
--    counters; `increment` wraps at 2 ^ 64; `snapshot` is field by field. DurableObject.State holds
--    what the components share, the counters and the world beyond the bindings.
--  * DurableObject.R2Store: durable-object/src/r2_store.rs. Put, Get, List, Copy and Multipart have
--    the functions of the file under their own names (`put_bytes`, `put_opts`, `get_inner`,
--    `list_page`, `put_part`, `complete`, `abort` and so on). Binding is the interface of the R2
--    binding, `Bucket`; Documented is what its documentation says of puts, gets and conditions, over a
--    view of what the bucket holds, Multipart.Pieces what it says of uploads, over a view of the parts
--    that an upload has, and List.Served how it pages a listing; Memory is a bucket on which the stores
--    can run. Multipart.Clients has the steps of a client of an upload, whose futures end in any
--    order; Payloads, Succeeded, Tracked, Assembled and Runs follow the payloads that it has put and
--    the parts that R2 answered.
--  * DurableObject.DoCache: durable-object/src/do_cache.rs. Keys builds the keys of an entry;
--    `save_part`, `read_part`, `save_head`, `read_head`, `delete`, `clear` and `is_populated` keep
--    their names. KeyValue is the interface of the object's storage, Documented what it is relied on
--    for.
--  * DurableObject.DbCache: durable-object/src/db_cache.rs, over the interface of the crate
--    `quick_cache`.
--  * DurableObject.Names, Benchmark, Web, Server, Routing and Handle: durable-object/src/lib.rs. Names
--    has the checks of paths and names; Server has `open`, `database` and `reopen` over the mutex
--    `active`, and the loop of a scan; Routing tells the operation of a request; Handle has `handle`,
--    `fetch`, `authorized` and `main`; Benchmark has the measurements.
--  * Container.BindingStore: container/src/binding_store.rs. Bridge is the interface of the HTTP
--    client, requests and answers; `put_opts`, `get_opts`, `copy_opts` and `delete_stream` keep their
--    names, Listing has the listings, Headers and Reads are on reads, and Multipart the uploads. A
--    stream's bytes are counted as it is read (`count_read`).
--  * Container.Host, App, Files, Requests, Status and Measures: container/src/main.rs, with the
--    handlers under their own names; the file system is a parameter `Host`.
--
-- Conventions. A method is given the state and answers a `Result` beside the state that it leaves:
-- what was written before an error stays written. A `str` is the list of its bytes. A u64 and a u16
-- wrap where the code adds to them; a usize of the Durable Object has 32 bits, as in WebAssembly. A
-- mutex that is held through a method makes that method one step. The clients of a benchmark run one
-- after the other, which is one of the orders of `try_join_all`; the futures of a multipart upload end
-- in any order.
--
-- Fuel. The loops over the pages of a listing run on fuel, since it is the server that decides how
-- many pages there are; the theorems on them state how much is enough. The loop of a scan runs at most
-- limit + 1 times. The chunks of a list and the digits of a number take as fuel the length of the list
-- and one more than the number, which are never too little. No other loop needs fuel.
--
-- Not modelled: the implementations of Debug and Display; the TypeScript bridge of the container; the
-- patches of other crates; scripts, and the listener, signals and log of the container.
pub mod Prelude
pub mod ObjectStore
pub mod Paging
pub mod Slatedb
pub mod DurableObject
pub mod Container
