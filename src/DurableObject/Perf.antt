-- ===== src/DurableObject/Perf.antt =====
-- durable-object/src/perf.rs: the counters that every component of the Durable Object bumps.
-- A counter is named by its field. The struct of atomics is the function from its fields to their
-- values, so that a reference `&perf.r2_puts` is the name `r2_puts`; `AtomicU64` wraps at 2 ^ 64.
pub mod Laws
mod Tests
use slatedb_cloudflare.Prelude.{ℕ, suc, ◌+◌, ◌%◌, ◌^◌, ◌==◌, if◌then◌else◌}

pub data Counter : Type 0 where
  cache_part_reads cache_part_hits cache_part_misses cache_requested_bytes : Counter
  cache_loaded_bytes cache_returned_bytes cache_part_writes cache_written_bytes : Counter
  cache_head_reads cache_head_hits cache_head_misses cache_head_writes cache_errors : Counter
  do_kv_gets do_kv_puts do_kv_deletes do_kv_delete_alls do_kv_lists do_kv_rows_read : Counter
  do_kv_rows_written r2_gets r2_heads r2_puts r2_lists r2_deletes r2_read_bytes : Counter
  r2_written_bytes r2_multipart_uploads r2_multipart_parts r2_multipart_completes r2_errors :
      Counter

-- the position of a field in the struct
abbrev pub index : Counter → ℕ
index cache_part_reads = 0
index cache_part_hits = 1
index cache_part_misses = 2
index cache_requested_bytes = 3
index cache_loaded_bytes = 4
index cache_returned_bytes = 5
index cache_part_writes = 6
index cache_written_bytes = 7
index cache_head_reads = 8
index cache_head_hits = 9
index cache_head_misses = 10
index cache_head_writes = 11
index cache_errors = 12
index do_kv_gets = 13
index do_kv_puts = 14
index do_kv_deletes = 15
index do_kv_delete_alls = 16
index do_kv_lists = 17
index do_kv_rows_read = 18
index do_kv_rows_written = 19
index r2_gets = 20
index r2_heads = 21
index r2_puts = 22
index r2_lists = 23
index r2_deletes = 24
index r2_read_bytes = 25
index r2_written_bytes = 26
index r2_multipart_uploads = 27
index r2_multipart_parts = 28
index r2_multipart_completes = 29
index r2_errors = 30

abbrev pub PerfCounters : Type 0
PerfCounters = Counter → ℕ

-- `PerfCounters::default()`
unfoldable pub default : PerfCounters
default c = 0

-- the modulus of `u64`
abbrev pub u64_mod : ℕ
u64_mod = 2 ^ 64

-- `counter.fetch_add(value, Relaxed)`
unfoldable pub increment : Counter → ℕ → PerfCounters → PerfCounters
increment counter value perf c =
    if index counter == index c then (perf c + value) % u64_mod else perf c

pub record PerfSnapshot : Type 0 where
  pub cache_part_reads : ℕ
  pub cache_part_hits : ℕ
  pub cache_part_misses : ℕ
  pub cache_requested_bytes : ℕ
  pub cache_loaded_bytes : ℕ
  pub cache_returned_bytes : ℕ
  pub cache_part_writes : ℕ
  pub cache_written_bytes : ℕ
  pub cache_head_reads : ℕ
  pub cache_head_hits : ℕ
  pub cache_head_misses : ℕ
  pub cache_head_writes : ℕ
  pub cache_errors : ℕ
  pub do_kv_gets : ℕ
  pub do_kv_puts : ℕ
  pub do_kv_deletes : ℕ
  pub do_kv_delete_alls : ℕ
  pub do_kv_lists : ℕ
  pub do_kv_rows_read : ℕ
  pub do_kv_rows_written : ℕ
  pub r2_gets : ℕ
  pub r2_heads : ℕ
  pub r2_puts : ℕ
  pub r2_lists : ℕ
  pub r2_deletes : ℕ
  pub r2_read_bytes : ℕ
  pub r2_written_bytes : ℕ
  pub r2_multipart_uploads : ℕ
  pub r2_multipart_parts : ℕ
  pub r2_multipart_completes : ℕ
  pub r2_errors : ℕ

unfoldable pub snapshot : PerfCounters → PerfSnapshot
snapshot load = record {
  cache_part_reads = load cache_part_reads;
  cache_part_hits = load cache_part_hits;
  cache_part_misses = load cache_part_misses;
  cache_requested_bytes = load cache_requested_bytes;
  cache_loaded_bytes = load cache_loaded_bytes;
  cache_returned_bytes = load cache_returned_bytes;
  cache_part_writes = load cache_part_writes;
  cache_written_bytes = load cache_written_bytes;
  cache_head_reads = load cache_head_reads;
  cache_head_hits = load cache_head_hits;
  cache_head_misses = load cache_head_misses;
  cache_head_writes = load cache_head_writes;
  cache_errors = load cache_errors;
  do_kv_gets = load do_kv_gets;
  do_kv_puts = load do_kv_puts;
  do_kv_deletes = load do_kv_deletes;
  do_kv_delete_alls = load do_kv_delete_alls;
  do_kv_lists = load do_kv_lists;
  do_kv_rows_read = load do_kv_rows_read;
  do_kv_rows_written = load do_kv_rows_written;
  r2_gets = load r2_gets;
  r2_heads = load r2_heads;
  r2_puts = load r2_puts;
  r2_lists = load r2_lists;
  r2_deletes = load r2_deletes;
  r2_read_bytes = load r2_read_bytes;
  r2_written_bytes = load r2_written_bytes;
  r2_multipart_uploads = load r2_multipart_uploads;
  r2_multipart_parts = load r2_multipart_parts;
  r2_multipart_completes = load r2_multipart_completes;
  r2_errors = load r2_errors;
}
