-- ===== src/Container/BindingStore/Multipart/Sorted.antt =====
-- The parts that `complete` of container/src/binding_store.rs sends.
use mathlib.Core.List.{Permᴰ}
use slatedb_cloudflare.Prelude.{ℕ, List, ◌≡◌, sym, arith, Distinct, sort_by_key, sort-eq_of_perm}
use slatedb_cloudflare.Container.BindingStore.Bridge.{MultipartPart, Client}
use slatedb_cloudflare.Container.BindingStore.Multipart.{Session, complete}

abbrev pub number_of : MultipartPart → ℕ
number_of part = part.part_number

module _ {W : Type 0} (client : Client W) (s : Session W) where
  -- Where the parts have distinct numbers, their order makes no difference to `complete`: with the
  -- same parts in any other order it sends the same request and has the same answer.
  pub complete-permuted :
      (parts : List MultipartPart)
      → Distinct number_of s.self.parts
      → Permᴰ s.self.parts parts
      → let s' : Session W = record s { self = record s.self { parts = parts } } in
        ((complete client s').0 ≡ (complete client s).0)
        × ((complete client s').1.shared ≡ (complete client s).1.shared)
  unfolding complete
  complete-permuted parts distinct p = ground (arith, same)
    where
      same : sort_by_key number_of parts ≡ sort_by_key number_of s.self.parts
      same = sym (sort-eq_of_perm number_of p distinct)
