-- ===== src/DurableObject/R2Store/Copy.antt =====
-- `copy_opts` of durable-object/src/r2_store.rs: a read of the source, then a write of all its bytes.
pub mod Copies
use slatedb_cloudflare.Prelude.{Text, [], ◌∷◌, ◌>>=◌, ◌>>◌, pure, lift}
use slatedb_cloudflare.ObjectStore.{CopyMode, PutMode, default_get}
use slatedb_cloudflare.DurableObject.R2Store.{R2Store, Method}
use slatedb_cloudflare.DurableObject.R2Store.Get.{get_opts}
use slatedb_cloudflare.DurableObject.R2Store.Put.{put_opts}

abbrev pub put_mode : CopyMode → PutMode
put_mode CopyMode.overwrite = PutMode.overwrite
put_mode CopyMode.create = PutMode.create

module _ {W : Type 0} where
  unfoldable pub copy_opts : R2Store W → Text → Text → CopyMode → Method W (Unit {0})
  copy_opts store from to mode = do
    got ← get_opts store from default_get
    bytes ← lift (store.crate.bytes got)
    put_opts store to (bytes ∷ []) (put_mode mode)
    pure tt
