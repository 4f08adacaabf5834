-- ===== src/ObjectStore/Errors.antt =====
-- `object_store::Error`, with the variants that the stores raise. A source is its message.
use slatedb_cloudflare.Prelude.{Text, String}

pub data Error : Type 0 where
  -- path and source
  not_found already_exists precondition not_modified : Text → String → Error
  not_supported : String → Error
  -- store and source
  generic : String → String → Error
