-- ===== src/Container/Requests.antt =====
-- The bodies and queries of the requests to container/src/main.rs.
use slatedb_cloudflare.Prelude.{ℕ, Text, Option}

pub record PutRequest : Type 0 where
  pub key : Text
  pub value : Text

pub record KeyRequest : Type 0 where
  pub key : Text

pub record ScanQuery : Type 0 where
  pub prefix : Option Text
  pub limit : Option ℕ

pub record GetQuery : Type 0 where
  pub key : Text
