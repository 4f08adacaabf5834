-- ===== src/ObjectStore.antt =====
-- The interface of the crate `object_store`, on which both stores are built: the data that they
-- match on and construct, and the functions of the crate that they call. The functions are not in
-- this repository, so they are the fields of `Crate`, a parameter of the model.
pub mod Errors
use slatedb_cloudflare.Prelude.{
  ℕ, Text, Bytes, String, Bool, false, Option, none, List, Result, ◌-◌, ◌^◌,
}
pub use Errors.*

-- An `i64`: `negsuc n` is -(n + 1).
pub data ℤ : Type 0 where
  pos : ℕ → ℤ
  negsuc : ℕ → ℤ

-- A `chrono::DateTime<Utc>` by its `timestamp_millis()`.
abbrev pub DateTime : Type 0
DateTime = ℤ

pub record ObjectMeta : Type 0 where
  pub location : Text
  pub last_modified : DateTime
  pub size : ℕ
  pub e_tag : Option Text
  pub version : Option Text

pub record UpdateVersion : Type 0 where
  pub e_tag : Option Text
  pub version : Option Text

pub data PutMode : Type 0 where
  overwrite create : PutMode
  update : UpdateVersion → PutMode

pub data CopyMode : Type 0 where
  overwrite create : CopyMode

pub record PutResult : Type 0 where
  pub e_tag : Option Text
  pub version : Option Text

-- `start..end`
pub record ByteRange : Type 0 where
  pub start : ℕ
  pub end : ℕ

pub data GetRange : Type 0 where
  bounded : ByteRange → GetRange
  offset suffix : ℕ → GetRange

pub record GetOptions : Type 0 where
  pub if_match : Option Text
  pub if_none_match : Option Text
  pub if_modified_since : Option DateTime
  pub if_unmodified_since : Option DateTime
  pub range : Option GetRange
  pub version : Option Text
  pub head : Bool

-- `GetOptions::default()`
abbrev pub default_get : GetOptions
default_get = record {
  if_match = none;
  if_none_match = none;
  if_modified_since = none;
  if_unmodified_since = none;
  range = none;
  version = none;
  head = false;
}

-- The payload is the stream of its chunks.
pub record GetResult : Type 0 where
  pub payload : List (Result Error Bytes)
  pub meta : ObjectMeta
  pub range : ByteRange

pub record ListResult : Type 0 where
  pub common_prefixes : List Text
  pub objects : List ObjectMeta

-- A `PutPayload` is the list of its chunks.
abbrev pub PutPayload : Type 0
PutPayload = List Bytes

-- What the stores call of the crates `object_store` and `chrono`.
pub record Crate : Type 0 where
  -- `GetRange::is_valid`; an error is its text
  pub is_valid : GetRange → Result String (Unit {0})
  -- `GetRange::as_range`
  pub as_range : GetRange → ℕ → Result String ByteRange
  -- `GetOptions::check_preconditions`
  pub check_preconditions : GetOptions → ObjectMeta → Result Error (Unit {0})
  -- `GetResult::bytes`
  pub bytes : GetResult → Result Error Bytes
  -- `Path::from` of a string, which encodes what a path cannot hold and drops empty segments
  pub path_from : Text → Text
  -- `DateTime::from_timestamp_millis`
  pub from_timestamp_millis : ℤ → Option DateTime
