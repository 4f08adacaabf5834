-- ===== src/DurableObject/R2Store/Binding.antt =====
-- The R2 binding of the crate `worker`, which is not in this repository: the calls that
-- durable-object/src/r2_store.rs makes, over whatever world `W` they act on. A `worker::Error` is
-- its text.
use slatedb_cloudflare.Prelude.{
  ℕ, Text, Bytes, String, Bool, Option, none, List, Result, is_none, ◌&&◌,
}

-- `worker::Conditional`; the dates are milliseconds
pub record Conditional : Type 0 where
  pub etag_matches : Option Text
  pub etag_does_not_match : Option Text
  pub uploaded_before : Option ℕ
  pub uploaded_after : Option ℕ

-- `Conditional::default()`
abbrev pub default_conditional : Conditional
default_conditional = record {
  etag_matches = none;
  etag_does_not_match = none;
  uploaded_before = none;
  uploaded_after = none;
}

-- `conditional == Conditional::default()`
abbrev pub is_default : Conditional → Bool
is_default c =
    is_none c.etag_matches
    && (is_none c.etag_does_not_match && (is_none c.uploaded_before && is_none c.uploaded_after))

-- `worker::Range`
pub data R2Range : Type 0 where
  offset_with_length : ℕ → ℕ → R2Range
  offset_to_end suffix : ℕ → R2Range

-- `worker::Object`: its metadata, and a handle of the body where it has one
pub record Object : Type 0 where
  pub key : Text
  pub size : ℕ
  pub etag : Text
  pub version : Text
  -- `uploaded().as_millis()`
  pub uploaded : ℕ
  pub body : Option ℕ

-- `worker::Objects`, the answer to a list request
pub record Objects : Type 0 where
  pub objects : List Object
  pub delimited_prefixes : List Text
  pub truncated : Bool
  pub cursor : Option Text

-- `worker::UploadedPart`
pub record UploadedPart : Type 0 where
  pub part_number : ℕ
  pub etag : Text

-- What a call of the binding does to the world, and its answer.
abbrev pub Call : Type 0 → Type 0 → Type 0
Call W A = W → Result String A × W

pub record Bucket (W : Type 0) : Type 0 where
  -- `put(key, bytes)`, with `only_if` where there is a condition; `none` if the condition fails
  pub put : Text → Bytes → Option Conditional → Call W (Option Object)
  pub head : Text → Call W (Option Object)
  -- `get(key)`, with `only_if` and `range`
  pub get : Text → Option Conditional → Option R2Range → Call W (Option Object)
  -- `body.bytes()`
  pub body_bytes : ℕ → Call W Bytes
  -- `list()` with `prefix`, `cursor` and `delimiter`
  pub list : Text → Option Text → Option Text → Call W Objects
  pub delete : Text → Call W (Unit {0})
  -- `create_multipart_upload(key)`, answering the upload's id
  pub create_multipart_upload : Text → Call W Text
  -- `resume_multipart_upload(key, id)`, answering a handle of the upload
  pub resume_multipart_upload : Text → Text → Call W ℕ
  -- `upload_part(number, bytes)`, `complete(parts)` and `abort()` of a handle
  pub upload_part : ℕ → ℕ → Bytes → Call W UploadedPart
  pub complete : ℕ → List UploadedPart → Call W Object
  pub abort : ℕ → Call W (Unit {0})
