-- ===== src/Container/BindingStore/Bridge.antt =====
-- Requests to the bridge of the container's bucket and its answers: what
-- container/src/binding_store.rs uses of the crate `reqwest`, which is not in this repository. An
-- error of a crate is its text.
use slatedb_cloudflare.Prelude.{ℕ, Text, Bytes, String, Option, none, List, [], Result}
use slatedb_cloudflare.ObjectStore.{DateTime, Crate}

pub record MultipartPart : Type 0 where
  pub part_number : ℕ
  pub etag : Text

pub record ListObject : Type 0 where
  pub key : Text
  pub size : ℕ
  pub etag : Text
  pub version : Text
  pub uploaded : DateTime

pub record ListPage : Type 0 where
  pub objects : List ListObject
  pub prefixes : List Text
  pub cursor : Option Text

pub data Verb : Type 0 where
  get head put post delete : Verb

-- A request by its headers that are set, its query and its body.
pub record Request : Type 0 where
  pub verb : Verb
  pub path : Option Text
  pub operation : Option Text
  pub upload_id : Option Text
  pub part_number : Option ℕ
  pub if_match : Option Text
  pub if_none_match : Option Text
  pub if_modified_since : Option Text
  pub if_unmodified_since : Option Text
  pub range : Option Text
  pub query : List (Text × Text)
  pub body : List Bytes
  pub parts : List MultipartPart

abbrev pub bare_request : Verb → Request
bare_request verb = record {
  verb = verb;
  path = none;
  operation = none;
  upload_id = none;
  part_number = none;
  if_match = none;
  if_none_match = none;
  if_modified_since = none;
  if_unmodified_since = none;
  range = none;
  query = [];
  body = [];
  parts = [];
}

-- An answer: its status, with the text of it; the headers, each as `to_str` reads it; and the body as
-- a text, as the types that `json` reads, and as a stream of chunks.
pub record Response : Type 0 where
  pub status : ℕ
  pub status_text : String
  pub header : Text → Option (Result String Text)
  pub text : Result String String
  pub started : Result String Text
  pub part : Result String MultipartPart
  pub page : Result String ListPage
  pub chunks : List (Result String Bytes)

-- The client, and what else is called of other crates: `DateTime::to_rfc2822`, the parser of a date and
-- `Path::parse`.
pub record Client (W : Type 0) : Type 0 where
  pub send : Request → W → Result String Response × W
  pub crate : Crate
  pub to_rfc2822 : DateTime → Text
  pub parse_date : Text → Result String DateTime
  pub parse_path : Text → Result String Text
