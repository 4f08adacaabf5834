-- ===== src/DurableObject/R2Store/Memory.antt =====
-- A bucket in memory, on which the stores can run.
pub mod Behaves
use slatedb_cloudflare.Prelude.{
  ℕ, String, Text, Bytes, codes, Bool, true, false, ◌&&◌, Option, none, some, List, [], ◌∷◌, ◌++◌,
  ok, err, ◌≡◌, refl, ap, arith, text_eq, text_eq_iff, Bool-cases, inl, inr, length, get_elem?,
  get_elem?-last, if◌then◌else◌, not, ◌==◌,
}
use slatedb_cloudflare.DurableObject.R2Store.Binding.{Conditional, Object, Objects, Call, Bucket}
use slatedb_cloudflare.DurableObject.R2Store.Documented.{
  Stored, EtagCondition, unconditional, empty, absent, is_at, to_conditional, meets, Documented,
}
use slatedb_cloudflare.DurableObject.R2Store.List.Removal.{Removes}
use slatedb_cloudflare.DurableObject.R2Store.Multipart.Pieces.{gather, Assembles}

-- the objects, the newest first, the bodies that were opened, and the parts of the one upload with the
-- key under which it was last resumed
pub record Memory : Type 0 where
  pub objects : List (Text × Stored)
  pub opened : List Bytes
  pub parts : List (ℕ × Bytes)
  pub resumed : Text

unfoldable pub lookup : Text → List (Text × Stored) → Option Stored
lookup key [] = none
lookup key ((k, found) ∷ rest) = if text_eq k key then some found else lookup key rest

unfoldable pub without : Text → List (Text × Stored) → List (Text × Stored)
without key [] = []
without key ((k, found) ∷ objects) =
    let rest = without key objects in if text_eq k key then rest else (k, found) ∷ rest

abbrev matches : Option Text → Option Stored → Bool
matches none found = true
matches (some etag) none = false
matches (some etag) (some found) = text_eq found.etag etag

abbrev spares : Option Text → Option Stored → Bool
spares none found = true
spares (some etag) none = true
spares (some etag) (some found) =
    if text_eq etag (codes "*") then false else not (text_eq found.etag etag)

abbrev allowed : Option Conditional → Option Stored → Bool
allowed none found = true
allowed (some c) found = matches c.etag_matches found && spares c.etag_does_not_match found

abbrev object_of : Text → Stored → Option ℕ → Object
object_of key found body = record {
  key = key;
  size = length found.bytes;
  etag = found.etag;
  version = found.etag;
  uploaded = 0;
  body = body;
}

-- The ETag of an object is its content.
abbrev put_if : Bool → Text → Bytes → Call Memory (Option Object)
put_if true key bytes w =
    let found : Stored = record { etag = bytes; bytes = bytes } in
    (ok (some (object_of key found none)), record w { objects = (key, found) ∷ w.objects })
put_if false key bytes w = (ok none, w)

abbrev put : Text → Bytes → Option Conditional → Call Memory (Option Object)
put key bytes condition w = put_if (allowed condition (lookup key w.objects)) key bytes w

abbrev get_found : Text → Option Stored → Call Memory (Option Object)
get_found key none w = (ok none, w)
get_found key (some found) w = (
  ok (some (object_of key found (some (length w.opened)))),
  record w { opened = w.opened ++ found.bytes ∷ [] },
)

abbrev body_of : Option Bytes → Call Memory Bytes
body_of none w = (err "no such body", w)
body_of (some bytes) w = (ok bytes, w)

-- A listing has three pages; the second is empty.
abbrev pub page : Text → Bool → Text → Objects
page key truncated cursor = record {
  objects = object_of key (record { etag = []; bytes = [] }) none ∷ [];
  delimited_prefixes = codes "p/" ∷ [];
  truncated = truncated;
  cursor = some cursor;
}

abbrev list : Text → Option Text → Option Text → Call Memory Objects
list prefix none delimiter w = (ok (page (codes "a") true (codes "1")), w)
list prefix (some cursor) delimiter w =
    if text_eq cursor (codes "1")
    then (ok (record (page [] true (codes "2")) { objects = [] }), w)
    else (ok (page (codes "b") false (codes "3")), w)

abbrev piece : List (ℕ × Bytes) → ℕ → Option Bytes
piece [] n = none
piece ((number, bytes) ∷ parts) n = if number == n then some bytes else piece parts n

abbrev complete_with : Option Bytes → Call Memory Object
complete_with none w = (err "a part is missing", w)
complete_with (some bytes) w =
    let found : Stored = record { etag = bytes; bytes = bytes } in
    (ok (object_of w.resumed found none), record w { objects = (w.resumed, found) ∷ w.objects })

abbrev pub memory : Bucket Memory
memory = record {
  put = put;
  head = λ key w. (ok none, w);
  get = λ key condition range w. get_found key (lookup key w.objects) w;
  body_bytes = λ body w. body_of (get_elem? w.opened body) w;
  list = list;
  delete = λ key w. (ok tt, record w { objects = without key w.objects });
  create_multipart_upload = λ key w. (ok (codes "id"), w);
  resume_multipart_upload = λ key id w. (ok 0, record w { resumed = key });
  upload_part = λ handle number bytes w. (
    ok (record { part_number = number; etag = bytes }),
    record w { parts = (number, bytes) ∷ w.parts },
  );
  complete = λ handle parts w. complete_with (gather (piece w.parts) parts) w;
  abort = λ handle w. (ok tt, w);
}
