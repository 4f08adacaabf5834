-- ===== src/Container/Tests.antt =====
-- A host on which nothing fails, and the theorems on the container at concrete inputs.
use slatedb_cloudflare.Prelude.{
  trim_end_matches, ℕ, Text, codes, Option, none, some, List, [], ◌∷◌, ok, ◌≡◌, refl, ltb, String,
  Result, err, false, ◌+◌, arith, if◌then◌else◌, Distinct,
}
use slatedb_cloudflare.DurableObject.Tests.{engine, nothing}
use slatedb_cloudflare.Container.App.{Request, clear_cache}
use slatedb_cloudflare.Container.Host.{ActiveDb, AppState, Host}
use slatedb_cloudflare.Container.Files.{Directory, holds, missing, Entries, directory_size}
use slatedb_cloudflare.Container.App.Names.{NamesValid, after, after-NamesValid}
use slatedb_cloudflare.Container.App.Clearing.{Cleared, clear_cache-Cleared}
use slatedb_cloudflare.Container.App.Sizes.{total_of, is_readable, directory_size-total_of}
use slatedb_cloudflare.ObjectStore.{GetRange, bounded, PutMode}
use slatedb_cloudflare.Container.BindingStore.{Shared, put_request, put_opts, range_header}
use slatedb_cloudflare.Container.BindingStore.Bridge.{MultipartPart, Client}
use slatedb_cloudflare.Container.BindingStore.Updates.{PutSent, put_opts-PutSent}
use slatedb_cloudflare.Container.BindingStore.Ranges.{
  AcceptsNonempty, Describes, range_header-Describes,
}
use slatedb_cloudflare.Container.BindingStore.Multipart.{Session, complete, abort}
use slatedb_cloudflare.Container.BindingStore.Multipart.Sorted.{number_of, complete-permuted}
use slatedb_cloudflare.Container.BindingStore.Multipart.Numbers.{
  put_parts, numbered, put_parts-numbered,
}
use mathlib.Core.List.{Permᴰ}
use slatedb_cloudflare.Container.BindingStore.Multipart.Final.{Refuses, complete-abort-Refuses}

abbrev host : Host ℕ Text Text (Unit {0}) (Unit {0})
host = record {
  create_dir_all = λ path s. (ok tt, s);
  remove_dir_all = λ path s. (ok tt, s);
  read_dir = λ path s. missing;
  counters = λ s. (tt, s);
  snapshot = λ adapter s. [];
  store = λ prefix adapter. prefix;
  build = λ root store settings cache recorder s. (ok store, s);
}

abbrev app_of : Option (ActiveDb Text (Unit {0}) (Unit {0})) → AppState ℕ Text (Unit {0}) (Unit {0})
app_of active = record { world = 0; active = active }

abbrev open_a : ActiveDb Text (Unit {0}) (Unit {0})
open_a = record { name = codes "a"; db = codes "a"; metrics = tt; adapter = tt }

abbrev requests : List (Request (engine nothing) host)
requests =
    Request.to_put (codes "a") (record { key = codes "k"; value = codes "v" })
    ∷ Request.to_clear_cache (codes "../b")
    ∷ Request.to_reopen (codes "b")
    ∷ []

after-NamesValid_example : NamesValid (after (engine nothing) host requests (app_of none))
after-NamesValid_example = after-NamesValid (engine nothing) host requests (app_of none) tt

clear_cache-Cleared_example :
    let (answer, s') = clear_cache (engine nothing) host (codes "b") (app_of (some open_a)) in
    Cleared (engine nothing) host (codes "b") (app_of (some open_a)) answer s'
clear_cache-Cleared_example =
    clear_cache-Cleared (engine nothing) host (codes "b") (app_of (some open_a))

abbrev tree : Directory
tree = holds (Entries.file 5 (Entries.directory (holds (Entries.file 7 Entries.end)) Entries.end))

directory_size-total_of_example : directory_size tree ≡ ok 12
unfolding total_of is_readable
directory_size-total_of_example = directory_size-total_of tree refl

-- A bridge that answers 412 to a put that asks for a free key.
abbrev answer_of : Option Text → ℕ
answer_of none = 200
answer_of (some condition) = 412

abbrev valid : GetRange → Result String (Unit {0})
valid (bounded range) = if ltb range.start range.end then ok tt else err "empty range"
valid _ = ok tt

abbrev store_state : Shared ℕ
store_state = record { counters = λ counter. 0; world = 0 }

abbrev client : Client ℕ
client = record {
  send = λ request n. (
    ok (record {
      status = answer_of request.if_none_match;
      status_text = "";
      header = λ name. some (ok (codes "1"));
      text = ok "";
      started = ok (codes "u");
      part = err "no part";
      page = err "no page";
      chunks = [];
    }),
    n + 1,
  );
  crate = record {
    is_valid = λ range. valid range;
    as_range = λ range size. err "out of range";
    check_preconditions = λ options meta. ok tt;
    bytes = λ got. ok [];
    path_from = trim_end_matches b'/';
    from_timestamp_millis = λ millis. some millis;
  };
  to_rfc2822 = λ date. [];
  parse_date = λ text. err "no date";
  parse_path = λ text. ok text;
}

put_opts-PutSent_example :
    PutSent client
      (codes "k")
      (codes "v" ∷ [])
      PutMode.create
      store_state
      (put_request client (codes "k") PutMode.create)
      (put_opts client (codes "k") (codes "v" ∷ []) PutMode.create store_state)
put_opts-PutSent_example =
    put_opts-PutSent client (codes "k") (codes "v" ∷ []) PutMode.create store_state

accepts : AcceptsNonempty client.crate
accepts range e = ground (arith, e)

abbrev two_to_seven : GetRange
two_to_seven = bounded (record { start = 2; end = 7 })

range_header-Describes_example : Describes (codes "bytes=2-6") two_to_seven
unfolding range_header slatedb_cloudflare.Prelude.decimal
range_header-Describes_example =
    range_header-Describes client accepts two_to_seven (codes "bytes=2-6") refl

abbrev session : Session ℕ
session = record {
  shared = store_state;
  self = record {
    location = codes "k";
    upload_id = codes "u";
    parts = [];
    lock_poisoned = false;
    next_part = 1;
    finished = false;
  };
}

complete-abort-Refuses_example :
    Refuses client (complete client session).1 × Refuses client (abort client session).1
complete-abort-Refuses_example = complete-abort-Refuses client session

abbrev part_of : ℕ → MultipartPart
part_of number = record { part_number = number; etag = codes "e" }

abbrev uploaded : Session ℕ
uploaded = record session { self = record session.self { parts = part_of 2 ∷ part_of 1 ∷ [] } }

uploaded-Distinct : Distinct number_of uploaded.self.parts
uploaded-Distinct n = ground arith

complete-permuted_example :
    let other : Session ℕ = record session {
      self = record session.self { parts = part_of 1 ∷ part_of 2 ∷ [] };
    } in
    ((complete client other).0 ≡ (complete client uploaded).0)
    × ((complete client other).1.shared ≡ (complete client uploaded).1.shared)
complete-permuted_example =
    complete-permuted client uploaded (part_of 1 ∷ part_of 2 ∷ []) uploaded-Distinct
      (Permᴰ.swap refl refl)

put_parts-numbered_example :
    let (parts, self') = put_parts (((1 ∷ []) ∷ []) ∷ []) session.self in
    (parts ≡ numbered 1 (((1 ∷ []) ∷ []) ∷ [])) × (self'.next_part ≡ 2)
put_parts-numbered_example = put_parts-numbered (((1 ∷ []) ∷ []) ∷ []) session.self refl refl
