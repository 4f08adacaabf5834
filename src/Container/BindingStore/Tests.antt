-- ===== src/Container/BindingStore/Tests.antt =====
-- A bridge whose bucket holds two objects, and the theorems on reads and listings of the container's
-- store at concrete inputs.
use slatedb_cloudflare.Prelude.{
  trim_end_matches, ℕ, zero, suc, ◌+◌, Text, codes, Option, none, some, List, [], ◌∷◌, Result, ok,
  err, ◌≡◌, refl, String, arith, text_eq, decimal, if◌then◌else◌,
}
use slatedb_cloudflare.Paging.{Page, start, Pages, last, more, objects_of, prefixes_of, listed}
use slatedb_cloudflare.Paging.Stream.{read_all}
use slatedb_cloudflare.ObjectStore.{ObjectMeta, pos, default_get}
use slatedb_cloudflare.Container.BindingStore.{
  Shared, lists, fetch_add, send, check_response, object_meta, get_request, get_opts,
}
use slatedb_cloudflare.Container.BindingStore.Bridge.{ListObject, ListPage, Response, Client}
use slatedb_cloudflare.Container.BindingStore.Listing.{
  list_page, into_metas, list_next, list_with_delimiter,
}
use slatedb_cloudflare.Container.BindingStore.Listing.Pages.{
  read_as, page_at, list-Paged, list_with_delimiter-Paged,
}
use slatedb_cloudflare.Container.BindingStore.Headers.{Describes, object_meta-Describes}
use slatedb_cloudflare.Container.BindingStore.Reads.{ReadSent, get_opts-ReadSent}
use slatedb_cloudflare.Container.BindingStore.Reads.Metadata.{RefusesOnly}

abbrev listed_object : Text → ListObject
listed_object key = record {
  key = key;
  size = 3;
  etag = codes "e";
  version = codes "v";
  uploaded = pos 0;
}

-- the pages of the bucket; the second holds no object
abbrev listing : ℕ → ListPage
listing zero = record {
  objects = listed_object (codes "a") ∷ [];
  prefixes = codes "p/" ∷ [];
  cursor = some (codes "1");
}
listing (suc zero) = record { objects = []; prefixes = []; cursor = some (codes "2") }
listing (suc (suc n)) = record {
  objects = listed_object (codes "b") ∷ [];
  prefixes = [];
  cursor = none;
}

abbrev response : Response
response = record {
  status = 200;
  status_text = "OK";
  header = λ name. none;
  text = ok "";
  started = err "no upload";
  part = err "no part";
  page = err "no page";
  chunks = [];
}

-- The world counts the requests.
abbrev client : Client ℕ
client = record {
  send = λ request n. (ok (record response { page = ok (listing n) }), n + 1);
  crate = record {
    is_valid = λ range. ok tt;
    as_range = λ range size. ok (record { start = 0; end = size });
    check_preconditions = λ options meta. ok tt;
    bytes = λ got. ok [];
    path_from = trim_end_matches b'/';
    from_timestamp_millis = λ millis. some millis;
  };
  to_rfc2822 = λ date. [];
  parse_date = λ text. ok (pos 0);
  parse_path = λ text. ok text;
}

abbrev begun : Shared ℕ
begun = record { counters = λ counter. 0; world = 0 }

abbrev meta : Text → ObjectMeta
meta key = record {
  location = key;
  last_modified = pos 0;
  size = 3;
  e_tag = some (codes "e");
  version = some (codes "v");
}

abbrev three_pages : List Page
three_pages =
    read_as client (listing 0) (meta (codes "a") ∷ [])
    ∷ read_as client (listing 1) []
    ∷ read_as client (listing 2) (meta (codes "b") ∷ [])
    ∷ []

abbrev asked : Shared ℕ
asked = record {
  counters = fetch_add lists 1 (fetch_add lists 1 (fetch_add lists 1 begun.counters));
  world = 3;
}

three_pages-Pages :
    (delimiter : Option Text)
    → Pages (page_at client none delimiter) none begun three_pages (ok tt) asked
unfolding list_page into_metas send check_response
three_pages-Pages delimiter =
    more _ (codes "1") refl refl (more _ (codes "2") refl refl (last _ refl refl))

list_with_delimiter-Paged_example :
    list_with_delimiter client none 4 begun
    ≡ (listed (objects_of three_pages) (prefixes_of three_pages) (ok tt), asked)
list_with_delimiter-Paged_example =
    list_with_delimiter-Paged client none 4 (three_pages-Pages (some (codes "/"))) (omega arith)

list-Paged_example :
    read_all (list_next client none) 3 4 start begun ≡ some ((objects_of three_pages, ok tt), asked)
unfolding objects_of
list-Paged_example = list-Paged client none 3 4 (three_pages-Pages none) (omega arith) (omega arith)

-- The headers of an object of three bytes.
abbrev headers : Text → Option (Result String Text)
headers name =
    if text_eq name (codes "x-slate-size")
    then some (ok (codes "3"))
    else if text_eq name (codes "x-slate-uploaded")
    then some (ok (codes "0"))
    else if text_eq name (codes "etag")
    then some (ok (codes "e"))
    else if text_eq name (codes "x-slate-version")
    then some (ok (codes "v"))
    else none

abbrev read_response : Response
read_response = record response { header = headers; chunks = ok (1 ∷ 2 ∷ 3 ∷ []) ∷ [] }

described : Describes read_response (meta (codes "a")) (codes "0")
unfolding text_eq decimal
described = record { size = refl; uploaded = refl; tag = refl; version = refl }

object_meta-Describes_example :
    object_meta client (codes "a") read_response begun ≡ (ok (meta (codes "a")), begun)
object_meta-Describes_example =
    object_meta-Describes client read_response (meta (codes "a")) (codes "0") begun described
      (omega arith) refl

abbrev reads : Client ℕ
reads = record client { send = λ request n. (ok read_response, n + 1) }

accepts : RefusesOnly reads.crate
accepts = record { refusal = λ options meta error e. cc }

get_opts-ReadSent_example :
    ReadSent reads
      (codes "a")
      default_get
      begun
      none
      (get_request reads (codes "a") default_get)
      (get_opts reads (codes "a") default_get begun)
get_opts-ReadSent_example = get_opts-ReadSent reads (codes "a") default_get begun accepts
