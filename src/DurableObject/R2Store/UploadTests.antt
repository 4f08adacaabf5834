-- ===== src/DurableObject/R2Store/UploadTests.antt =====
-- The listings and the multipart uploads of the store, over the bucket in memory.
use mathlib.Core.List.{Permᴰ, flatten}
use slatedb_cloudflare.Prelude.{
  ℕ, ◌≤◌, Text, codes, false, true, Option, none, some, List, [], ◌∷◌, ◌++◌, ok, Result, err, any,
  ◌≡◌, refl, map, arith, sort_by_key, All, AscendsFrom, text_eq, Bytes, length, ◌<◌, ◌⊎◌,
}
use slatedb_cloudflare.DurableObject.Perf.{increment, r2_lists, r2_multipart_uploads}
use slatedb_cloudflare.DurableObject.R2Store.{Shared}
use slatedb_cloudflare.DurableObject.R2Store.Memory.{Memory, memory, page}
use slatedb_cloudflare.DurableObject.R2Store.Memory.Behaves.{
  memory-Documented, memory-Removes, memory-Assembles,
}
use slatedb_cloudflare.DurableObject.R2Store.Tests.{store, begun}
use slatedb_cloudflare.Paging.{start, listed}
use slatedb_cloudflare.Paging.Stream.{read_all}
use slatedb_cloudflare.DurableObject.R2Store.List.{list_next, list_with_delimiter, delete_stream}
use slatedb_cloudflare.DurableObject.R2Store.List.Served.{
  Served, truncated, named_objects, named_prefixes,
}
use slatedb_cloudflare.DurableObject.R2Store.List.Pages.{list-Pages, list_with_delimiter-Pages}
use slatedb_cloudflare.ObjectStore.{Error, not_found, PutResult}
use slatedb_cloudflare.DurableObject.R2Store.List.Removal.{
  names, Answered, Fate, delete_stream-Fate,
}
use slatedb_cloudflare.DurableObject.R2Store.Binding.{UploadedPart, Objects}
use slatedb_cloudflare.DurableObject.R2Store.Put.{collect_payload}
use slatedb_cloudflare.DurableObject.R2Store.Multipart.{
  max_multipart_parts, R2MultipartUpload, upload, put_part, put_multipart_opts, run_part,
  parts_to_send, complete, abort,
}
use slatedb_cloudflare.DurableObject.R2Store.Multipart.Final.{Ended, complete-abort-Ended}
use slatedb_cloudflare.DurableObject.R2Store.Multipart.Parts.{EchoesNumbers}
use slatedb_cloudflare.DurableObject.R2Store.Multipart.Pieces.{gather}
use slatedb_cloudflare.DurableObject.R2Store.Multipart.Payloads.{payloads, payload_of}
use slatedb_cloudflare.DurableObject.R2Store.Multipart.Assembled.{Assembled, complete-Assembled}
use slatedb_cloudflare.DurableObject.R2Store.Multipart.Order.{parts_to_send-AscendsFrom}
use slatedb_cloudflare.DurableObject.R2Store.Multipart.Succeeded.{succeeded}
use slatedb_cloudflare.DurableObject.R2Store.Multipart.Runs.{complete-any_order}
use slatedb_cloudflare.DurableObject.R2Store.Multipart.Clients.{
  Client, number_of, started, start_part, end_part, Reach, here, step, IsFresh,
}

-- after three requests for a page
abbrev asked : Shared Memory
asked = record begun {
  perf = increment r2_lists 1 (increment r2_lists 1 (increment r2_lists 1 begun.perf));
}

abbrev three_answers : List Objects
three_answers =
    page (codes "a") true (codes "1")
    ∷ record (page [] true (codes "2")) { objects = [] }
    ∷ page (codes "b") false (codes "3")
    ∷ []

three_answers-Served :
    (delimiter : Option Text) → Served memory none delimiter none begun three_answers (ok tt) asked
unfolding text_eq
three_answers-Served delimiter =
    truncated _ _ (codes "1") refl refl refl
      (truncated _ _ (codes "2") refl refl refl (Served.complete _ _ refl refl))

list_with_delimiter-Pages_example : list_with_delimiter store none 4 begun ≡ (
  listed (named_objects store three_answers) (named_prefixes store three_answers) (ok tt),
  asked,
)
list_with_delimiter-Pages_example =
    list_with_delimiter-Pages store refl none 4 (three_answers-Served (some (codes "/")))
      (omega arith)

list-Pages_example :
    read_all (list_next store none) 3 4 start begun
    ≡ some ((named_objects store three_answers, ok tt), asked)
list-Pages_example =
    list-Pages store refl none 3 4 (three_answers-Served none) (omega arith) (omega arith)

abbrev fresh_upload : R2MultipartUpload
fresh_upload = record {
  location = codes "k";
  key = codes "k";
  upload_id = codes "id";
  uploaded_parts = [];
  lock_poisoned = false;
  next_part = 1;
  finished = false;
}

abbrev created : Shared Memory
created = record begun { perf = increment r2_multipart_uploads 1 begun.perf }

put_multipart_opts_run : put_multipart_opts store (codes "k") begun ≡ (ok fresh_upload, created)
unfolding put_multipart_opts
put_multipart_opts_run = refl

abbrev begins : Client Memory
begins = record { session = record { shared = created; self = fresh_upload }; pending = [] }

-- Two parts are started, and the second one ends first.
abbrev both_started : Client Memory
both_started = started ((2 ∷ []) ∷ []) (started ((1 ∷ []) ∷ []) begins)

abbrev second_ended : Client Memory
second_ended = record {
  session = (run_part store (upload 2 (2 ∷ [])) both_started.session).1;
  pending = (upload 1 (1 ∷ []) ∷ []) ++ [];
}

abbrev both_ended : Client Memory
both_ended = record {
  session = (run_part store (upload 1 (1 ∷ [])) second_ended.session).1;
  pending = [] ++ [];
}

both_ended-Reach : Reach store begins both_ended
unfolding put_part collect_payload
both_ended-Reach =
    step
      (step
        (step (step here (start_part begins ((1 ∷ []) ∷ [])))
          (start_part (started ((1 ∷ []) ∷ []) begins) ((2 ∷ []) ∷ [])))
        (end_part both_started (upload 1 (1 ∷ []) ∷ []) [] (upload 2 (2 ∷ [])) refl))
      (end_part second_ended [] [] (upload 1 (1 ∷ [])) refl)

abbrev part : ℕ → UploadedPart
part number = record { part_number = number; etag = number ∷ [] }

sent_in_order :
    (both_ended.session.self.uploaded_parts ≡ part 2 ∷ part 1 ∷ [])
    × (parts_to_send both_ended.session.self ≡ part 1 ∷ part 2 ∷ [])
unfolding put_part collect_payload run_part parts_to_send sort_by_key
sent_in_order = (refl, refl)

begins-IsFresh : IsFresh begins
begins-IsFresh = record { next_is_one = refl; none_uploaded = refl; none_pending = refl }

abbrev named : Text → PutResult
named etag = record { e_tag = some etag; version = some etag }

echoes : EchoesNumbers memory
echoes handle number bytes w part e = ground arith

parts_to_send-AscendsFrom_example :
    let sent = parts_to_send both_ended.session.self in
    AscendsFrom number_of 1 sent
    × All (λ part. part.part_number ≤ max_multipart_parts) sent
    × Permᴰ sent (succeeded memory both_ended-Reach)
parts_to_send-AscendsFrom_example =
    parts_to_send-AscendsFrom store refl echoes begins-IsFresh both_ended-Reach

-- The same run, but for the first part ending first.
abbrev first_ended : Client Memory
first_ended = record {
  session = (run_part store (upload 1 (1 ∷ [])) both_started.session).1;
  pending = [] ++ upload 2 (2 ∷ []) ∷ [];
}

abbrev in_order : Client Memory
in_order = record {
  session = (run_part store (upload 2 (2 ∷ [])) first_ended.session).1;
  pending = [] ++ [];
}

in_order-Reach : Reach store begins in_order
unfolding put_part collect_payload
in_order-Reach =
    step
      (step
        (step (step here (start_part begins ((1 ∷ []) ∷ [])))
          (start_part (started ((1 ∷ []) ∷ []) begins) ((2 ∷ []) ∷ [])))
        (end_part both_started [] (upload 2 (2 ∷ []) ∷ []) (upload 1 (1 ∷ [])) refl))
      (end_part first_ended [] [] (upload 2 (2 ∷ [])) refl)

complete-any_order_example :
    (map number_of (parts_to_send both_ended.session.self)
      ≡ map number_of (parts_to_send in_order.session.self))
    × (bytes : Bytes) × Assembled memory-Assembles store refl
        (codes "k")
        bytes
        (named (1 ∷ 2 ∷ []))
        both_ended.session.shared.world
        (complete store both_ended.session).1.shared.world
    × Assembled memory-Assembles store refl
        (codes "k")
        bytes
        (named (1 ∷ 2 ∷ []))
        in_order.session.shared.world
        (complete store in_order.session).1.shared.world
complete-any_order_example =
    complete-any_order memory-Assembles store refl echoes begins-IsFresh both_ended-Reach
      in_order-Reach (named (1 ∷ 2 ∷ [])) (named (1 ∷ 2 ∷ []))
      (unfold both_ended-Reach in_order-Reach put_part in refl)
      (unfold both_ended-Reach in_order-Reach put_part collect_payload run_part in
        Permᴰ.swap refl refl)
      (unfold complete parts_to_send sort_by_key put_part collect_payload run_part in refl)
      (unfold complete parts_to_send sort_by_key put_part collect_payload run_part in refl)

complete-abort-Ended_example :
    Ended store (complete store both_ended.session).1
    × Ended store (abort store both_ended.session).1
complete-abort-Ended_example = complete-abort-Ended store both_ended.session

complete-Assembled_example :
    let parts = succeeded memory both_ended-Reach in
    (bytes : Bytes) × (gather (payload_of (payloads both_ended-Reach)) (sort_by_key number_of parts)
      ≡ some bytes)
    × ((length parts < length (payloads both_ended-Reach))
        ⊎ (bytes ≡ flatten (payloads both_ended-Reach)))
    × Assembled memory-Assembles store refl
        (codes "k")
        bytes
        (named (1 ∷ 2 ∷ []))
        both_ended.session.shared.world
        (complete store both_ended.session).1.shared.world
unfolding put_part collect_payload run_part
complete-Assembled_example =
    complete-Assembled memory-Assembles store refl echoes begins-IsFresh both_ended-Reach
      (named (1 ∷ 2 ∷ []))
      (unfold complete parts_to_send sort_by_key put_part collect_payload run_part in refl)

-- A key that is there is deleted, and an error of the stream is passed on.
abbrev deletions : List (Result Error Text)
deletions = ok (codes "a") ∷ err (not_found (codes "b") "gone") ∷ []

delete_stream-Fate_example :
    let (answers, s') = delete_stream store deletions begun in
    Answered deletions answers
    × ((j : Text)
        → Fate
            (any (names j) answers)
            (any (names j) deletions)
            (memory-Documented.stored begun.world j)
            (memory-Documented.stored s'.world j))
delete_stream-Fate_example = delete_stream-Fate memory-Removes store refl deletions begun
