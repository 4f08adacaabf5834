-- ===== src/DurableObject/R2Store/Multipart/Payloads.antt =====
-- The payloads that a client of an upload of durable-object/src/r2_store.rs has put, by the numbers of
-- their parts.
use slatedb_cloudflare.Prelude.{
  ℕ, zero, suc, Bytes, Option, none, some, List, [], ◌∷◌, ◌++◌, get_elem?, get_elem?-append, All,
  count_key, ◌≡◌, ◌≢◌, ◌∙◌, arith,
}
use slatedb_cloudflare.DurableObject.R2Store.{R2Store}
use slatedb_cloudflare.DurableObject.R2Store.Binding.{UploadedPart}
use slatedb_cloudflare.DurableObject.R2Store.Multipart.{UploadPart, ready, upload, put_part}
use slatedb_cloudflare.DurableObject.R2Store.Multipart.Clients.{
  Client, number_of, start_part, end_part, complete_upload, abort_upload, Reach, here, step,
}

abbrev pub started_bytes : UploadPart → List Bytes
started_bytes (ready error) = []
started_bytes (upload number bytes) = bytes ∷ []

-- The payloads of the parts that the client has started, in their order.
abbrev pub payloads :
    {W : Type 0} {store : R2Store W} {c d : Client W} → Reach store c d → List Bytes
payloads here = []
payloads (step r (start_part d payload)) =
    payloads r ++ started_bytes (put_part payload d.session.self).0
payloads (step r (end_part d before after future e)) = payloads r
payloads (step r (complete_upload d)) = payloads r
payloads (step r (abort_upload d)) = payloads r

-- the payload of part `number`
abbrev pub payload_of : List Bytes → ℕ → Option Bytes
payload_of log zero = none
payload_of log (suc i) = get_elem? log i

payload_of-append :
    (log more : List Bytes) (n : ℕ) (bytes : Bytes)
    → payload_of log n ≡ some bytes
    → payload_of (log ++ more) n ≡ some bytes
payload_of-append log more zero bytes h = cc
payload_of-append log more (suc i) bytes h = get_elem?-append log more i bytes h

-- A future that uploads a part uploads its payload.
abbrev pub Logged : List Bytes → UploadPart → Type 0
Logged log (ready error) = Unit
Logged log (upload number bytes) = payload_of log number ≡ some bytes

pub Logged-append :
    (log more : List Bytes) (future : UploadPart) → Logged log future → Logged (log ++ more) future
Logged-append log more (ready error) h = tt
Logged-append log more (upload number bytes) h = payload_of-append log more number bytes h

-- The part of the upload that R2 has is its payload.
abbrev pub Held : (ℕ → Option Bytes) → List Bytes → UploadedPart → Type 0
Held piece log part =
    (bytes : Bytes) × (piece part.part_number ≡ some bytes)
    × (payload_of log part.part_number ≡ some bytes)

pub Held-append :
    (piece : ℕ → Option Bytes) (log more : List Bytes) (part : UploadedPart)
    → Held piece log part
    → Held piece (log ++ more) part
Held-append piece log more part (bytes, e, f) =
    (bytes, e, payload_of-append log more part.part_number bytes f)

pub Held-other :
    (piece piece' : ℕ → Option Bytes) (log : List Bytes) (number : ℕ) (parts : List UploadedPart)
    → ((n : ℕ) → n ≢ number → piece' n ≡ piece n)
    → count_key number_of number parts ≡ 0
    → All (Held piece log) parts
    → All (Held piece' log) parts
Held-other piece piece' log number [] same none_of h = tt
Held-other piece piece' log number (part ∷ parts) same none_of ((bytes, e, f), h) = (
  (bytes, same part.part_number (λ at. absurd (ground (arith, at))) ∙ e, f),
  Held-other piece piece' log number parts same (ground arith) h,
)

pub All-dropped :
    (log : List Bytes) (before after : List UploadPart) (future : UploadPart)
    → All (Logged log) (before ++ future ∷ after)
    → Logged log future × All (Logged log) (before ++ after)
All-dropped log [] after future h = h
All-dropped log (earlier ∷ before) after future h =
    let (this, rest) = All-dropped log before after future h.1 in (this, (h.0, rest))
