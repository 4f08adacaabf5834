-- ===== src/DurableObject/R2Store/Multipart/Clients.antt =====
-- A client of a multipart upload, the steps that it can take and the invariant of its part numbers.
use slatedb_cloudflare.Prelude.{
  ℕ, suc, ◌+◌, ◌≤◌, ◌<◌, List, [], ◌∷◌, ◌++◌, ◌≡◌, arith, ◌==◌, if◌then◌else◌, count_key,
}
use slatedb_cloudflare.ObjectStore.{PutPayload}
use slatedb_cloudflare.DurableObject.R2Store.{R2Store}
use slatedb_cloudflare.DurableObject.R2Store.Binding.{UploadedPart}
use slatedb_cloudflare.DurableObject.R2Store.Multipart.{
  UploadPart, ready, upload, put_part, Session, run_part, complete, abort, max_multipart_parts,
}

-- The upload, and the futures that have not run yet.
pub record Client (W : Type 0) : Type 0 where
  pub session : Session W
  pub pending : List UploadPart

abbrev pub number_of : UploadedPart → ℕ
number_of part = part.part_number

-- How many pending futures upload a part of this number, and how many uploaded parts have it.
abbrev pub count_pending : ℕ → List UploadPart → ℕ
count_pending n [] = 0
count_pending n (ready error ∷ futures) = count_pending n futures
count_pending n (upload m bytes ∷ futures) = (if m == n then 1 else 0) + count_pending n futures

pub count_pending-append :
    (n : ℕ) (fs gs : List UploadPart)
    → count_pending n (fs ++ gs) ≡ count_pending n fs + count_pending n gs
count_pending-append n [] gs = omega arith
count_pending-append n (ready error ∷ fs) gs = count_pending-append n fs gs
count_pending-append n (upload m bytes ∷ fs) gs = omega (arith, count_pending-append n fs gs)

pub count_key-append :
    (n : ℕ) (ps qs : List UploadedPart)
    → count_key number_of n (ps ++ qs) ≡ count_key number_of n ps + count_key number_of n qs
count_key-append n [] qs = omega arith
count_key-append n (p ∷ ps) qs = omega (arith, count_key-append n ps qs)

abbrev in_use : ℕ → List UploadPart → List UploadedPart → ℕ
in_use n pending uploaded = count_pending n pending + count_key number_of n uploaded

-- Every number that is in use was handed out, once, and is from 1 to the maximum.
abbrev pub NumbersOnce : ℕ → List UploadPart → List UploadedPart → Type 0
NumbersOnce next pending uploaded =
    (n : ℕ)
    → (in_use n pending uploaded ≤ 1) × (0 < in_use n pending uploaded → (1 ≤ n) × (n < next))

pub record IsValid {W : Type 0} (c : Client W) : Type 0 where
  pub next_positive : 1 ≤ c.session.self.next_part
  pub next_bounded : c.session.self.next_part ≤ suc max_multipart_parts
  pub once : NumbersOnce c.session.self.next_part c.pending c.session.self.uploaded_parts

module _ {W : Type 0} where
  abbrev pub started : PutPayload → Client W → Client W
  started payload c =
      let (future, self) = put_part payload c.session.self in
      record { session = record c.session { self = self }; pending = c.pending ++ future ∷ [] }

module _ {W : Type 0} (store : R2Store W) where
  -- What can happen next: the client starts a part, completes or aborts the upload, or any pending
  -- future runs.
  pub data Step : Client W → Client W → Type 0 where
    start_part : (c : Client W) (payload : PutPayload) → Step c (started payload c)
    end_part :
        (c : Client W) (before after : List UploadPart) (future : UploadPart)
        → c.pending ≡ before ++ future ∷ after
        → Step c
            (record { session = (run_part store future c.session).1; pending = before ++ after })
    complete_upload : (c : Client W) → Step c (record c { session = (complete store c.session).1 })
    abort_upload : (c : Client W) → Step c (record c { session = (abort store c.session).1 })

  pub data Reach (c : Client W) : Client W → Type 0 where
    here : Reach c c
    step : {d e : Client W} → Reach c d → Step d e → Reach c e

-- A client that has just started an upload.
pub record IsFresh {W : Type 0} (c : Client W) : Type 0 where
  pub next_is_one : c.session.self.next_part ≡ 1
  pub none_uploaded : c.session.self.uploaded_parts ≡ []
  pub none_pending : c.pending ≡ []

pub IsFresh-IsValid : {W : Type 0} {c : Client W} → IsFresh c → IsValid c
IsFresh-IsValid h = record {
  next_positive = omega (arith, h.next_is_one);
  next_bounded = omega (arith, h.next_is_one);
  once = λ n. rw (h.none_pending, h.none_uploaded) (omega arith);
}
