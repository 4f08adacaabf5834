-- ===== src/DurableObject/Handle/Limits.antt =====
-- How many items a scan answers, whatever its iterator yields and whatever its query asks for.
use slatedb_cloudflare.Prelude.{
  ℕ, ◌+◌, ◌^◌, ◌≤◌, ◌<◌, Text, codes, decimal, parse_unsigned-decimal, false, none, some, List, [],
  subst, Result, ok, err, bind-elim, Bool-cases, inl, inr, ◌⊎◌, length, length-take, take, ltb, ◌∙◌,
  ◌≡◌, refl, arith,
}
use mathlib.Core.Option
use slatedb_cloudflare.Slatedb.{Engine}
use slatedb_cloudflare.DurableObject.State.{Shared}
use slatedb_cloudflare.DurableObject.DoCache.KeyValue.{Storage, HeadCodec}
use slatedb_cloudflare.DurableObject.Names.{find_pair, Pairs}
use slatedb_cloudflare.DurableObject.Server.{
  Builder, SlateDbObject, database, on_shared, start_scan, scan_up_to, read_items,
}
use slatedb_cloudflare.DurableObject.Web.{Request, Response, ScanResponse, ScanItem, scan_response}
use slatedb_cloudflare.DurableObject.Handle.{scan_from, run_operation_of}
use slatedb_cloudflare.DurableObject.Routing.{from_json, parse_usize, clamp, scan_limit, to_scan}

-- The limit that a query sets: the number that it asks for, if that is from 1 to 1000, and else the
-- nearer of the two; and 100 if it asks for none, or for what is no number of 32 bits.
pub data Limits (pairs : Pairs) : ℕ → Type 0 where
  within :
      (n : ℕ)
      → 1 ≤ n
      → n ≤ 1000
      → find_pair (codes "limit") pairs ≡ some (decimal n)
      → Limits pairs n
  below : find_pair (codes "limit") pairs ≡ some (decimal 0) → Limits pairs 1
  above :
      (n : ℕ)
      → 1000 < n
      → n < 2 ^ 32
      → find_pair (codes "limit") pairs ≡ some (decimal n)
      → Limits pairs 1000
  unreadable :
      (text : Text)
      → find_pair (codes "limit") pairs ≡ some text
      → parse_usize text ≡ none
      → Limits pairs 100
  unlimited : find_pair (codes "limit") pairs ≡ none → Limits pairs 100

scan_limit-clamp :
    (pairs : Pairs) (n : ℕ)
    → n < 2 ^ 32
    → find_pair (codes "limit") pairs ≡ some (decimal n)
    → scan_limit pairs ≡ clamp n
unfolding scan_limit parse_usize Option.bind
scan_limit-clamp pairs n small e = rw e (rw (parse_unsigned-decimal (2 ^ 32) n small) refl)

scan_limit-Limits : (pairs : Pairs) (limit : ℕ) → Limits pairs limit → scan_limit pairs ≡ limit
unfolding scan_limit parse_usize Option.bind
scan_limit-Limits pairs limit (within n low high e) =
    scan_limit-clamp pairs n (omega arith) e ∙ ground arith
scan_limit-Limits pairs limit (below e) = scan_limit-clamp pairs 0 (omega arith) e
scan_limit-Limits pairs limit (above n large small e) =
    scan_limit-clamp pairs n small e ∙ ground arith
scan_limit-Limits pairs limit (unreadable text e f) = rw (e, f) refl
scan_limit-Limits pairs limit (unlimited e) = rw e refl

limit_bounds : (pairs : Pairs) (limit : ℕ) → Limits pairs limit → (1 ≤ limit) × (limit ≤ 1000)
limit_bounds pairs limit (within n low high e) = (low, high)
limit_bounds pairs limit (below e) = omega arith
limit_bounds pairs limit (above n large small e) = omega arith
limit_bounds pairs limit (unreadable text e f) = omega arith
limit_bounds pairs limit (unlimited e) = omega arith

-- What is answered has at most so many items; if it is truncated, it has exactly so many.
abbrev pub Fits : ℕ → ScanResponse → Type 0
Fits limit found =
    (length found.items ≤ limit) × ((found.truncated ≡ false) ⊎ (length found.items ≡ limit))

take-Fits :
    (limit : ℕ) (items : List ScanItem)
    → Fits limit (record { items = take limit items; truncated = ltb limit (length items) })
take-Fits limit items = elim (Bool-cases (ltb limit (length items))) [
  | inl more ↦ rw length-take (ground arith, inr (ground arith))
  | inr all ↦ rw length-take (ground arith, inl all)
]

abbrev FitsOk : ℕ → Result Text ScanResponse → Type 0
FitsOk limit (err error) = Unit
FitsOk limit (ok found) = Fits limit found

-- What a scan answers, if it does not fail.
abbrev pub ScanFits : {S : Type 0} → ℕ → Result Text Response × S → Type 0
ScanFits limit (err error, s) = Unit
ScanFits limit (ok response, s) =
    (found : ScanResponse) × (response ≡ from_json (scan_response found)) × Fits limit found

module _ {W Store Db Recorder Head Attributes : Type 0} (engine : Engine (Shared W) Db Recorder)
    (builder : Builder (Shared W) Store Db Recorder) (storage : Storage W Head)
    (codec : HeadCodec Head Attributes) where
  scan_from-Fits :
      (pairs : Pairs) (db : Db) (s : Shared W)
      → FitsOk (scan_limit pairs) (scan_from engine builder storage codec pairs db s).0
  unfolding scan_up_to
  scan_from-Fits pairs db s =
      bind-elim (λ (r : Result Text ScanResponse × Shared W). FitsOk (scan_limit pairs) r.0)
        (start_scan engine builder db (Option.get_or (find_pair (codes "prefix") pairs) []))
        (scan_up_to engine builder (scan_limit pairs)) s (λ e s'. tt)
        (λ iterator s' started.
          bind-elim (λ (r : Result Text ScanResponse × Shared W). FitsOk (scan_limit pairs) r.0)
            (read_items engine builder (scan_limit pairs + 1) iterator []) _ s' (λ e s'. tt)
            (λ items s'' read. take-Fits (scan_limit pairs) items))

  found-Fits :
      (pairs : Pairs) (db : Db) (s : Shared W) (found : ScanResponse)
      → (scan_from engine builder storage codec pairs db s).0 ≡ ok found
      → Fits (scan_limit pairs) found
  found-Fits pairs db s found e = subst (FitsOk (scan_limit pairs)) e (scan_from-Fits pairs db s)

  run_scan-Fits :
      (name : Text) (pairs : Pairs) (req : Request) (object : SlateDbObject (Shared W) Db Recorder)
      → ScanFits
          (scan_limit pairs)
          (run_operation_of engine builder storage codec to_scan name pairs req object)
  unfolding run_operation_of
  run_scan-Fits name pairs req object =
      bind-elim (ScanFits (scan_limit pairs)) (database engine builder name) _ object (λ e s. tt)
        (λ db s opened.
          bind-elim (ScanFits (scan_limit pairs))
            (on_shared (scan_from engine builder storage codec pairs db)) _ s (λ e s'. tt)
            (λ found s' e. (found, refl, found-Fits pairs db s.shared found e)))

  -- The limit that a query sets is between 1 and 1000, and a scan under it, if it does not fail,
  -- answers at most so many items, and exactly so many if it says that it is truncated, whatever
  -- the database holds and whatever its iterator yields. The limit is the number that the query
  -- asks for in decimal digits, or the nearer of 1 and 1000, and 100 if it asks for none or for
  -- what is no number of 32 bits.
  pub scan-Limited :
      (name : Text) (pairs : Pairs) (req : Request) (object : SlateDbObject (Shared W) Db Recorder)
      (limit : ℕ)
      → Limits pairs limit
      → (1 ≤ limit)
        × (limit ≤ 1000)
        × ScanFits limit
            (run_operation_of engine builder storage codec to_scan name pairs req object)
  scan-Limited name pairs req object limit sets =
      let e = scan_limit-Limits pairs limit sets in
      let (low, high) = limit_bounds pairs limit sets in
      (
        low,
        high,
        subst
            (λ l.
              ScanFits l
                (run_operation_of engine builder storage codec to_scan name pairs req object))
            e (run_scan-Fits name pairs req object),
      )
