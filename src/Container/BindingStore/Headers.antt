-- ===== src/Container/BindingStore/Headers.antt =====
-- The metadata of an object in the headers of an answer.
use slatedb_cloudflare.Prelude.{
  ◌<◌, ◌^◌, Text, codes, decimal, parse_unsigned-decimal, Option, none, some, ok, ◌≡◌, refl,
}
use mathlib.Core.Option
use slatedb_cloudflare.ObjectStore.{ObjectMeta}
use slatedb_cloudflare.Container.BindingStore.{
  Shared, header_value, transpose, required_header, object_meta,
}
use slatedb_cloudflare.Container.BindingStore.Bridge.{Response, Client}

-- The headers of an answer that describe an object, with the text of its date.
pub record Describes (response : Response) (meta : ObjectMeta) (date : Text) : Type 0 where
  pub size : response.header (codes "x-slate-size") ≡ some (ok (decimal meta.size))
  pub uploaded : response.header (codes "x-slate-uploaded") ≡ some (ok date)
  pub tag : response.header (codes "etag") ≡ Option.map ok meta.e_tag
  pub version : response.header (codes "x-slate-version") ≡ Option.map ok meta.version

transpose-map : (value : Option Text) → transpose (Option.map ok value) ≡ ok value
transpose-map none = refl
transpose-map (some value) = refl

-- The metadata that the headers of an answer describe is what is read from them, when the size is
-- in decimal digits and below 2 ^ 64 and the date is one that parses. Reading them changes nothing.
pub object_meta-Describes :
    {W : Type 0} (client : Client W) (response : Response) (meta : ObjectMeta) (date : Text)
    (s : Shared W)
    → Describes response meta date
    → meta.size < 2 ^ 64
    → client.parse_date date ≡ ok meta.last_modified
    → object_meta client meta.location response s ≡ (ok meta, s)
unfolding object_meta required_header header_value
object_meta-Describes client response meta date s described small dated =
    rw (described.size, described.uploaded, described.tag, described.version)
      (rw (parse_unsigned-decimal (2 ^ 64) meta.size small, dated, transpose-map meta.e_tag)
        (rw (transpose-map meta.version) refl))
