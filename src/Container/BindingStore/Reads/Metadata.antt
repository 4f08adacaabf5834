-- ===== src/Container/BindingStore/Reads/Metadata.antt =====
-- What `object_meta` of container/src/binding_store.rs reads from the headers of an answer, and
-- which errors are generic.
use slatedb_cloudflare.Prelude.{
  Text, String, codes, Option, none, some, Result, ok, err, lift-elim, map_err, parse_unsigned, ◌≡◌,
  ◌^◌, refl, arith,
}
use slatedb_cloudflare.ObjectStore.{
  Error, precondition, not_modified, generic, Crate, ObjectMeta, GetOptions,
}
use slatedb_cloudflare.Container.BindingStore.{
  Shared, generic_error, header_value, required_header, required, object_meta, transpose,
}
use slatedb_cloudflare.Container.BindingStore.Bridge.{Response, Client}

-- An error that stands for no answer of the bucket.
abbrev pub IsGeneric : Error → Type 0
IsGeneric (generic store source) = Unit {0}
IsGeneric _ = ⊥

-- `check_preconditions` refuses an object by its tag or by its date, and never as missing.
abbrev pub IsRefusal : Error → Type 0
IsRefusal (precondition path source) = Unit {0}
IsRefusal (not_modified path source) = Unit {0}
IsRefusal _ = ⊥

pub record RefusesOnly (crate : Crate) : Type 0 where
  pub refusal :
      (options : GetOptions) (meta : ObjectMeta) (error : Error)
      → crate.check_preconditions options meta ≡ err error
      → IsRefusal error

pub map_err-IsGeneric {ℓ} :
    {A : Type ℓ} (r : Result String A) (error : Error)
    → map_err generic_error r ≡ err error
    → IsGeneric error
map_err-IsGeneric (ok a) error h = cc
map_err-IsGeneric (err e) error h = ground (arith, h)

transpose-IsGeneric :
    (header : Option (Result String Text)) (error : Error)
    → transpose header ≡ err error
    → IsGeneric error
transpose-IsGeneric none error h = cc
transpose-IsGeneric (some (ok value)) error h = cc
transpose-IsGeneric (some (err e)) error h = ground (arith, h)

required-IsGeneric :
    (name : String) (header : Option (Result String Text)) (error : Error)
    → required name header ≡ err error
    → IsGeneric error
required-IsGeneric name none error h = ground (arith, h)
required-IsGeneric name (some (ok value)) error h = cc
required-IsGeneric name (some (err e)) error h = ground (arith, h)

required_header-IsGeneric :
    (response : Response) (name : String) (error : Error)
    → required_header response name ≡ err error
    → IsGeneric error
unfolding required_header
required_header-IsGeneric response name error e =
    required-IsGeneric name (response.header (codes name)) error e

header_value-IsGeneric :
    (response : Response) (name : Text) (error : Error)
    → header_value response name ≡ err error
    → IsGeneric error
unfolding header_value
header_value-IsGeneric response name error e = transpose-IsGeneric (response.header name) error e

-- The metadata that the headers of an answer name.
pub record NamedBy (location : Text) (response : Response) (meta : ObjectMeta) : Type 0 where
  pub location_asked : meta.location ≡ location
  pub tag : header_value response (codes "etag") ≡ ok meta.e_tag
  pub version : header_value response (codes "x-slate-version") ≡ ok meta.version
  pub size :
      (text : Text) × (required_header response "x-slate-size" ≡ ok text)
      × (map_err generic_error (parse_unsigned (2 ^ 64) text) ≡ ok meta.size)

module _ {W : Type 0} (client : Client W) (location : Text) where
  abbrev pub MetaOf : Response → Shared W → Result Error ObjectMeta × Shared W → Type 0
  MetaOf response s (ok meta, s') = NamedBy location response meta × (s' ≡ s)
  MetaOf response s (err error, s') = IsGeneric error × (s' ≡ s)

  pub object_meta-MetaOf :
      (response : Response) (s : Shared W)
      → MetaOf response s (object_meta client location response s)
  unfolding object_meta
  object_meta-MetaOf response s =
      lift-elim (MetaOf response s) (required_header response "x-slate-size") _ s
        (λ error e. (required_header-IsGeneric response "x-slate-size" error e, refl))
        (λ size_text size_here.
          lift-elim (MetaOf response s) (map_err generic_error (parse_unsigned (2 ^ 64) size_text))
            _ s (λ error e. (map_err-IsGeneric (parse_unsigned (2 ^ 64) size_text) error e, refl))
            (λ size size_read.
              lift-elim (MetaOf response s) (required_header response "x-slate-uploaded") _ s
                (λ error e. (required_header-IsGeneric response "x-slate-uploaded" error e, refl))
                (λ uploaded_text uploaded_here.
                  lift-elim (MetaOf response s)
                    (map_err generic_error (client.parse_date uploaded_text)) _ s
                    (λ error e. (map_err-IsGeneric (client.parse_date uploaded_text) error e, refl))
                    (λ uploaded uploaded_read.
                      lift-elim (MetaOf response s) (header_value response (codes "etag")) _ s
                        (λ error e. (header_value-IsGeneric response (codes "etag") error e, refl))
                        (λ e_tag tag_here.
                          lift-elim (MetaOf response s)
                            (header_value response (codes "x-slate-version")) _ s
                            (λ error e. (
                              header_value-IsGeneric response (codes "x-slate-version") error e,
                              refl,
                            ))
                            (λ version version_here. (
                              record {
                                location_asked = refl;
                                tag = tag_here;
                                version = version_here;
                                size = (size_text, size_here, size_read);
                              },
                              refl,
                            )))))))
