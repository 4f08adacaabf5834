-- ===== src/Container/BindingStore/Responses.antt =====
-- What container/src/binding_store.rs reads from the answers of the bridge.
use slatedb_cloudflare.Container.BindingStore.Bridge.{Response, Client}
use slatedb_cloudflare.Prelude.{
  ℕ, ◌^◌, Text, String, codes, append, parse_unsigned, Bool, ◌&&◌, Option, none, some, Result, ok,
  err, ◌>>=◌, pure, lift, map_err, ltb, leb, if◌then◌else◌,
}
use slatedb_cloudflare.ObjectStore.{Error, ObjectMeta, PutResult}
use slatedb_cloudflare.Container.BindingStore.Counters.{Method, generic_error}

abbrev pub is_success : ℕ → Bool
is_success status = leb 200 status && ltb status 300

abbrev pub text_or_default : Result String String → String
text_or_default (ok text) = text
text_or_default (err error) = ""

unfoldable pub check_response : Response → Result Error Response
check_response response =
    if is_success response.status
    then ok response
    else err (
        generic_error (
          append "R2 binding bridge returned "
            (append response.status_text (append ": " (text_or_default response.text)))))

abbrev pub transpose : Option (Result String Text) → Result Error (Option Text)
transpose none = ok none
transpose (some (ok value)) = ok (some value)
transpose (some (err error)) = err (generic_error error)

unfoldable pub header_value : Response → Text → Result Error (Option Text)
header_value response name = transpose (response.header name)

abbrev pub required : String → Option (Result String Text) → Result Error Text
required name none = err (generic_error (append "missing " (append name " header")))
required name (some value) = map_err generic_error value

unfoldable pub required_header : Response → String → Result Error Text
required_header response name = required name (response.header (codes name))

unfoldable pub put_result : {W : Type 0} → Response → Method W PutResult
unfolding header_value
put_result response = do
  e_tag ← lift (header_value response (codes "etag"))
  version ← lift (header_value response (codes "x-slate-version"))
  pure (record { e_tag = e_tag; version = version })

unfoldable pub object_meta : {W : Type 0} → Client W → Text → Response → Method W ObjectMeta
unfolding header_value required_header
object_meta client location response = do
  size_text ← lift (required_header response "x-slate-size")
  size ← lift (map_err generic_error (parse_unsigned (2 ^ 64) size_text))
  uploaded_text ← lift (required_header response "x-slate-uploaded")
  uploaded ← lift (map_err generic_error (client.parse_date uploaded_text))
  e_tag ← lift (header_value response (codes "etag"))
  version ← lift (header_value response (codes "x-slate-version"))
  pure (record {
    location = location;
    last_modified = uploaded;
    size = size;
    e_tag = e_tag;
    version = version;
  })
