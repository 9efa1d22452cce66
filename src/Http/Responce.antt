-- ===== src/Http/Responce.antt =====
-- `HttpResponce` and `HttpParserResponce` of src/http/http_responce.h and http_responce.cc, in the
-- same form as the request. What `element_cb_status` prints to the console is left out.
pub mod Laws
use proj.Base.{
  ℕ, ◌/◌, ◌%◌, Bool, true, Option, none, some, List, [], ◌∷◌, ◌++◌, if◌then◌else◌, take, concat,
}
use proj.Base.Text.{Text, codes, show, crlf, strncmp_eq}
use proj.Base.Numeral.{show_int, atoi}
use proj.Http.Fields
use proj.Http.Fields.{Fields, find, assign}
use proj.Http.Status.{http_status_ok, http_status_to_string}

-- The status is the bit pattern of the enumerator's `int`.
pub record HttpResponce : Type 0 where
  pub version : ℕ
  pub status : ℕ
  pub close : Bool
  pub body : Text
  pub fields : Fields

-- `HttpResponce::HttpResponce`
unfoldable pub construct : HttpResponce
construct = record { version = 0x11; status = http_status_ok; close = true; body = []; fields = [] }

-- `HttpResponce::toString`
pub to_string : HttpResponce → Text
to_string res = concat (
    codes "HTTP/"
    ∷ show (res.version / 16)
    ∷ codes "."
    ∷ show (res.version % 16)
    ∷ codes " "
    ∷ show_int res.status
    ∷ codes " "
    ∷ http_status_to_string res.status
    ∷ crlf
    ∷ Fields.print res.fields
    ∷ crlf
    ∷ res.body
    ∷ [])

pub get_field : HttpResponce → Text → Text
get_field res key = elim (find key res.fields) [ none ↦ [] | some val ↦ val ]

pub set_field : HttpResponce → Text → Text → HttpResponce
set_field res key val = record res { fields = assign key val res.fields }

-- `atoi` reads on from the pointer, past the length.
pub element_cb_status : HttpResponce → Text → ℕ → HttpResponce
element_cb_status res at len = record res { status = atoi at }

pub element_cb_version_res : HttpResponce → Text → ℕ → HttpResponce
element_cb_version_res res at len = record res {
  version =
      if strncmp_eq at (codes "HTTP/1.1") 8
      then 0x11
      else if strncmp_eq at (codes "HTTP/1.0") 8
      then 0x10
      else 0;
}

pub field_cb_map_res : HttpResponce → Text → ℕ → Text → ℕ → HttpResponce
unfolding set_field
field_cb_map_res res field flen value vlen = set_field res (take flen field) (take vlen value)

-- The callbacks of `httpclient_parser`.
pub data Event : Type 0 where
  http_field : Text → ℕ → Text → ℕ → Event
  reason_phrase status_code chunk_size http_version header_done last_chunk : Text → ℕ → Event

-- The wiring of `HttpParserResponce::HttpParserResponce`: four of the callbacks are null.
pub handle : HttpResponce → Event → HttpResponce
unfolding field_cb_map_res element_cb_status element_cb_version_res
handle res (Event.http_field field flen value vlen) = field_cb_map_res res field flen value vlen
handle res (Event.reason_phrase at len) = res
handle res (Event.status_code at len) = element_cb_status res at len
handle res (Event.chunk_size at len) = res
handle res (Event.http_version at len) = element_cb_version_res res at len
handle res (Event.header_done at len) = res
handle res (Event.last_chunk at len) = res

-- `HttpParserResponce::execute`: the result of the machine is passed on, and the buffer is not
-- touched.
pub execute : HttpResponce → List Event → ℕ → HttpResponce × ℕ
execute res [] off = (res, off)
execute res (e ∷ es) off = execute (handle res e) es off
