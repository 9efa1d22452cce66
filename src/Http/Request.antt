-- ===== src/Http/Request.antt =====
-- `HttpRequest` and `HttpRequestParser` of src/http/http_request.h and http_request.cc. The machine
-- that `http_parser_execute` runs is not modelled: a run of it is the list of the callbacks that it
-- makes, each with the text from its pointer on and the length, and the number of bytes it takes.
pub mod Laws
use proj.Base.{
  ℕ, ◌+◌, ◌-◌, ◌/◌, ◌%◌, Bool, true, false, Option, none, some, List, [], ◌∷◌, ◌++◌, if◌then◌else◌,
  take, drop, length, concat,
}
use proj.Base.Text.{Text, codes, is_empty, show, strncmp_eq, crlf}
use proj.Http.Fields
use proj.Http.Fields.{Fields, find, assign}
use proj.Http.Method.{http_get, http_method_to_string, http_method_from_chars}

pub record HttpRequest : Type 0 where
  pub method : ℕ
  pub close : Bool
  pub version : ℕ
  pub path : Text
  pub flagment : Text
  pub query : Text
  pub fields : Fields
  pub body : Text
  pub cookies : List Text

-- `HttpRequest::HttpRequest`
unfoldable pub construct : HttpRequest
construct = record {
  method = http_get;
  close = true;
  version = 0x11;
  path = codes "/";
  flagment = [];
  query = [];
  fields = [];
  body = [];
  cookies = [];
}

pub get_field : HttpRequest → Text → Text
get_field req key = elim (find key req.fields) [ none ↦ [] | some val ↦ val ]

pub set_field : HttpRequest → Text → Text → HttpRequest
set_field req key val = record req { fields = assign key val req.fields }

-- `HttpRequest::toString`
unfoldable pub to_string : HttpRequest → Text
to_string req = concat (
    http_method_to_string req.method
    ∷ codes " "
    ∷ req.path
    ∷ (if is_empty req.query then [] else codes "?")
    ∷ req.query
    ∷ (if is_empty req.flagment then [] else codes "#")
    ∷ req.flagment
    ∷ codes " HTTP/"
    ∷ show (req.version / 16)
    ∷ codes "."
    ∷ show (req.version % 16)
    ∷ crlf
    ∷ Fields.print req.fields
    ∷ crlf
    ∷ [])

pub element_cb_method : HttpRequest → Text → ℕ → HttpRequest
element_cb_method req at len = record req { method = http_method_from_chars at len }

-- The length is not read: the text from the pointer on is compared.
unfoldable pub version_of : Text → ℕ
version_of at =
    if strncmp_eq at (codes "HTTP/1.1") 8
    then 0x11
    else if strncmp_eq at (codes "HTTP/1.0") 8
    then 0x10
    else 0

pub element_cb_version : HttpRequest → Text → ℕ → HttpRequest
unfolding version_of
element_cb_version req at len = record req { version = version_of at }

pub element_cb_path : HttpRequest → Text → ℕ → HttpRequest
element_cb_path req at len = record req { path = take len at }

pub element_cb_fragment : HttpRequest → Text → ℕ → HttpRequest
element_cb_fragment req at len = record req { flagment = take len at }

pub element_cb_query : HttpRequest → Text → ℕ → HttpRequest
element_cb_query req at len = record req { query = take len at }

pub field_cb_map : HttpRequest → Text → ℕ → Text → ℕ → HttpRequest
unfolding set_field
field_cb_map req field flen value vlen = set_field req (take flen field) (take vlen value)

-- The callbacks of `http_parser`.
pub data Event : Type 0 where
  http_field : Text → ℕ → Text → ℕ → Event
  request_method request_uri fragment request_path query_string http_version header_done :
      Text → ℕ → Event

-- The wiring of `HttpRequestParser::HttpRequestParser`: two of the callbacks are null.
unfoldable pub handle : HttpRequest → Event → HttpRequest
unfolding field_cb_map element_cb_method element_cb_fragment element_cb_path element_cb_query
    element_cb_version
handle req (Event.http_field field flen value vlen) = field_cb_map req field flen value vlen
handle req (Event.request_method at len) = element_cb_method req at len
handle req (Event.request_uri at len) = req
handle req (Event.fragment at len) = element_cb_fragment req at len
handle req (Event.request_path at len) = element_cb_path req at len
handle req (Event.query_string at len) = element_cb_query req at len
handle req (Event.http_version at len) = element_cb_version req at len
handle req (Event.header_done at len) = req

unfoldable pub handle_all : HttpRequest → List Event → HttpRequest
handle_all req [] = req
handle_all req (e ∷ es) = handle_all (handle req e) es

-- `HttpRequestParser::execute`: the machine takes `off` bytes of the buffer, and `memmove` brings
-- the others to its front.
pub execute : HttpRequest → Text → List Event → ℕ → HttpRequest × Text × ℕ
unfolding handle_all
execute req buf events off =
    (handle_all req events, drop off buf ++ drop (length buf - off) buf, off)
