-- ===== src/Http/Request/Laws.antt =====
-- What the callbacks leave in a request.
use proj.Base.{
  ℕ, ◌-◌, ◌≤◌, ◌≡◌, refl, ap, ◌∙◌, List, [], ◌∷◌, arith, take, drop, length, length-append,
  length-drop, take-append, take_all,
}
use Prim.Native.Nat.{Ordering}
use proj.Base.Text.{Text, strcasecmp}
use proj.Http.Fields.{find-assign, IsSorted, assign-IsSorted}
use proj.Http.Request.{
  HttpRequest, Event, get_field, set_field, field_cb_map, handle, handle_all, execute,
}

-- The value of the last field of that name, in any case, that the machine reported.
pub last_value : Text → Text → List Event → Text
last_value key old [] = old
last_value key old (Event.http_field field flen value vlen ∷ es) =
    last_value key
      (elim (strcasecmp key (take flen field)) [
        | Ordering.lt ↦ old
        | Ordering.eq ↦ take vlen value
        | Ordering.gt ↦ old
      ])
      es
last_value key old (e ∷ es) = last_value key old es

get_field-set_field :
    (req : HttpRequest) (key name val : Text)
    → get_field (set_field req name val) key ≡ elim (strcasecmp key name) [
      | Ordering.lt ↦ get_field req key
      | Ordering.eq ↦ val
      | Ordering.gt ↦ get_field req key
    ]
unfolding get_field set_field
get_field-set_field req key name val = ground (arith, find-assign name key val req.fields)

-- Whatever the machine reports, a field reads as the last value that was given to its name in any
-- case, or as before where none was, and the other callbacks do not touch it.
pub get_field-handle_all :
    (es : List Event) (req : HttpRequest) (key : Text)
    → get_field (handle_all req es) key ≡ last_value key (get_field req key) es
unfolding handle_all handle last_value get_field
get_field-handle_all [] req key = refl
get_field-handle_all (Event.http_field field flen value vlen ∷ es) req key =
    get_field-handle_all es (field_cb_map req field flen value vlen) key
    ∙ ap (λ old. last_value key old es)
        (get_field-set_field req key (take flen field) (take vlen value))
get_field-handle_all (Event.request_method at len ∷ es) req key =
    get_field-handle_all es (handle req (Event.request_method at len)) key
get_field-handle_all (Event.request_uri at len ∷ es) req key =
    get_field-handle_all es (handle req (Event.request_uri at len)) key
get_field-handle_all (Event.fragment at len ∷ es) req key =
    get_field-handle_all es (handle req (Event.fragment at len)) key
get_field-handle_all (Event.request_path at len ∷ es) req key =
    get_field-handle_all es (handle req (Event.request_path at len)) key
get_field-handle_all (Event.query_string at len ∷ es) req key =
    get_field-handle_all es (handle req (Event.query_string at len)) key
get_field-handle_all (Event.http_version at len ∷ es) req key =
    get_field-handle_all es (handle req (Event.http_version at len)) key
get_field-handle_all (Event.header_done at len ∷ es) req key =
    get_field-handle_all es (handle req (Event.header_done at len)) key

handle-IsSorted :
    (e : Event) (req : HttpRequest) → IsSorted req.fields → IsSorted (handle req e).fields
unfolding handle set_field
handle-IsSorted (Event.http_field field flen value vlen) req h =
    assign-IsSorted (take flen field) (take vlen value) req.fields h
handle-IsSorted (Event.request_method at len) req h = h
handle-IsSorted (Event.request_uri at len) req h = h
handle-IsSorted (Event.fragment at len) req h = h
handle-IsSorted (Event.request_path at len) req h = h
handle-IsSorted (Event.query_string at len) req h = h
handle-IsSorted (Event.http_version at len) req h = h
handle-IsSorted (Event.header_done at len) req h = h

handle_all-IsSorted :
    (es : List Event) (req : HttpRequest)
    → IsSorted req.fields
    → IsSorted (handle_all req es).fields
unfolding handle_all
handle_all-IsSorted [] req h = h
handle_all-IsSorted (e ∷ es) req h = handle_all-IsSorted es (handle req e) (handle-IsSorted e req h)

-- `execute` leaves the names of the fields sorted, reports the bytes that the machine took, and
-- leaves the bytes that it did not take at the front of a buffer of the old length.
pub execute_lem :
    (req : HttpRequest) (buf : Text) (es : List Event) (off : ℕ)
    → IsSorted req.fields
    → off ≤ length buf
    → let (req', buf', taken) = execute req buf es off in
      IsSorted req'.fields
      × (taken ≡ off)
      × (take (length buf - off) buf' ≡ drop off buf)
      × (length buf' ≡ length buf)
unfolding execute
execute_lem req buf es off s h = (
  handle_all-IsSorted es req s,
  refl,
  take-append (length buf - off) (drop off buf) (drop (length buf - off) buf)
        (omega (arith, length-drop off buf))
      ∙ take_all (length buf - off) (drop off buf) (omega (arith, length-drop off buf)),
  omega (
    arith,
    length-append (drop off buf) (drop (length buf - off) buf),
    length-drop off buf,
    length-drop (length buf - off) buf,
  ),
)
