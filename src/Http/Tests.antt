-- ===== src/Http/Tests.antt =====
-- Methods, statuses, fields, requests and responses at concrete inputs.
use mathlib.Core.Path.{subst}
use proj.Base.{sym, false, ◌≢◌, ◌≡◌, refl, List, [], ◌∷◌, arith, inr, take, drop, length}
use proj.Base.Text.{text_eq, text_eq_refl, Text, codes, same_byte, lower, lex, ncmp_eq, decimal}
use proj.Http.Table.{FirstBegun, name_of, code_of}
use proj.Http.Method.{
  http_method_from_string, http_method_from_chars, http_method_to_string, method_map, http_unknow,
  http_method_from_string-to_string, http_method_from_string-FirstBegun,
}
use proj.Http.Status.{
  http_status_from_string, http_status_to_string, status_map, http_status_unknow,
  http_status_from_string-to_string, http_status_from_string-FirstBegun,
}
use proj.Http.Fields.{Fields, assign, print, IsSorted, assign-IsSorted}
use proj.Http.Request
use proj.Http.Request.{Event, HttpRequest, version_of}
use proj.Http.Request.Laws.{last_value, get_field-handle_all, execute_lem}
use proj.Http.Responce
use proj.Http.Responce.Laws.{execute-to_string}

http_method_from_string-to_string_test : http_method_from_string (http_method_to_string 24) ≡ 24
http_method_from_string-to_string_test = http_method_from_string-to_string 24 (omega arith)

-- A text is not another that is told apart from it.
ne_of_text_eq : (a b : Text) → text_eq a b ≡ false → a ≢ b
ne_of_text_eq a b h e = cc (text_eq_refl a, subst (λ t. text_eq a t ≡ false) (sym e) h)

not_found_differs : text_eq (http_status_to_string 404) (codes "UNKNOW") ≡ false
unfolding text_eq http_status_to_string name_of status_map
not_found_differs = refl

http_status_from_string-to_string_test : http_status_from_string (http_status_to_string 404) ≡ 404
http_status_from_string-to_string_test =
    http_status_from_string-to_string 404 (omega arith)
      (ne_of_text_eq (http_status_to_string 404) (codes "UNKNOW") not_found_differs)

http_method_from_string-FirstBegun_test :
    FirstBegun same_byte http_unknow method_map (codes "PO") (http_method_from_string (codes "PO"))
http_method_from_string-FirstBegun_test =
    http_method_from_string-FirstBegun (codes "PO") (omega arith)

-- A prefix is enough, and the name on the wire of one method is unknown.
method_prefixes :
    (http_method_from_string (codes "P") ≡ 3)
    × (http_method_from_string [] ≡ 0)
    × (http_method_from_string (codes "M-SEARCH") ≡ http_unknow)
unfolding http_method_from_string code_of method_map ncmp_eq
method_prefixes = (refl, refl, refl)

http_status_from_string-FirstBegun_test :
    FirstBegun lower http_status_unknow status_map
      (codes "not f")
      (http_status_from_string (codes "not f"))
http_status_from_string-FirstBegun_test =
    http_status_from_string-FirstBegun (codes "not f") (omega arith)

abbrev fields : Fields
fields = (codes "Accept", codes "*") ∷ (codes "Host", codes "a") ∷ []

fields-IsSorted : IsSorted fields
unfolding lex lower
fields-IsSorted = ((refl, tt), (tt, tt))

assigned_fields : IsSorted (assign (codes "Date") (codes "b") fields)
assigned_fields = assign-IsSorted (codes "Date") (codes "b") fields fields-IsSorted

-- An entry keeps the spelling of its name.
assign_keeps_name :
    assign (codes "HOST") (codes "b") fields
    ≡ (codes "Accept", codes "*") ∷ (codes "Host", codes "b") ∷ []
unfolding assign lex lower
assign_keeps_name = refl

abbrev request : HttpRequest
request = record Request.construct { fields = fields }

abbrev events : List Event
events =
    Event.request_method (codes "GET / HTTP/1.1") 3
    ∷ Event.request_path (codes "/ HTTP/1.1") 1
    ∷ Event.http_version (codes "HTTP/1.1") 8
    ∷ Event.http_field (codes "HOST: b") 4 (codes "b") 1
    ∷ []

get_field-handle_all_example :
    Request.get_field (Request.handle_all request events) (codes "host")
    ≡ last_value (codes "host") (Request.get_field request (codes "host")) events
get_field-handle_all_example = get_field-handle_all events request (codes "host")

execute_lem_test :
    let (req, buf, taken) = Request.execute request (codes "GET /rest") events 4 in
    IsSorted req.fields × (taken ≡ 4) × (take 5 buf ≡ codes "/rest") × (length buf ≡ 9)
unfolding Request.construct
execute_lem_test = execute_lem request (codes "GET /rest") events 4 fields-IsSorted (omega arith)

printed :
    Request.to_string (Request.handle_all Request.construct events)
    ≡ codes "GET / HTTP/1.1\r\nHOST: b\r\n\r\n"
unfolding Request.to_string Request.handle_all Request.handle Request.construct name_of code_of
    method_map ncmp_eq http_method_to_string http_method_from_chars print assign version_of decimal
printed = refl

abbrev responce : Responce.HttpResponce
responce = record Responce.construct { status = 404 }

execute-to_string_example :
    let (res, taken) =
      Responce.execute Responce.construct
        (Responce.Event.http_version (Responce.to_string responce) 8
          ∷ Responce.Event.status_code (drop 9 (Responce.to_string responce)) 3
          ∷ [])
        0 in
    (res.version ≡ 0x11) × (res.status ≡ 404)
unfolding Responce.construct
execute-to_string_example = execute-to_string responce Responce.construct 0 (inr refl) (omega arith)
