-- ===== src/Http/Method.antt =====
-- `HTTP_METHOD_MAP` and the conversions of `http_method` in src/http/http_request.cc. A method
-- is the number of its enumerator, as any `int` can be cast to one.
use proj.Base.{ℕ, ◌<◌, ◌≡◌, refl, [], ◌∷◌, length, ◌==◌, true, ==_iff, tests_below, tests_below→at}
use proj.Base.Text.{Text, codes, same_byte, ncmp_eq}
use proj.Http.Table.{Table, NoNul, FirstBegun, name_of, code_of, code_of-FirstBegun}

abbrev pub http_unknow : ℕ
http_unknow = 34

abbrev pub http_get : ℕ
http_get = 1

-- The rows, by the second column: the conversions use `#name` in both directions.
unfoldable pub method_map : Table
method_map =
    (0, codes "DELETE")
    ∷ (1, codes "GET")
    ∷ (2, codes "HEAD")
    ∷ (3, codes "POST")
    ∷ (4, codes "PUT")
    ∷ (5, codes "CONNECT")
    ∷ (6, codes "OPTIONS")
    ∷ (7, codes "TRACE")
    ∷ (8, codes "COPY")
    ∷ (9, codes "LOCK")
    ∷ (10, codes "MKCOL")
    ∷ (11, codes "MOVE")
    ∷ (12, codes "PROPFIND")
    ∷ (13, codes "PROPPATCH")
    ∷ (14, codes "SEARCH")
    ∷ (15, codes "UNLOCK")
    ∷ (16, codes "BIND")
    ∷ (17, codes "REBIND")
    ∷ (18, codes "UNBIND")
    ∷ (19, codes "ACL")
    ∷ (20, codes "REPORT")
    ∷ (21, codes "MKACTIVITY")
    ∷ (22, codes "CHECKOUT")
    ∷ (23, codes "MERGE")
    ∷ (24, codes "MSEARCH")
    ∷ (25, codes "NOTIFY")
    ∷ (26, codes "SUBSCRIBE")
    ∷ (27, codes "UNSUBSCRIBE")
    ∷ (28, codes "PATCH")
    ∷ (29, codes "PURGE")
    ∷ (30, codes "MKCALENDAR")
    ∷ (31, codes "LINK")
    ∷ (32, codes "UNLINK")
    ∷ (33, codes "SOURCE")
    ∷ []

unfoldable pub http_method_to_string : ℕ → Text
http_method_to_string method = name_of method_map method

-- `method` is the text from the pointer on.
unfoldable pub http_method_from_chars : Text → ℕ → ℕ
http_method_from_chars method len = code_of same_byte http_unknow method_map method len

unfoldable pub http_method_from_string : Text → ℕ
http_method_from_string method = code_of same_byte http_unknow method_map method (length method)

round_trip_table :
    tests_below (λ m. http_method_from_string (http_method_to_string m) == m) 35 ≡ true
unfolding tests_below http_method_from_string http_method_to_string name_of code_of method_map
    ncmp_eq
round_trip_table = refl

-- Every enumerator of `http_method`, the unknown one included, is read back from its text.
pub http_method_from_string-to_string :
    (method : ℕ) → method < 35 → http_method_from_string (http_method_to_string method) ≡ method
http_method_from_string-to_string method h = (==_iff _ method).0 (
    tests_below→at (λ m. http_method_from_string (http_method_to_string m) == m) 35 method h
      round_trip_table)

-- A text with no NUL is read as the first method of the table whose name it begins, and as the
-- unknown method exactly if it begins no name; so a proper prefix of a name is a method too.
pub http_method_from_string-FirstBegun :
    (text : Text)
    → NoNul text
    → FirstBegun same_byte http_unknow method_map text (http_method_from_string text)
unfolding http_method_from_string
http_method_from_string-FirstBegun text h =
    code_of-FirstBegun same_byte http_unknow method_map text h
