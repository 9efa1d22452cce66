-- ===== src/Http/Status.antt =====
-- `HTTP_STATUS_MAP` and the conversions of `http_status` in src/http/http_responce.cc. A status
-- is the number of its enumerator: `element_cb_status` casts any number to one.
use proj.Base.{
  ℕ, ◌<◌, ◌≡◌, refl, [], ◌∷◌, length, ◌==◌, Bool, ◌||◌, true, arith, Bool-cases, ==_iff,
  tests_below, tests_below→at, inl, inr, ◌≢◌,
}
use proj.Base.Text.{Text, codes, lower, ncmp_eq, text_eq, text_eq→eq}
use proj.Http.Table.{Table, NoNul, FirstBegun, name_of, code_of, code_of-FirstBegun}

-- The enumerator behind the last row, one more than it.
abbrev pub http_status_unknow : ℕ
http_status_unknow = 512

abbrev pub http_status_ok : ℕ
http_status_ok = 200

-- The rows, by the third column.
unfoldable pub status_map : Table
status_map =
    (100, codes "Continue")
    ∷ (101, codes "Switching Protocols")
    ∷ (102, codes "Processing")
    ∷ (200, codes "OK")
    ∷ (201, codes "Created")
    ∷ (202, codes "Accepted")
    ∷ (203, codes "Non-Authoritative Information")
    ∷ (204, codes "No Content")
    ∷ (205, codes "Reset Content")
    ∷ (206, codes "Partial Content")
    ∷ (207, codes "Multi-Status")
    ∷ (208, codes "Already Reported")
    ∷ (226, codes "IM Used")
    ∷ (300, codes "Multiple Choices")
    ∷ (301, codes "Moved Permanently")
    ∷ (302, codes "Found")
    ∷ (303, codes "See Other")
    ∷ (304, codes "Not Modified")
    ∷ (305, codes "Use Proxy")
    ∷ (307, codes "Temporary Redirect")
    ∷ (308, codes "Permanent Redirect")
    ∷ (400, codes "Bad Request")
    ∷ (401, codes "Unauthorized")
    ∷ (402, codes "Payment Required")
    ∷ (403, codes "Forbidden")
    ∷ (404, codes "Not Found")
    ∷ (405, codes "Method Not Allowed")
    ∷ (406, codes "Not Acceptable")
    ∷ (407, codes "Proxy Authentication Required")
    ∷ (408, codes "Request Timeout")
    ∷ (409, codes "Conflict")
    ∷ (410, codes "Gone")
    ∷ (411, codes "Length Required")
    ∷ (412, codes "Precondition Failed")
    ∷ (413, codes "Payload Too Large")
    ∷ (414, codes "URI Too Long")
    ∷ (415, codes "Unsupported Media Type")
    ∷ (416, codes "Range Not Satisfiable")
    ∷ (417, codes "Expectation Failed")
    ∷ (421, codes "Misdirected Request")
    ∷ (422, codes "Unprocessable Entity")
    ∷ (423, codes "Locked")
    ∷ (424, codes "Failed Dependency")
    ∷ (426, codes "Upgrade Required")
    ∷ (428, codes "Precondition Required")
    ∷ (429, codes "Too Many Requests")
    ∷ (431, codes "Request Header Fields Too Large")
    ∷ (451, codes "Unavailable For Legal Reasons")
    ∷ (500, codes "Internal Server Error")
    ∷ (501, codes "Not Implemented")
    ∷ (502, codes "Bad Gateway")
    ∷ (503, codes "Service Unavailable")
    ∷ (504, codes "Gateway Timeout")
    ∷ (505, codes "HTTP Version Not Supported")
    ∷ (506, codes "Variant Also Negotiates")
    ∷ (507, codes "Insufficient Storage")
    ∷ (508, codes "Loop Detected")
    ∷ (510, codes "Not Extended")
    ∷ (511, codes "Network Authentication Required")
    ∷ []

unfoldable pub http_status_to_string : ℕ → Text
http_status_to_string status = name_of status_map status

pub http_status_from_chars : Text → ℕ → ℕ
http_status_from_chars status size = code_of lower http_status_unknow status_map status size

pub http_status_from_string : Text → ℕ
http_status_from_string status = code_of lower http_status_unknow status_map status (length status)

abbrev reads_back : ℕ → Bool
reads_back s =
    text_eq (http_status_to_string s) (codes "UNKNOW")
    || http_status_from_string (http_status_to_string s) == s

round_trip_table : tests_below reads_back 512 ≡ true
unfolding tests_below http_status_from_string http_status_to_string name_of code_of status_map
    ncmp_eq lower text_eq
round_trip_table = refl

-- Every status that has a reason phrase is read back from it.
pub http_status_from_string-to_string :
    (status : ℕ)
    → status < 512
    → http_status_to_string status ≢ codes "UNKNOW"
    → http_status_from_string (http_status_to_string status) ≡ status
http_status_from_string-to_string status h k =
    let checked = tests_below→at reads_back 512 status h round_trip_table in
    elim (Bool-cases (text_eq (http_status_to_string status) (codes "UNKNOW"))) [
      | inl e ↦ absurd (k (text_eq→eq _ _ e))
      | inr e ↦ (==_iff _ status).0 (ground arith)
    ]

-- A text with no NUL is read, in any case, as the first status of the table whose phrase it
-- begins, and as the unknown status exactly if it begins no phrase.
pub http_status_from_string-FirstBegun :
    (text : Text)
    → NoNul text
    → FirstBegun lower http_status_unknow status_map text (http_status_from_string text)
unfolding http_status_from_string
http_status_from_string-FirstBegun text h =
    code_of-FirstBegun lower http_status_unknow status_map text h
