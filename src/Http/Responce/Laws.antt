-- ===== src/Http/Responce/Laws.antt =====
-- The status line and the head of a response.
use proj.Base.{
  ℕ, ◌/◌, ◌%◌, ◌^◌, ◌<◌, ◌≡◌, ◌⊎◌, inl, inr, refl, ap, ◌∙◌, [], ◌∷◌, ◌++◌, arith, lt→ltb, concat,
  drop,
}
use proj.Base.Text.{Text, codes, show, decimal, ncmp_eq, crlf}
use proj.Base.Numeral.{EndsNumber, atoi, atoi-show, show_int}
use proj.Http.Responce.{HttpResponce, Event, handle, execute, element_cb_version_res, to_string}
use proj.Http.Status.{http_status_to_string}
use proj.Http.Fields

-- The head of what `toString` prints, up to the status and what follows it.
abbrev behind_status : HttpResponce → Text
behind_status res =
    codes " "
    ++ concat
        (http_status_to_string res.status ∷ crlf ∷ Fields.print res.fields ∷ crlf ∷ res.body ∷ [])

version_back :
    (v len : ℕ) (rest : Text) (old : HttpResponce)
    → (v ≡ 0x10) ⊎ (v ≡ 0x11)
    → (element_cb_version_res old
        (codes "HTTP/" ++ (show (v / 16) ++ (codes "." ++ (show (v % 16) ++ rest))))
        len).version
      ≡ v
unfolding element_cb_version_res decimal ncmp_eq
version_back v len rest old (inl e) = rw e refl
version_back v len rest old (inr e) = rw e refl

-- In a response of the version 1.0 or 1.1 the status stands at the tenth byte.
status_there :
    (v : ℕ) (rest : Text)
    → (v ≡ 0x10) ⊎ (v ≡ 0x11)
    → drop 9
        (codes "HTTP/" ++ (show (v / 16) ++ (codes "." ++ (show (v % 16) ++ (codes " " ++ rest)))))
      ≡ rest
unfolding decimal
status_there v rest (inl e) = rw e refl
status_there v rest (inr e) = rw e refl

status_back :
    (status : ℕ) (rest : Text)
    → status < 2 ^ 31
    → EndsNumber rest
    → atoi (show_int status ++ rest) ≡ status
status_back status rest h e = rw (lt→ltb status (2 ^ 31) h) (atoi-show status rest (omega arith) e)

-- A machine that finds the version at the begin of what `toString` prints of a response and the
-- status code at its tenth byte sets the version and the status of that response, for the versions 1.0
-- and 1.1 and every status that is not negative.
pub execute-to_string :
    (res old : HttpResponce) (off : ℕ)
    → (res.version ≡ 0x10) ⊎ (res.version ≡ 0x11)
    → res.status < 2 ^ 31
    → let version = Event.http_version (to_string res) 8 in
      let status = Event.status_code (drop 9 (to_string res)) 3 in
      let (res', taken) = execute old (version ∷ status ∷ []) off in
      (res'.version ≡ res.version) × (res'.status ≡ res.status)
unfolding execute handle to_string
execute-to_string res old off v h = (
  version_back res.version 8 (codes " " ++ (show_int res.status ++ behind_status res)) old v,
  ap (λ t. atoi t) (status_there res.version (show_int res.status ++ behind_status res) v)
      ∙ status_back res.status (behind_status res) h refl,
)
