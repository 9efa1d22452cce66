-- ===== src/Log/Logger/Laws.antt =====
-- What `Logger::log`, `addAppender` and `delAppender` of src/log.cc do, as seen at the appenders.
use proj.Base.{
  ℕ, ◌≡◌, ◌≢◌, refl, sym, ap, ap₂, ◌∙◌, ◌⊎◌, inl, inr, Bool-cases, Option, none, some, List, [],
  ◌∷◌, ◌++◌, map, concat, ◌==◌, if◌then◌else◌, arith, append_assoc, append-nil, All,
}
use mathlib.Core.Path.{fun_ext}
use proj.Base.Text.{Text}
use proj.Log.Level.{Level, reaches}
use proj.Log.Format.{LogEvent, format}
use proj.Log.Appender.{Store, LogAppender, Kind, appender_format, append_stream}
use proj.Log.Logger.{Logger, log, log_loop, erase_first}

-- The appender with more text written to its file.
abbrev pub with_more : LogAppender → Text → LogAppender
with_more a str = record a { stream = append_stream a.stream str }

append_stream-append :
    (o : Option Text) (x y : Text) → append_stream (append_stream o x) y ≡ append_stream o (x ++ y)
append_stream-append none x y = refl
append_stream-append (some t) x y = ap (λ z. some z) (append_assoc t x y)

append_stream-nil : (o : Option Text) → o ≡ append_stream o []
append_stream-nil none = refl
append_stream-nil (some t) = ap (λ z. some z) (sym (append-nil t))

with_more-nil : (a : LogAppender) → a ≡ with_more a []
with_more-nil a = ap (λ o. record a { stream = o }) (append_stream-nil a.stream)

module _ (local_time : ℕ → Text) (lv : Level) (event : LogEvent) where
  -- What an appender makes of the event, if the level reaches its own.
  abbrev pub printed : LogAppender → Text
  printed a =
      if reaches lv a.level
      then elim a.formatter [ none ↦ [] | some f ↦ format local_time f lv event ]
      else []

  -- What of it goes to standard output, and what to the file.
  abbrev pub cout_text : LogAppender → Text
  cout_text a = elim a.kind [ Kind.stdout ↦ printed a | Kind.file ↦ [] ]

  abbrev pub file_text : LogAppender → Text
  file_text a = elim a.kind [ Kind.stdout ↦ [] | Kind.file ↦ printed a ]

  -- What the appender `a` at the address `addr` gets when the appenders at `ids` are called.
  abbrev pub share : ℕ → LogAppender → List ℕ → Text
  share addr a ids = concat (map (λ it. if addr == it then file_text a else []) ids)

  -- The store `t` is `s` after the appenders at `ids` got the event once for each time they occur.
  pub record Logged (ids : List ℕ) (s t : Store) : Type 0 where
    pub cout : t.cout ≡ s.cout ++ concat (map (λ k. cout_text (s.appenders k)) ids)
    pub files : (k : ℕ) → t.appenders k ≡ with_more (s.appenders k) (share k (s.appenders k) ids)
    pub next : t.next ≡ s.next

  abbrev once : ℕ → Store → Store
  once it s =
      if reaches lv (s.appenders it).level then appender_format local_time it lv event s else s

  Logged-nil : (s : Store) → Logged [] s s
  Logged-nil s = record {
    cout = sym (append-nil s.cout);
    files = λ k. ap (λ o. record (s.appenders k) { stream = o }) (append_stream-nil _);
    next = refl;
  }

  -- The text of one call.
  once-cout : (it : ℕ) (s : Store) → (once it s).cout ≡ s.cout ++ cout_text (s.appenders it)
  once-cout it s = ground (arith, append-nil s.cout)

  once-files :
      (it : ℕ) (s : Store) (k : ℕ)
      → (once it s).appenders k
        ≡ with_more (s.appenders k) (if k == it then file_text (s.appenders k) else [])
  once-files it s k = ground (arith, with_more-nil (s.appenders k))

  once-next : (it : ℕ) (s : Store) → (once it s).next ≡ s.next
  once-next it s = ground arith

  once-Logged : (it : ℕ) (s : Store) → Logged (it ∷ []) s (once it s)
  once-Logged it s = record {
    cout = once-cout it s ∙ ap (λ t. s.cout ++ t) (sym (append-nil (cout_text (s.appenders it))));
    files = λ k.
        once-files it s k
        ∙ ap (λ t. with_more (s.appenders k) t)
            (sym (append-nil (if k == it then file_text (s.appenders k) else [])));
    next = once-next it s;
  }

  -- The text of an appender does not depend on what is in its file.
  texts-once :
      (it : ℕ) (s : Store) (k : ℕ)
      → (cout_text ((once it s).appenders k) ≡ cout_text (s.appenders k))
        × (file_text ((once it s).appenders k) ≡ file_text (s.appenders k))
  texts-once it s k = (ap cout_text (once-files it s k), ap file_text (once-files it s k))

  log_loop-Logged : (ids : List ℕ) (s : Store) → Logged ids s (log_loop local_time ids lv event s)
  unfolding log_loop
  log_loop-Logged [] s = Logged-nil s
  log_loop-Logged (it ∷ ids) s =
      let ih = log_loop-Logged ids (once it s) in
      record {
        cout =
            ih.cout
            ∙ ap₂ (λ x y. x ++ concat (map y ids)) (once-cout it s)
                (fun_ext (λ k. (texts-once it s k).0))
            ∙ append_assoc s.cout (cout_text (s.appenders it))
                (concat (map (λ k. cout_text (s.appenders k)) ids));
        files = λ k.
            ih.files k
            ∙ ap₂ (λ a t. with_more a (concat (map (λ it. if k == it then t else []) ids)))
                (once-files it s k) (texts-once it s k).1
            ∙ ap (λ o. record (s.appenders k) { stream = o })
                (append_stream-append (s.appenders k).stream
                  (if k == it then file_text (s.appenders k) else [])
                  (share k (s.appenders k) ids));
        next = ih.next ∙ once-next it s;
      }

-- Logging gives the event the logger's name. If the level reaches the logger's, each appender whose
-- own level it reaches gets the formatted event, in the order in which the logger holds them and
-- once for each time it does: an appender of the standard output there, a file appender in its own
-- file. Otherwise, and for every other appender, nothing changes.
pub log-Logged :
    (local_time : ℕ → Text) (logger : Logger) (lv : Level) (event : LogEvent) (s : Store)
    → ((log local_time logger lv event s).0 ≡ record event { logger_name = logger.name })
      × Logged local_time lv
          (record event { logger_name = logger.name })
          (if reaches lv logger.level then logger.appenders else [])
          s
          (log local_time logger lv event s).1
unfolding log
log-Logged local_time logger lv event s =
    let named = record event { logger_name = logger.name } in
    elim (Bool-cases (reaches lv logger.level)) [
      | inl e ↦ rw e (refl, log_loop-Logged local_time lv named logger.appenders s)
      | inr e ↦ rw e (refl, Logged-nil local_time lv named s)
    ]

-- Deleting an appender that the logger does not hold changes nothing; otherwise the first of its
-- occurrences goes, and the others stay in their order.
pub erase_first_lem :
    (addr : ℕ) (xs : List ℕ)
    → (All (λ x. x ≢ addr) xs × (erase_first addr xs ≡ xs))
      ⊎ ((before after : List ℕ) × (xs ≡ before ++ addr ∷ after)
          × All (λ x. x ≢ addr) before
          × (erase_first addr xs ≡ before ++ after))
unfolding erase_first
erase_first_lem addr [] = inl (tt, refl)
erase_first_lem addr (x ∷ xs) = elim (Bool-cases (x == addr)) [
  | inl e ↦
      let same : x ≡ addr = ground arith in rw e (inr ([], xs, ap (λ y. y ∷ xs) same, tt, refl))
  | inr e ↦
      let other : x ≢ addr = ground arith in
      rw e (elim (erase_first_lem addr xs) [
        | inl (all, eq) ↦ inl ((other, all), ap (λ ys. x ∷ ys) eq)
        | inr (before, after, eq, all, erased) ↦
            inr (x ∷ before, after, ap (λ ys. x ∷ ys) eq, (other, all), ap (λ ys. x ∷ ys) erased)
      ])
]
