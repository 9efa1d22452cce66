-- ===== src/Log/Format/Expand.antt =====
-- The text that `LogFormatter::format` of src/log.cc prints for a pattern.
use proj.Base.{
  ℕ, ◌≡◌, refl, sym, ap, ◌∙◌, Bool-cases, inl, inr, Bool, false, List, [], ◌∷◌, ◌++◌, map, ◌==◌,
  if◌then◌else◌, length, concat, arith, append_assoc, append-nil,
}
use proj.Base.Text.{Text, codes}
use proj.Log.Level.{Level}
use proj.Log.Format.{
  LogEvent, format_item, Piece, push_text, item_of, item_of_char, construct, format,
  pattern_or_default, init_loop,
}
use proj.Log.Format.Pattern.{pieces, init-pieces}

-- Whether the last letter is a mark that no letter follows.
unfoldable pub dangles : Text → Bool
dangles [] = false
dangles (c ∷ []) = c == b'%'
dangles (c ∷ d ∷ rest) =
    let item = dangles rest in let text = dangles (d ∷ rest) in if c == b'%' then item else text

-- The text behind the last item, after the text `seen`.
unfoldable pub last_text : Text → Text → Text
last_text seen [] = seen
last_text seen (c ∷ []) = seen ++ c ∷ []
last_text seen (c ∷ d ∷ rest) =
    let item = last_text [] rest in
    let text = last_text (seen ++ c ∷ []) (d ∷ rest) in if c == b'%' then item else text

module _ (local_time : ℕ → Text) (lv : Level) (event : LogEvent) where
  -- The pattern with every mark and the letter behind it replaced by the item's text.
  unfoldable pub expand : Text → Text
  expand [] = []
  expand (c ∷ []) = c ∷ []
  expand (c ∷ d ∷ rest) =
      let item = format_item local_time (item_of_char d) lv event ++ expand rest in
      let text = c ∷ expand (d ∷ rest) in if c == b'%' then item else text

  abbrev render : List Piece → Text
  render ps = concat (map (λ it. format_item local_time it lv event) (map item_of ps))

  render-push_text : (str : Text) (ps : List Piece) → render (push_text str ps) ≡ str ++ render ps
  unfolding format_item
  render-push_text [] ps = refl
  render-push_text (c ∷ cs) ps = refl

  render-pieces :
      (seen rest : Text) → dangles rest ≡ false → render (pieces seen rest) ≡ seen ++ expand rest
  unfolding pieces expand dangles format_item
  render-pieces seen [] h = refl
  render-pieces seen (c ∷ []) h = rw h (append-nil (seen ++ c ∷ []))
  render-pieces seen (c ∷ d ∷ rest) h = elim (Bool-cases (c == b'%')) [
    | inl e ↦
        let ih = render-pieces [] rest (ground arith) in
        rw e (
          render-push_text seen (Piece.marked (d ∷ []) ∷ pieces [] rest)
          ∙ ap (λ t. seen ++ (format_item local_time (item_of_char d) lv event ++ t)) ih)
    | inr e ↦ rw e (
        render-pieces (seen ++ c ∷ []) (d ∷ rest) (ground arith)
        ∙ append_assoc seen (c ∷ []) (expand (d ∷ rest)))
  ]

  -- A formatter made of a pattern, or of the default pattern in place of an empty one, prints the
  -- pattern with every mark and the letter behind it replaced by the item's text, if the last
  -- letter is not a mark that is left over.
  pub format-expand :
      (p : Text)
      → dangles (pattern_or_default p) ≡ false
      → format local_time (construct p) lv event ≡ expand (pattern_or_default p)
  unfolding format construct
  format-expand p h =
      let q = pattern_or_default p in ap render (init-pieces q) ∙ render-pieces [] q h

  render-dangling :
      (seen body : Text)
      → dangles body ≡ false
      → render (pieces seen (body ++ b'%' ∷ []))
        ≡ seen ++ (expand body ++ (codes "<error>" ++ (last_text seen body ++ codes "%")))
  unfolding pieces expand dangles format_item last_text
  render-dangling seen [] h =
      render-push_text seen (Piece.marked [] ∷ Piece.literal (seen ++ b'%' ∷ []) ∷ [])
      ∙ ap (λ t. seen ++ (codes "<error>" ++ t)) (append-nil (seen ++ b'%' ∷ []))
  render-dangling seen (c ∷ []) h = rw h (
      render-dangling (seen ++ c ∷ []) [] refl
      ∙ append_assoc seen (c ∷ []) (codes "<error>" ++ ((seen ++ c ∷ []) ++ codes "%")))
  render-dangling seen (c ∷ d ∷ rest) h = elim (Bool-cases (c == b'%')) [
    | inl e ↦
        let ih = render-dangling [] rest (ground arith) in
        let item = format_item local_time (item_of_char d) lv event in
        rw e (
          render-push_text seen (Piece.marked (d ∷ []) ∷ pieces [] (rest ++ b'%' ∷ []))
          ∙ ap (λ t. seen ++ (item ++ t)) ih
          ∙ ap (λ t. seen ++ t)
              (sym (
                append_assoc item (expand rest)
                  (codes "<error>" ++ (last_text [] rest ++ codes "%")))))
    | inr e ↦ rw e (
        render-dangling (seen ++ c ∷ []) (d ∷ rest) (ground arith)
        ∙ append_assoc seen (c ∷ []) (
            expand (d ∷ rest)
            ++ (codes "<error>" ++ (last_text (seen ++ c ∷ []) (d ∷ rest) ++ codes "%"))))
  ]

  -- If a mark is left over behind a pattern, the error text stands for it, and the text behind the
  -- last item is printed a second time, with the mark.
  pub format_dangling :
      (body : Text)
      → dangles body ≡ false
      → format local_time (construct (body ++ codes "%")) lv event
        ≡ expand body ++ (codes "<error>" ++ (last_text [] body ++ codes "%"))
  unfolding format construct
  format_dangling body h =
      let nonempty : pattern_or_default (body ++ codes "%") ≡ body ++ codes "%" =
        elim body as (λ b. pattern_or_default (b ++ codes "%") ≡ b ++ codes "%") [
          | [] ↦ refl
          | c ∷ cs ↦ refl
        ] in
      ap (λ q. render (init_loop (length q) q 0 0)) nonempty
      ∙ ap render (init-pieces (body ++ codes "%"))
      ∙ render-dangling [] body h
