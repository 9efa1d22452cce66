-- ===== src/Log/Format/Pattern.antt =====
-- What `LogFormatter::init` and `LogFormatter::format` of src/log.cc make of a pattern, read as a
-- text with marks.
use proj.Base.{
  ℕ, zero, suc, ◌+◌, ◌-◌, ◌≤◌, ◌≡◌, refl, sym, ap, ◌∙◌, Bool-cases, inl, inr, true, false, List, [],
  ◌∷◌, ◌++◌, ◌==◌, if◌then◌else◌, ltb, take, drop, length, arith, append_assoc, take_all,
  drop-append_past, take-append, length-append,
}
use proj.Base.Text.{Text}
use proj.Log.Format.{Piece, substr, is_mark, push_text, init_step, init_loop}

-- The pieces of a pattern by its letters: `seen` is the text since the last item.
unfoldable pub pieces : Text → Text → List Piece
pieces seen [] = Piece.literal seen ∷ []
pieces seen (c ∷ []) =
    if c == b'%'
    then push_text seen (Piece.marked [] ∷ Piece.literal (seen ++ c ∷ []) ∷ [])
    else Piece.literal (seen ++ c ∷ []) ∷ []
pieces seen (c ∷ d ∷ rest) =
    let item = push_text seen (Piece.marked (d ∷ []) ∷ pieces [] rest) in
    let text = pieces (seen ++ c ∷ []) (d ∷ rest) in if c == b'%' then item else text

push_text-append :
    (str : Text) (ps qs : List Piece) → push_text str ps ++ qs ≡ push_text str (ps ++ qs)
push_text-append [] ps qs = refl
push_text-append (c ∷ cs) ps qs = refl

-- The text that a round pushes is the text since the last item.
substr_seen :
    (done seen rest : Text) (n : ℕ)
    → n ≡ length done + length seen
    → substr (done ++ (seen ++ rest)) (length done) (n - length done) ≡ seen
substr_seen done seen rest n e =
    ap (λ t. take (n - length done) t)
      (drop-append_past (length done) done (seen ++ rest) (omega arith)
        ∙ ap (λ k. drop k (seen ++ rest)) {y = 0} (omega arith))
    ∙ take-append (n - length done) seen rest (omega arith)
    ∙ take_all (n - length done) seen (omega arith)

drop_seen :
    (done seen rest : Text) (n k : ℕ)
    → n ≡ length done + length seen + k
    → drop n (done ++ (seen ++ rest)) ≡ drop k rest
drop_seen done seen rest n k e =
    drop-append_past n done (seen ++ rest) (omega arith)
    ∙ drop-append_past (n - length done) seen rest (omega arith)
    ∙ ap (λ j. drop j rest) (omega arith)

loop_round :
    (fuel : ℕ) (p : Text) (i f : ℕ) (out : List Piece) (j g : ℕ)
    → ltb i (length p) ≡ true
    → init_step p i f ≡ (out, j, g)
    → init_loop (suc fuel) p i f ≡ out ++ init_loop fuel p j g
unfolding init_loop
loop_round fuel p i f out j g h e = rw h (ap (λ s. s.0 ++ init_loop fuel p s.1 s.2) e)

loop_end :
    (fuel : ℕ) (p : Text) (i f : ℕ)
    → ltb i (length p) ≡ false
    → init_loop fuel p i f ≡ Piece.literal (substr p f (length p - f)) ∷ []
unfolding init_loop
loop_end zero p i f h = refl
loop_end (suc fuel) p i f h = rw h refl

regroup :
    (done seen : Text) (c : ℕ) (rest : Text)
    → done ++ (seen ++ (c ∷ rest)) ≡ done ++ ((seen ++ c ∷ []) ++ rest)
regroup done seen c rest = ap (λ t. done ++ t) (sym (append_assoc seen (c ∷ []) rest))

-- Where the loop stands: the pattern's part before `f`, that from `f` to `i`, and that from `i` on.
record Stands (p : Text) (i f : ℕ) (done seen rest : Text) : Type 0 where
  parts : p ≡ done ++ (seen ++ rest)
  at : i ≡ length done + length seen
  from : f ≡ length done

Stands-substr :
    (p : Text) (i f : ℕ) (done seen rest : Text)
    → Stands p i f done seen rest
    → substr p f (i - f) ≡ seen
Stands-substr p i f done seen rest s =
    ap (λ t. substr t f (i - f)) s.parts
    ∙ ap (λ k. substr (done ++ (seen ++ rest)) k (i - k)) s.from
    ∙ substr_seen done seen rest i s.at

Stands-drop :
    (p : Text) (i f : ℕ) (done seen rest : Text) (k : ℕ)
    → Stands p i f done seen rest
    → drop (i + k) p ≡ drop k rest
Stands-drop p i f done seen rest k s =
    ap (λ t. drop (i + k) t) s.parts ∙ drop_seen done seen rest (i + k) k (omega (arith, s.at))

Stands-length :
    (p : Text) (i f : ℕ) (done seen rest : Text)
    → Stands p i f done seen rest
    → length p ≡ i + length rest
Stands-length p i f done seen rest s =
    ap length s.parts
    ∙ omega (arith, s.at, length-append done (seen ++ rest), length-append seen rest)

-- One more letter of text.
Stands-text :
    (p : Text) (i f : ℕ) (done seen : Text) (c : ℕ) (rest : Text)
    → Stands p i f done seen (c ∷ rest)
    → Stands p (i + 1) f done (seen ++ c ∷ []) rest
Stands-text p i f done seen c rest s = record {
  parts = s.parts ∙ regroup done seen c rest;
  at = omega (arith, s.at, length-append seen (c ∷ []));
  from = s.from;
}

-- One item more.
Stands-item :
    (p : Text) (i f : ℕ) (done seen : Text) (c d : ℕ) (rest : Text)
    → Stands p i f done seen (c ∷ d ∷ rest)
    → Stands p (i + 2) (i + 2) (done ++ (seen ++ c ∷ d ∷ [])) [] rest
Stands-item p i f done seen c d rest s = record {
  parts =
      s.parts
      ∙ ap (λ t. done ++ t) (sym (append_assoc seen (c ∷ d ∷ []) rest))
      ∙ sym (append_assoc done (seen ++ c ∷ d ∷ []) rest);
  at =
      omega (arith, s.at, length-append done (seen ++ c ∷ d ∷ []), length-append seen (c ∷ d ∷ []));
  from =
      omega (arith, s.at, length-append done (seen ++ c ∷ d ∷ []), length-append seen (c ∷ d ∷ []));
}

module _ (p : Text) (i f : ℕ) (done seen : Text) (c : ℕ) where
  step_text :
      (rest : Text)
      → Stands p i f done seen (c ∷ rest)
      → (c == b'%') ≡ false
      → (ltb i (length p) ≡ true) × (init_step p i f ≡ ([], i + 1, f))
  step_text rest s e =
      let len = Stands-length p i f done seen (c ∷ rest) s in
      let here : is_mark (drop i p) ≡ false =
        ap (λ k. is_mark (drop k p)) {x = i} {y = i + 0} (omega arith)
        ∙ ap is_mark (Stands-drop p i f done seen (c ∷ rest) 0 s)
        ∙ e in
      (ground arith, rw here refl)

  step_last :
      Stands p i f done seen (c ∷ [])
      → (c == b'%') ≡ true
      → (ltb i (length p) ≡ true)
        × (init_step p i f ≡ (push_text seen (Piece.marked [] ∷ []), i + 1, f))
  step_last s e =
      let len = Stands-length p i f done seen (c ∷ []) s in
      let here : is_mark (drop i p) ≡ true =
        ap (λ k. is_mark (drop k p)) {x = i} {y = i + 0} (omega arith)
        ∙ ap is_mark (Stands-drop p i f done seen (c ∷ []) 0 s)
        ∙ e in
      let last : ltb (i + 1) (length p) ≡ false = ground arith in
      (ground arith, rw (here, last, Stands-substr p i f done seen (c ∷ []) s) refl)

  step_item :
      (d : ℕ) (rest : Text)
      → Stands p i f done seen (c ∷ d ∷ rest)
      → (c == b'%') ≡ true
      → (ltb i (length p) ≡ true)
        × (init_step p i f ≡ (push_text seen (Piece.marked (d ∷ []) ∷ []), i + 2, i + 2))
  step_item d rest s e =
      let len = Stands-length p i f done seen (c ∷ d ∷ rest) s in
      let here : is_mark (drop i p) ≡ true =
        ap (λ k. is_mark (drop k p)) {x = i} {y = i + 0} (omega arith)
        ∙ ap is_mark (Stands-drop p i f done seen (c ∷ d ∷ rest) 0 s)
        ∙ e in
      let more : ltb (i + 1) (length p) ≡ true = ground arith in
      let name : substr p (i + 1) 1 ≡ d ∷ [] =
        ap (λ t. take 1 t) (Stands-drop p i f done seen (c ∷ d ∷ rest) 1 s) in
      (ground arith, rw (here, more, Stands-substr p i f done seen (c ∷ d ∷ rest) s, name) refl)

-- The loop over positions makes the pieces of the letters still ahead of it.
init_loop-pieces :
    (fuel : ℕ) (p : Text) (i f : ℕ) (done seen rest : Text)
    → Stands p i f done seen rest
    → length rest ≤ fuel
    → init_loop fuel p i f ≡ pieces seen rest
unfolding pieces
init_loop-pieces fuel p i f done seen [] s h =
    let len : length p ≡ i + 0 = Stands-length p i f done seen [] s in
    loop_end fuel p i f (ground arith)
    ∙ ap (λ t. Piece.literal t ∷ [])
        (ap (λ n. substr p f (n - f)) (len ∙ omega arith) ∙ Stands-substr p i f done seen [] s)
init_loop-pieces zero p i f done seen (c ∷ rest) s h = absurd (omega arith)
init_loop-pieces (suc fuel) p i f done seen (c ∷ []) s h = elim (Bool-cases (c == b'%')) [
  | inl e ↦
      let (go, step) = step_last p i f done seen c s e in
      let rest =
        init_loop-pieces fuel p (i + 1) f done (seen ++ c ∷ []) []
          (Stands-text p i f done seen c [] s) (omega arith) in
      rw e (
        loop_round fuel p i f (push_text seen (Piece.marked [] ∷ [])) (i + 1) f go step
        ∙ ap (λ t. push_text seen (Piece.marked [] ∷ []) ++ t) rest
        ∙ push_text-append seen (Piece.marked [] ∷ []) (Piece.literal (seen ++ c ∷ []) ∷ []))
  | inr e ↦
      let (go, step) = step_text p i f done seen c [] s e in
      rw e (
        loop_round fuel p i f [] (i + 1) f go step
        ∙ init_loop-pieces fuel p (i + 1) f done (seen ++ c ∷ []) []
            (Stands-text p i f done seen c [] s) (omega arith))
]
init_loop-pieces (suc fuel) p i f done seen (c ∷ d ∷ rest) s h = elim (Bool-cases (c == b'%')) [
  | inl e ↦
      let (go, step) = step_item p i f done seen c d rest s e in
      let more =
        init_loop-pieces fuel p (i + 2) (i + 2) (done ++ (seen ++ c ∷ d ∷ [])) [] rest
          (Stands-item p i f done seen c d rest s) (omega arith) in
      rw e (
        loop_round fuel p i f (push_text seen (Piece.marked (d ∷ []) ∷ [])) (i + 2) (i + 2) go step
        ∙ ap (λ t. push_text seen (Piece.marked (d ∷ []) ∷ []) ++ t) more
        ∙ push_text-append seen (Piece.marked (d ∷ []) ∷ []) (pieces [] rest))
  | inr e ↦
      let (go, step) = step_text p i f done seen c (d ∷ rest) s e in
      rw e (
        loop_round fuel p i f [] (i + 1) f go step
        ∙ init_loop-pieces fuel p (i + 1) f done (seen ++ c ∷ []) (d ∷ rest)
            (Stands-text p i f done seen c (d ∷ rest) s) (omega arith))
]

pub init-pieces : (p : Text) → init_loop (length p) p 0 0 ≡ pieces [] p
init-pieces p =
    init_loop-pieces (length p) p 0 0 [] [] p (record { parts = refl; at = refl; from = refl })
      (omega arith)
