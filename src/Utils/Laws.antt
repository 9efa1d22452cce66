-- ===== src/Utils/Laws.antt =====
-- What the functions of src/utils.cc on texts answer.
use proj.Base.{
  ℕ, suc, ◌+◌, ◌-◌, ◌≤◌, ◌≡◌, ◌≢◌, refl, sym, ap, ◌∙◌, ◌⊎◌, inl, inr, true, false, none, some, [],
  ◌∷◌, ◌++◌, ltb, if◌then◌else◌, length, take, drop, arith, Option-cases, take_all, length-append,
  drop-append_past, length-drop, Bool-cases, ==_refl,
}
use mathlib.Core.Path.{subst}
use proj.Base.Text.{Text}
use proj.Log.Level.{Level, number, to_string}
use proj.Utils.{log_level_to_string, behind, find_from, substr, marker, lua_file_redefine}

-- The two functions that name a level agree on every level.
pub log_level_to_string-number :
    (level : Level) → log_level_to_string (number level) ≡ to_string level
unfolding log_level_to_string
log_level_to_string-number Level.unknow = refl
log_level_to_string-number Level.debug = refl
log_level_to_string-number Level.info = refl
log_level_to_string-number Level.warn = refl
log_level_to_string-number Level.error = refl
log_level_to_string-number Level.fatal = refl

behind-append : (xs s : Text) → behind xs (xs ++ s) ≡ some s
unfolding behind
behind-append [] s = refl
behind-append (x ∷ xs) s = rw (==_refl x) (behind-append xs s)

behind→append : (xs s rest : Text) → behind xs s ≡ some rest → s ≡ xs ++ rest
unfolding behind
behind→append [] s rest h = ground arith
behind→append (x ∷ xs) [] rest h = ground arith
behind→append (x ∷ xs) (y ∷ ys) rest h = ground (arith, behind→append xs ys rest)

-- The index found is where the needle stands.
find_from-some :
    (needle : Text) (i : ℕ) (s : Text) (k : ℕ)
    → find_from needle i s ≡ some k
    → (before : Text) × (rest : Text) × (s ≡ before ++ (needle ++ rest)) × (k ≡ i + length before)
unfolding find_from
find_from-some needle i [] k h = elim (Option-cases (behind needle [])) [
  | inl e ↦ absurd (ground arith)
  | inr (rest, e) ↦ ([], rest, behind→append needle [] rest e, ground arith)
]
find_from-some needle i (x ∷ xs) k h = elim (Option-cases (behind needle (x ∷ xs))) [
  | inl e ↦
      let later : find_from needle (suc i) xs ≡ some k = ground arith in
      let (before, rest, eq, at) = find_from-some needle (suc i) xs k later in
      (x ∷ before, rest, ap (λ t. x ∷ t) eq, omega arith)
  | inr (rest, e) ↦ ([], rest, behind→append needle (x ∷ xs) rest e, ground arith)
]

found_here :
    (needle : Text) (i : ℕ) (s rest : Text)
    → behind needle s ≡ some rest
    → find_from needle i s ≡ some i
unfolding find_from
found_here needle i [] rest e = ground arith
found_here needle i (x ∷ xs) rest e = ground arith

found_later :
    (needle : Text) (i x : ℕ) (s : Text)
    → behind needle (x ∷ s) ≡ none
    → find_from needle i (x ∷ s) ≡ find_from needle (suc i) s
unfolding find_from
found_later needle i x s e = ground arith

find_from-none :
    (needle : Text) (i : ℕ) (before rest : Text)
    → find_from needle i (before ++ (needle ++ rest)) ≢ none
find_from-none needle i [] rest h =
    ground (arith, found_here needle i (needle ++ rest) rest (behind-append needle rest))
find_from-none needle i (x ∷ before) rest h =
    let s = before ++ (needle ++ rest) in
    elim (Option-cases (behind needle (x ∷ s))) [
      | inl e ↦ find_from-none needle (suc i) before rest (sym (found_later needle i x s e) ∙ h)
      | inr (r, e) ↦ absurd (ground (arith, found_here needle i (x ∷ s) r e))
    ]

-- The needle stands nowhere before the index found.
tail_of : (x y : ℕ) (s t : Text) → ◌≡◌ {A = Text} (x ∷ s) (y ∷ t) → s ≡ t
tail_of x y s t e = cc

find_from-first :
    (needle : Text) (i : ℕ) (s : Text) (k : ℕ) (b r : Text)
    → find_from needle i s ≡ some k
    → s ≡ b ++ (needle ++ r)
    → k ≤ i + length b
find_from-first needle i s k [] r h e =
    let here : find_from needle i s ≡ some i =
      found_here needle i s r (ap (λ t. behind needle t) e ∙ behind-append needle r) in
    ground (arith, here)
find_from-first needle i [] k (y ∷ b) r h e = cc
find_from-first needle i (x ∷ s) k (y ∷ b) r h e = elim (Option-cases (behind needle (x ∷ s))) [
  | inl none_here ↦
      let later =
        find_from-first needle (suc i) s k b r (sym (found_later needle i x s none_here) ∙ h)
          (tail_of x y s (b ++ (needle ++ r)) e) in
      omega (arith, later)
  | inr (rest, here) ↦ ground (arith, found_here needle i (x ∷ s) rest here)
]

drop-behind : (a b c : Text) → drop (length a + length b) (a ++ (b ++ c)) ≡ c
drop-behind a b c =
    drop-append_past (length a + length b) a (b ++ c) (omega arith)
    ∙ drop-append_past (length a + length b - length a) b c (omega arith)
    ∙ ap (λ k. drop k c) {y = 0} (omega arith)

redefine_found :
    (before rest : Text)
    → substr
        (before ++ (marker ++ rest))
        (length before + 6)
        (length (before ++ (marker ++ rest)) - (length before + 6))
      ≡ some rest
redefine_found before rest =
    let s = before ++ (marker ++ rest) in
    let size : length s ≡ length before + (6 + length rest) =
      omega (arith, length-append before (marker ++ rest), length-append marker rest) in
    let inside : ltb (length s) (length before + 6) ≡ false = ground arith in
    rw inside (
      ap (λ t. some (take (length s - (length before + 6)) t)) (drop-behind before marker rest)
      ∙ ap (λ t. some t) (take_all (length s - (length before + 6)) rest (omega arith)))

-- A name that has the marker `l-src/` becomes what follows its first place, before which it has no
-- other; of any other name the first five bytes are cut off, and one of fewer than five makes the
-- function throw.
pub lua_file_redefine_lem :
    (filename : Text)
    → ((before : Text) × (rest : Text) × (filename ≡ before ++ (marker ++ rest))
        × ((b r : Text) → filename ≡ b ++ (marker ++ r) → length before ≤ length b)
        × (lua_file_redefine filename ≡ some rest))
      ⊎ (((before rest : Text) → filename ≢ before ++ (marker ++ rest))
          × (lua_file_redefine filename
              ≡ (if ltb (length filename) 5 then none else some (drop 5 filename))))
unfolding lua_file_redefine
lua_file_redefine_lem filename = elim (Option-cases (find_from marker 0 filename)) [
  | inl e ↦ inr (
    (λ before rest eq.
        find_from-none marker 0 before rest (subst (λ t. find_from marker 0 t ≡ none) eq e)),
    rw (e, lua_file_redefine) (cut (Bool-cases (ltb (length filename) 5))),
  )
  | inr (k, e) ↦
      let (before, rest, eq, at) = find_from-some marker 0 filename k e in
      let pos : k + 6 ≡ length before + 6 = omega arith in
      inl (
        before,
        rest,
        eq,
        (λ b r same. omega (arith, at, find_from-first marker 0 filename k b r e same)),
        rw (e, lua_file_redefine)
            ((λ j. substr (eq j) (pos j) (length (eq j) - (pos j))) ∙ redefine_found before rest),
      )
]
  where
    cut :
        (ltb (length filename) 5 ≡ true) ⊎ (ltb (length filename) 5 ≡ false)
        → substr filename 5 (length filename - 5)
          ≡ (if ltb (length filename) 5 then none else some (drop 5 filename))
    cut (inl e) = rw e refl
    cut (inr e) = rw e (
        ap (λ t. some t)
          (take_all (length filename - 5) (drop 5 filename)
            (omega (arith, length-drop 5 filename))))
