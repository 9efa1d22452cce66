-- ===== src/Http/Table.antt =====
-- The searches through an X-macro table of src/http/http_macro.h, a chain of `if`s in the order
-- of the rows, and what they find.
use mathlib.Core.List.{map}
use proj.Base.{
  ℕ, ◌≡◌, ◌≢◌, refl, ap, ◌⊎◌, inl, inr, true, List, [], ◌∷◌, ◌++◌, arith, ◌==◌, if◌then◌else◌, All,
  length, Bool-cases,
}
use proj.Base.Text.{Text, codes, ncmp_eq}

abbrev pub Table : Type 0
Table = List (ℕ × Text)

-- `if(num == (int)code) return #name;` for each row, and then `return "UNKNOW";`.
unfoldable pub name_of : Table → ℕ → Text
name_of [] code = codes "UNKNOW"
name_of ((num, name) ∷ rows) code = if num == code then name else name_of rows code

-- `if(strncmp(text, #name, length) == 0) return num;` for each row, and then the default.
unfoldable pub code_of : (ℕ → ℕ) → ℕ → Table → Text → ℕ → ℕ
code_of fold unknow [] text length = unknow
code_of fold unknow ((num, name) ∷ rows) text length =
    if ncmp_eq fold text name length then num else code_of fold unknow rows text length

abbrev pub NoNul : Text → Type 0
NoNul = All (λ x. x ≢ 0)

-- `a` begins `b`, up to what `fold` makes the same.
abbrev pub Begins : (ℕ → ℕ) → Text → Text → Type 0
Begins fold a b = (t : Text) × (map fold a ++ t ≡ map fold b)

ncmp_eq→Begins :
    (fold : ℕ → ℕ) (a b : Text) → NoNul a → ncmp_eq fold a b (length a) ≡ true → Begins fold a b
unfolding ncmp_eq
ncmp_eq→Begins fold [] b h e = (map fold b, refl)
ncmp_eq→Begins fold (x ∷ xs) [] h e = absurd (ground (arith, h.0))
ncmp_eq→Begins fold (x ∷ xs) (y ∷ ys) h e =
    let same : fold x ≡ fold y = ground arith in
    let (t, p) = ncmp_eq→Begins fold xs ys h.1 (ground (arith, h.0)) in (t, cc)

Begins→ncmp_eq :
    (fold : ℕ → ℕ) (a b : Text) → NoNul a → Begins fold a b → ncmp_eq fold a b (length a) ≡ true
unfolding ncmp_eq
Begins→ncmp_eq fold [] b h p = refl
Begins→ncmp_eq fold (x ∷ xs) [] h (t, p) = cc
Begins→ncmp_eq fold (x ∷ xs) (y ∷ ys) h (t, p) =
    let ih = Begins→ncmp_eq fold xs ys h.1 (t, cc) in ground (arith, h.0, p)

-- What a search by prefix has to find: the first row whose name the text begins, or that no name
-- is begun by the text.
abbrev pub FirstBegun : (ℕ → ℕ) → ℕ → Table → Text → ℕ → Type 0
FirstBegun fold unknow rows text code =
    ((code ≡ unknow) × All (λ r. ¬ Begins fold text r.1) rows)
    ⊎ ((before : Table) × (name : Text) × (after : Table) × (rows ≡ before ++ (code, name) ∷ after)
        × Begins fold text name
        × All (λ r. ¬ Begins fold text r.1) before)

pub code_of-FirstBegun :
    (fold : ℕ → ℕ) (unknow : ℕ) (rows : Table) (text : Text)
    → NoNul text
    → FirstBegun fold unknow rows text (code_of fold unknow rows text (length text))
unfolding code_of
code_of-FirstBegun fold unknow [] text h = inl (refl, tt)
code_of-FirstBegun fold unknow ((num, name) ∷ rows) text h =
    elim (Bool-cases (ncmp_eq fold text name (length text))) [
      | inl e ↦ rw e (inr ([], name, rows, refl, ncmp_eq→Begins fold text name h e, tt))
      | inr e ↦
          let differs : ¬ Begins fold text name = λ p. cc (Begins→ncmp_eq fold text name h p) in
          rw e (elim (code_of-FirstBegun fold unknow rows text h) [
            | inl (u, none) ↦ inl (u, (differs, none))
            | inr (before, n, after, eq, p, none) ↦
                inr
                  ((num, name) ∷ before, n, after, ap (λ z. (num, name) ∷ z) eq, p, (differs, none))
          ])
    ]
