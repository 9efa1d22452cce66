-- ===== src/Address/UnixLaws.antt =====
-- What the constructor of `UnixAddress` of src/address.cc promises.
use proj.Base.{
  suc, ◌+◌, ◌%◌, ◌^◌, ◌≤◌, ◌<◌, ◌≡◌, refl, ap, ◌∙◌, none, some, [], ◌∷◌, ◌++◌, if◌then◌else◌, ltb,
  replicate, length, take, drop, arith, append_assoc, Bool-cases, inl, inr, length-append, ◌⊎◌,
  take_all, ltb→lt, ◌==◌,
}
use proj.Base.Memory.{Memory, poke, length-poke, drop-take_append}
use proj.Base.Text.{Text, codes, c_str}
use proj.Swap.{Endian, image, length-image}
use proj.Address.{af_unix}
use proj.Address.Unix.{UnixAddress, construct, insert, max_path, size}

c_str-end : (path rest : Text) → c_str (path ++ 0 ∷ rest) ≡ c_str path
c_str-end [] rest = refl
c_str-end (x ∷ xs) rest = ap (λ (t : Text). if x == 0 then [] else x ∷ t) (c_str-end xs rest)

module _ (host : Endian) where
  abbrev zeroed : Memory
  zeroed = poke 0 (image host 2 af_unix) (replicate size 0)

  length-zeroed : length zeroed ≡ size
  length-zeroed =
      length-poke 0 (image host 2 af_unix) (replicate size 0)
        (omega (arith, length-image host 2 af_unix))

  -- The path is shown from where it was stored, up to a NUL that was stored behind it.
  shown :
      (path : Text)
      → length path ≤ max_path
      → c_str (drop 2 (poke 2 (path ++ 0 ∷ []) zeroed)) ≡ c_str path
  shown path h =
      let bytes = path ++ 0 ∷ [] in
      ap c_str (
        drop-take_append 2 zeroed (bytes ++ drop (2 + length bytes) zeroed)
          (omega (arith, length-zeroed))
        ∙ append_assoc path (0 ∷ []) (drop (2 + length bytes) zeroed))
      ∙ c_str-end path (drop (2 + length bytes) zeroed)

  no_path : c_str (drop 2 (poke 2 [] zeroed)) ≡ []
  no_path = by_family (image host 2 af_unix) (length-image host 2 af_unix)
    where
      by_family :
          (fam : Memory)
          → length fam ≡ 2
          → c_str (drop 2 (poke 2 [] (poke 0 fam (replicate size 0)))) ≡ []
      by_family [] e = absurd (omega arith)
      by_family (a ∷ []) e = absurd (omega arith)
      by_family (a ∷ b ∷ []) e = refl
      by_family (a ∷ b ∷ c ∷ r) e = absurd (omega arith)

  -- A path of more than 107 bytes is refused by a throw. Any other gives an object of 110 bytes whose
  -- length is within them, and whose `toString` shows the path up to its first NUL.
  pub unix_construct_lem :
      (path : Text)
      → ((max_path < length path) × (construct host path ≡ none))
        ⊎ (a : UnixAddress) × (construct host path ≡ some a)
          × (length path ≤ max_path)
          × (length a.m_addr ≡ size)
          × (a.m_length ≤ size)
          × (insert a ≡ codes "[file:" ++ c_str path ++ codes "]")
  unfolding construct insert
  unix_construct_lem [] = inr (
    record { m_addr = poke 2 [] zeroed; m_length = 2 },
    refl,
    omega arith,
    length-poke 2 [] zeroed (omega (arith, length-zeroed)) ∙ length-zeroed,
    omega arith,
    ap (λ t. codes "[file:" ++ t ++ codes "]") no_path,
  )
  unix_construct_lem (x ∷ xs) = elim (Bool-cases (ltb max_path (suc (length xs)))) [
    | inl long ↦ inl (ltb→lt max_path (suc (length xs)) long, rw long refl)
    | inr short ↦
        let path : Text = x ∷ xs in
        let bytes = path ++ 0 ∷ [] in
        let fits : length path ≤ max_path = ground arith in
        let whole : take ((length path + 1) % 2 ^ 32) bytes ≡ bytes =
          take_all ((length path + 1) % 2 ^ 32) bytes
            (omega (arith, length-append path (0 ∷ []))) in
        inr (
          record { m_addr = poke 2 bytes zeroed; m_length = (length path + 1) % 2 ^ 32 + 2 },
          rw (short, whole) refl,
          fits,
          length-poke 2 bytes zeroed (omega (arith, length-zeroed, length-append path (0 ∷ [])))
              ∙ length-zeroed,
          omega arith,
          ap (λ t. codes "[file:" ++ t ++ codes "]") (shown path fits),
        )
  ]
