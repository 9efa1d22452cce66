-- ===== src/Address/Ipv6Laws.antt =====
-- What the functions on prefixes of `IPv6Address` of src/address.cc do to the object.
use Prim.Native.Nat.{bit_or, bit_and}
use proj.Base.{
  ℕ, zero, suc, ◌+◌, ◌-◌, ◌/◌, ◌%◌, ◌*◌, ◌^◌, ◌≤◌, ◌<◌, ◌≡◌, refl, sym, ap, ap₂, ◌∙◌, [], ◌∷◌, ◌++◌,
  ltb, replicate, length, length-take, length-drop, drop-replicate, concat, take-append-drop, arith,
  false, take, drop, append_assoc,
}
use proj.Base.Memory.{
  Memory, peek, poke, take-poke, drop-poke, length-poke, drop-take_append, peek-poke_before,
}
use proj.Swap.{Endian, image, length-image}
use proj.Address.{Made}
use proj.Address.Ipv6.{
  set_word, get_word, bits_of, fill, get_broadcast, get_network_address, get_subnetmask, size,
  empty,
}

-- `n` words with both bytes `x`.
abbrev pub words : ℕ → ℕ → Memory
words n x = concat (replicate n (x ∷ x ∷ []))

image_ones : (host : Endian) → image host 2 65535 ≡ 255 ∷ 255 ∷ []
unfolding image
image_ones Endian.little = refl
image_ones Endian.big = refl

image_zeros : (host : Endian) → image host 2 0 ≡ 0 ∷ 0 ∷ []
unfolding image
image_zeros Endian.little = refl
image_zeros Endian.big = refl

module _ (host : Endian) where
  fill_lem :
      (v x n i : ℕ) (m : Memory)
      → image host 2 v ≡ x ∷ x ∷ []
      → 8 + 2 * i + 2 * n ≤ length m
      → fill host v n i m ≡ take (8 + 2 * i) m ++ (words n x ++ drop (8 + 2 * i + 2 * n) m)
  unfolding fill
  fill_lem v x zero i m e h =
      sym (take-append-drop (8 + 2 * i) m)
      ∙ ap (λ k. take (8 + 2 * i) m ++ drop k m) {y = 8 + 2 * i + 2 * 0} (omega arith)
  fill_lem v x (suc n) i m e h =
      let off = 8 + 2 * i in
      let two : Memory = x ∷ x ∷ [] in
      let next : 8 + 2 * (i + 1) ≡ off + 2 = omega arith in
      let end : 8 + 2 * (i + 1) + 2 * n ≡ off + 2 * suc n = omega arith in
      rw e (
        fill_lem v x n (i + 1) (poke off two m) e (omega (arith, length-poke off two m))
        ∙ ap₂ (λ (k l : ℕ). take k (poke off two m) ++ (words n x ++ drop l (poke off two m))) next
            end
        ∙ ap₂ (λ (t r : Memory). t ++ (words n x ++ r)) (take-poke off two m (omega arith))
            (drop-poke (off + 2 * suc n) off two m (omega arith) (omega arith))
        ∙ append_assoc (take off m) two (words n x ++ drop (off + 2 * suc n) m))

  -- One word stored and the words behind it filled.
  store_fill :
      (v x mid w : ℕ) (m : Memory)
      → image host 2 v ≡ x ∷ x ∷ []
      → length m ≡ size
      → mid < 8
      → fill host v (8 - (mid + 1)) (mid + 1) (set_word host mid w m)
        ≡ take (8 + 2 * mid) m ++ (image host 2 w ++ (words (7 - mid) x ++ drop 24 m))
  store_fill v x mid w m e h below =
      let off = 8 + 2 * mid in
      let two = image host 2 w in
      let l = length-image host 2 w in
      let start : 8 + 2 * (mid + 1) ≡ off + length two = omega arith in
      let count : 8 - (mid + 1) ≡ 7 - mid = omega arith in
      let end : 8 + 2 * (mid + 1) + 2 * (8 - (mid + 1)) ≡ 24 = omega arith in
      fill_lem v x (8 - (mid + 1)) (mid + 1) (poke off two m) e
        (omega (arith, length-poke off two m))
      ∙ (λ j.
          take (start j) (poke off two m) ++ (words (count j) x ++ drop (end j) (poke off two m)))
      ∙ ap₂ (λ (t r : Memory). t ++ (words (7 - mid) x ++ r)) (take-poke off two m (omega arith))
          (drop-poke 24 off two m (omega arith) (omega arith))
      ∙ append_assoc (take off m) two (words (7 - mid) x ++ drop 24 m)

  -- For a prefix below 128, the broadcast address and the network of an IPv6 address keep the words before the one the prefix
  -- ends in, and the port, the flow information and the scope; in that word they set, or clear, the
  -- lowest bits of the host's order, as many as the prefix has in the word; the words behind it become
  -- all ones, or all zeros.
  pub ipv6_subnet_lem :
      (prefix : ℕ) (m : Memory)
      → length m ≡ size
      → prefix < 128
      → let mid = prefix / 16 in
        let word = get_word host mid m in
        let around = λ (w x : ℕ).
          Made.made
            (take (8 + 2 * mid) m ++ (image host 2 w ++ (words (7 - mid) x ++ drop 24 m))) in
        (get_broadcast host prefix m ≡ around (bit_or word (2 ^ (prefix % 16) - 1)) 255)
        × (get_network_address host prefix m
            ≡ around (bit_and word (65535 - (2 ^ (prefix % 16) - 1))) 0)
  unfolding get_broadcast get_network_address
  ipv6_subnet_lem prefix m l h =
      let over : ltb 128 prefix ≡ false = ground arith in
      let mid = prefix / 16 in
      rw over (
        ap Made.made (
            store_fill 65535 255 mid (bit_or (get_word host mid m) (bits_of prefix)) m
              (image_ones host) l (omega arith)),
        ap Made.made (
            store_fill 0 0 mid (bit_and (get_word host mid m) (65535 - bits_of prefix)) m
              (image_zeros host) l (omega arith)),
      )

  mask_of :
      (mid w : ℕ) (port : Memory)
      → mid ≤ 8
      → length port ≡ 2
      → fill host 65535 mid 0 (set_word host mid w (poke 2 port (replicate 28 0)))
        ≡ (0 ∷ 0 ∷ port)
          ++ (replicate 4 0 ++ (words mid 255 ++ (image host 2 w ++ replicate (18 - 2 * mid) 0)))
  mask_of mid w [] h e = absurd (omega arith)
  mask_of mid w (a ∷ []) h e = absurd (omega arith)
  mask_of mid w (a ∷ b ∷ c ∷ r) h e = absurd (omega arith)
  mask_of mid w (a ∷ b ∷ []) h e =
      let sock6 = poke 2 (a ∷ b ∷ []) (replicate 28 0) in
      let off = 8 + 2 * mid in
      let two = image host 2 w in
      let l = length-image host 2 w in
      let end : off + length two ≡ 10 + 2 * mid = omega arith in
      fill_lem 65535 255 mid 0 (poke off two sock6) (image_ones host)
        (omega (arith, length-poke off two sock6))
      ∙ ap₂ (λ (t r : Memory). t ++ (words mid 255 ++ r))
          (peek-poke_before 0 8 off two sock6 (omega arith) (omega arith))
          (drop-take_append off sock6 (two ++ drop (off + length two) sock6) (omega arith)
            ∙ ap (λ k. two ++ drop k sock6) end
            ∙ ap (λ r. two ++ r)
                (drop-poke (10 + 2 * mid) 2 (a ∷ b ∷ []) (replicate 28 0) (omega arith)
                    (omega arith)
                  ∙ drop-replicate (10 + 2 * mid) 28 0
                  ∙ ap (λ k. replicate k 0) {y = 18 - 2 * mid} (omega arith)))

  -- For a prefix of at most 128, the mask has a zero family and the object's port; the words before
  -- the one the prefix ends in are all ones, that word lacks its lowest bits in the host's order, as
  -- many as the prefix has in it, and what lies behind is zero. At 128 that word is in the scope.
  pub get_subnetmask_lem :
      (prefix : ℕ) (m : Memory)
      → length m ≡ size
      → prefix ≤ 128
      → let mid = prefix / 16 in
        get_subnetmask host prefix m
        ≡ Made.made (
            (0 ∷ 0 ∷ peek 2 2 m)
            ++ (replicate 4 0
                ++ (words mid 255
                    ++ (image host 2 (65535 - (2 ^ (prefix % 16) - 1))
                        ++ replicate (18 - 2 * mid) 0))))
  unfolding get_subnetmask empty
  get_subnetmask_lem prefix m l h =
      let over : ltb 9 (prefix / 16) ≡ false = ground arith in
      rw over (
        ap Made.made (
          mask_of (prefix / 16) (65535 - bits_of prefix) (peek 2 2 m) (omega arith)
            (omega (arith, length-take 2 (drop 2 m), length-drop 2 m))))
