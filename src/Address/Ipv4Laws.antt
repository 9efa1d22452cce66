-- ===== src/Address/Ipv4Laws.antt =====
-- What `IPv4Address` of src/address.cc promises, whatever the host's byte order.
use Prim.Native.Nat.{bit_and}
use proj.Base.{
  ℕ, ◌+◌, ◌-◌, ◌/◌, ◌%◌, ◌^◌, ◌≤◌, ◌<◌, ◌≡◌, refl, sym, ap, ◌∙◌, [], ◌∷◌, ◌++◌, if◌then◌else◌, ltb,
  replicate, length, arith, inl, inr, true, false, ◌⊎◌,
}
use mathlib.Core.Path.{subst}
use mathlib.Core.List.{reverse}
use native.Mathlib.Nat.{one-le-pow}
use proj.Base.Bits.{bit_or_mask, bit_and_mask}
use proj.Base.Memory.{Memory, peek, poke, peek-poke, peek-poke_after}
use proj.Base.Text.{codes, show}
use proj.Swap.{
  Endian, le_bytes-of_le_bytes, image, value, network, of_network, image-byteswap_on_little_endian,
  length-network, byteswap_on_little_endian-value, network-IsByte, of_network-network,
  byteswap_on_little_endian, length-image,
}
use proj.Address.{af_inet, Made, get_network, set_network}
use proj.Address.Ipv4.{
  construct, get_ip, get_port, insert, get_broadcast, get_network_address, get_subnetmask,
}

module _ (host : Endian) where
  -- A field that holds a number in network order reads as that number.
  pub get_network-network :
      (off w v : ℕ) (m : Memory)
      → v < 256 ^ w
      → peek off w m ≡ network w v
      → get_network host off w m ≡ v
  get_network-network off w v m h e =
      ap (λ bs. byteswap_on_little_endian host w (value host bs)) e
      ∙ ap (λ k. byteswap_on_little_endian host k (value host (network w v)))
          (sym (length-network w v))
      ∙ byteswap_on_little_endian-value host (network w v) (network-IsByte w v)
      ∙ of_network-network w v h

  -- What is stored in a field is read from it, and a field behind it stays as it is.
  pub get_network-set_network :
      (off w v : ℕ) (m : Memory)
      → v < 256 ^ w
      → off ≤ length m
      → get_network host off w (set_network host off w v m) ≡ v
  get_network-set_network off w v m h inside =
      let bytes = network w v in
      rw (image-byteswap_on_little_endian host w v) (
        get_network-network off w v (poke off bytes m) h (
          ap (λ k. peek off k (poke off bytes m)) (sym (length-network w v))
          ∙ peek-poke off bytes m inside))

  pub get_network-set_network_behind :
      (lo n off w v : ℕ) (m : Memory)
      → off + w ≤ lo
      → off ≤ length m
      → get_network host lo n (set_network host off w v m) ≡ get_network host lo n m
  get_network-set_network_behind lo n off w v m h inside =
      ap (λ bs. byteswap_on_little_endian host n (value host bs))
        (peek-poke_after lo n off (image host w (byteswap_on_little_endian host w v)) m
          (omega (arith, length-image host w (byteswap_on_little_endian host w v))) inside)

  -- The object's bytes.
  pub construct_lem :
      (ip port : ℕ)
      → construct host ip port
        ≡ image host 2 af_inet ++ network 2 port ++ network 4 ip ++ replicate 8 0
  unfolding construct
  construct_lem ip port =
      rw (image-byteswap_on_little_endian host 2 port, image-byteswap_on_little_endian host 4 ip)
        (with_family (image host 2 af_inet) (length-image host 2 af_inet))
    where
      with_family :
          (fam : Memory)
          → length fam ≡ 2
          → poke 4 (network 4 ip) (poke 2 (network 2 port) (poke 0 fam (replicate 16 0)))
            ≡ fam ++ network 2 port ++ network 4 ip ++ replicate 8 0
      with_family [] h = absurd (omega arith)
      with_family (a ∷ []) h = absurd (omega arith)
      with_family (a ∷ b ∷ []) h = refl
      with_family (a ∷ b ∷ c ∷ fam) h = absurd (omega arith)

  peek_fields :
      (ip port : ℕ)
      → (peek 4 4 (construct host ip port) ≡ network 4 ip)
        × (peek 2 2 (construct host ip port) ≡ network 2 port)
        × (peek 0 2 (construct host ip port) ≡ image host 2 af_inet)
  peek_fields ip port =
      rw (construct_lem ip port) (with_family (image host 2 af_inet) (length-image host 2 af_inet))
    where
      with_family :
          (fam : Memory)
          → length fam ≡ 2
          → let m = fam ++ network 2 port ++ network 4 ip ++ replicate 8 0 in
            (peek 4 4 m ≡ network 4 ip) × (peek 2 2 m ≡ network 2 port) × (peek 0 2 m ≡ fam)
      with_family [] h = absurd (omega arith)
      with_family (a ∷ []) h = absurd (omega arith)
      with_family (a ∷ b ∷ []) h = (refl, refl, refl)
      with_family (a ∷ b ∷ c ∷ fam) h = absurd (omega arith)

  pub get_ip-construct : (ip port : ℕ) → ip < 2 ^ 32 → get_ip host (construct host ip port) ≡ ip
  get_ip-construct ip port h =
      get_network-network 4 4 ip (construct host ip port) (omega arith) (peek_fields ip port).0

  pub get_port-construct :
      (ip port : ℕ) → port < 2 ^ 16 → get_port host (construct host ip port) ≡ port
  unfolding get_port
  get_port-construct ip port h =
      get_network-network 2 2 port (construct host ip port) (omega arith) (peek_fields ip port).1

  -- For a prefix of 2 to 32 bits, the network, the broadcast address and the mask of an address are
  -- those of arithmetic: the network is the greatest multiple of the block's size that is not above
  -- the address, the broadcast address the last one of that block, the mask the complement of the
  -- block's size, and each keeps the port.
  pub ipv4_subnet_lem :
      (ip port prefix : ℕ)
      → ip < 2 ^ 32
      → port < 2 ^ 16
      → 2 ≤ prefix
      → prefix ≤ 32
      → let m = construct host ip port in
        let block = 2 ^ (32 - prefix) in
        (get_network_address host prefix m ≡ Made.made (construct host (ip - ip % block) port))
        × (get_broadcast host prefix m
            ≡ Made.made (construct host (ip - ip % block + (block - 1)) port))
        × (get_subnetmask host prefix m ≡ Made.made (construct host (2 ^ 32 - block) port))
  unfolding get_network_address get_broadcast get_subnetmask
  ipv4_subnet_lem ip port prefix hi hp low high =
      let over : ltb 32 prefix ≡ false = ground arith in
      let small : ltb (32 - prefix) 31 ≡ true = ground arith in
      let i = get_ip-construct ip port hi in
      let q = get_port-construct ip port hp in
      let fits : ip < 2 ^ (prefix + (32 - prefix)) =
        subst (λ (t : ℕ). ip < 2 ^ t) {x = 32} (omega arith) hi in
      let net : bit_and ip (2 ^ 32 - 1 - (2 ^ (32 - prefix) - 1)) ≡ ip - ip % 2 ^ (32 - prefix) =
        ap (λ (t : ℕ). bit_and ip (2 ^ t - 1 - (2 ^ (32 - prefix) - 1))) {x = 32} (omega arith)
        ∙ bit_and_mask (32 - prefix) prefix ip fits in
      let made_at = λ (n : ℕ). Made.made (construct host n port) in
      rw (over, small, i, q)
        (
          ap made_at net,
          ap made_at (bit_or_mask (32 - prefix) ip),
          ap made_at (omega (arith, one-le-pow (32 - prefix) 2 (omega arith))),
        )

  -- For a prefix of 0 or 1 bit the three functions shift or subtract past the range of an int, so
  -- their behaviour is undefined; for one above 32 they return null.
  pub ipv4_subnet_fault :
      (prefix : ℕ) (m : Memory)
      → (prefix ≤ 1) ⊎ (33 ≤ prefix)
      → let expected = if ltb prefix 2 then Made.undefined else Made.null in
        (get_network_address host prefix m ≡ expected)
        × (get_broadcast host prefix m ≡ expected)
        × (get_subnetmask host prefix m ≡ expected)
  unfolding get_network_address get_broadcast get_subnetmask
  ipv4_subnet_fault prefix m (inl h) =
      let over : ltb 32 prefix ≡ false = ground arith in
      let large : ltb (32 - prefix) 31 ≡ false = ground arith in
      let tiny : ltb prefix 2 ≡ true = ground arith in rw (over, large, tiny) (refl, refl, refl)
  ipv4_subnet_fault prefix m (inr h) =
      let over : ltb 32 prefix ≡ true = ground arith in
      let tiny : ltb prefix 2 ≡ false = ground arith in rw (over, tiny) (refl, refl, refl)

  -- `toString` of the address shows the four bytes of the address in the order of the memory, and
  -- behind them the port.
  pub insert-construct :
      (a b c d port : ℕ)
      → a < 256
      → b < 256
      → c < 256
      → d < 256
      → port < 2 ^ 16
      → let ip = of_network (a ∷ b ∷ c ∷ d ∷ []) in
        (peek 4 4 (construct host ip port) ≡ a ∷ b ∷ c ∷ d ∷ [])
        × (insert host (construct host ip port)
            ≡ codes "["
              ++ show a
              ++ codes "."
              ++ show b
              ++ codes "."
              ++ show c
              ++ codes "."
              ++ show d
              ++ codes "]:"
              ++ show port)
  unfolding insert
  insert-construct a b c d port ha hb hc hd hp =
      let ip = of_network (a ∷ b ∷ c ∷ d ∷ []) in
      let i = get_ip-construct ip port (omega arith) in
      let q = get_port-construct ip port hp in
      let top : ip / 2 ^ 24 ≡ a = omega arith in
      let second : ip / 2 ^ 16 % 256 ≡ b = omega arith in
      let third : ip / 2 ^ 8 % 256 ≡ c = omega arith in
      let last : ip % 256 ≡ d = omega arith in
      (
        (peek_fields ip port).0
            ∙ ap reverse (le_bytes-of_le_bytes (d ∷ c ∷ b ∷ a ∷ []) (hd, (hc, (hb, (ha, tt))))),
        rw (i, q, top, second, third, last) refl,
      )
