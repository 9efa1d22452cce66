-- ===== src/Address/ResolveLaws.antt =====
-- What `Lookup`, `LookupInterfaces` and `Create` of src/address.cc make of the system's answers.
use proj.Base.{
  ℕ, ◌+◌, ◌^◌, ◌≤◌, ◌<◌, ◌≡◌, refl, sym, ap, ◌∙◌, Option, none, some, List, [], ◌∷◌, ◌++◌,
  if◌then◌else◌, leb, length, take, drop, arith, append_assoc, append-nil, true, false, Bool-cases,
  inl, inr, length-append, ◌⊎◌, take_all, drop_all, ◌==◌, All, ◌&&◌, length-take,
}
use proj.Base.Memory.{Memory, memcpy, poke, take-poke, drop-poke}
use proj.Base.Text.{Text}
use proj.Swap.{Endian}
use proj.Address.{af_inet, af_inet6, sa_family, set_network}
use proj.Address.Ipv4Laws.{get_network-set_network, get_network-set_network_behind}
use proj.Address.Object.{Address}
use proj.Address.Ipv4.{get_ip, get_port}
use proj.Address.Resolve.{
  Hints, AddrInfo, Answer, of_info, of_infos, lookup, of_interface, create, create_by_addr,
}

memcpy-whole :
    (dst src : Memory) (n : ℕ) → length dst ≡ n → length src ≡ n → memcpy dst src n ≡ some src
unfolding memcpy
memcpy-whole dst src n d s =
    let l : leb n (length dst) && leb n (length src) ≡ true = ground arith in
    rw l (
      ap (λ t. some t)
        (ap (λ t. t ++ drop (0 + length t) dst) (take_all n src (omega arith))
          ∙ ap (λ t. src ++ t) (drop_all (0 + length src) dst (omega arith))
          ∙ append-nil src))

memcpy-eight :
    (dst src : Memory)
    → 8 ≤ length dst
    → 8 ≤ length src
    → memcpy dst src 8 ≡ some (poke 0 (take 8 src) dst)
unfolding memcpy
memcpy-eight dst src d s = ground arith

take_eight : (dst src : Memory) → 8 ≤ length src → take 8 (poke 0 (take 8 src) dst) ≡ take 8 src
take_eight dst src h =
    ap (λ k. take k (poke 0 (take 8 src) dst)) {x = 8} {y = 0 + length (take 8 src)}
      (omega (arith, length-take 8 src))
    ∙ take-poke 0 (take 8 src) dst (omega arith)

drop_eight : (dst src : Memory) → drop 8 (poke 0 (take 8 src) dst) ≡ drop 8 dst
drop_eight dst src = drop-poke 8 0 (take 8 src) dst (omega (arith, length-take 8 src)) (omega arith)

-- An entry with the whole structure of its family.
abbrev pub IsWhole : AddrInfo → Type 0
IsWhole info =
    (length info.ai_addr ≡ info.ai_addrlen)
    × (info.ai_addrlen ≡ (
        if info.ai_family == af_inet
        then 16
        else if info.ai_family == af_inet6
        then 28
        else info.ai_addrlen))

module _ (host : Endian) (place : ℕ → ℕ → Memory) where
  -- The object that an entry becomes, by its family.
  abbrev pub expected : ℕ → AddrInfo → Address
  expected n info =
      if info.ai_family == af_inet
      then Address.ipv4 info.ai_addr
      else if info.ai_family == af_inet6
      then Address.ipv6 info.ai_addr
      else Address.unknown (place n 16)

  abbrev pub all_expected : ℕ → List AddrInfo → List Address
  all_expected n [] = []
  all_expected n (info ∷ infos) = expected n info ∷ all_expected (n + 1) infos

  module _ (sized : (n w : ℕ) → length (place n w) ≡ w) where
    of_info-whole :
        (n : ℕ) (info : AddrInfo)
        → IsWhole info
        → of_info host place n info ≡ some (expected n info)
    unfolding of_info proj.Address.Ipv4.construct_from proj.Address.Ipv6.construct_from
    of_info-whole n info h = elim (Bool-cases (info.ai_family == af_inet)) [
      | inl four ↦
          rw
            (
              four,
              memcpy-whole (place n 16) info.ai_addr info.ai_addrlen
                  (ground (arith, h.1, sized n 16)) h.0,
            )
            refl
      | inr other ↦ elim (Bool-cases (info.ai_family == af_inet6)) [
        | inl six ↦
            rw
              (
                other,
                six,
                memcpy-whole (place n 28) info.ai_addr info.ai_addrlen
                    (ground (arith, h.1, sized n 28)) h.0,
              )
              refl
        | inr neither ↦ rw (other, neither) refl
      ]
    ]

    of_infos-whole :
        (ips : List Address) (infos : List AddrInfo)
        → All IsWhole infos
        → of_infos host place ips infos ≡ some (ips ++ all_expected (length ips) infos)
    unfolding of_infos
    of_infos-whole ips [] h = ap (λ t. some t) (sym (append-nil ips))
    of_infos-whole ips (info ∷ infos) h =
        let ip = expected (length ips) info in
        rw (of_info-whole (length ips) info h.0) (
          of_infos-whole (ips ++ ip ∷ []) infos h.1
          ∙ ap (λ n. some ((ips ++ ip ∷ []) ++ all_expected n infos)) (length-append ips (ip ∷ []))
          ∙ ap (λ t. some t) (append_assoc ips (ip ∷ []) (all_expected (length ips + 1) infos)))

    -- Where the system answers with entries that have the whole structure of their families, `Lookup`
    -- appends one address for each, in their order: an IPv4 or IPv6 address with the entry's bytes, or
    -- an unknown one; and it logs nothing.
    pub lookup_lem :
        (getaddrinfo : Hints → Option Text → Text → Answer AddrInfo) (ips : List Address)
        (node : Text) (service : Option Text) (infos : List AddrInfo)
        → getaddrinfo (record { ai_flags = 0; ai_family = 0 }) service node ≡ Answer.found infos
        → All IsWhole infos
        → lookup host place getaddrinfo ips node service
          ≡ some (ips ++ all_expected (length ips) infos, [])
    unfolding lookup
    lookup_lem getaddrinfo ips node service infos e h =
        rw (e, lookup, of_infos-whole ips infos h) refl

    -- Of an interface's address `LookupInterfaces` copies eight bytes, whatever the family: what
    -- lies behind them in the object, so an IPv6 address, is what was in the memory before.
    pub of_interface-cut :
        (n : ℕ) (name : Text) (addr : Memory)
        → 8 ≤ length addr
        → (sa_family host addr ≡ af_inet) ⊎ (sa_family host addr ≡ af_inet6)
        → let four = sa_family host addr == af_inet in
          (m : Memory) × (of_interface host place n
              (record { ifa_name = name; ifa_addr = some addr })
            ≡ some (some (if four then Address.ipv4 m else Address.ipv6 m)))
          × (take 8 m ≡ take 8 addr)
          × (drop 8 m ≡ drop 8 (place n (if four then 16 else 28)))
    unfolding of_interface proj.Address.Ipv4.construct_from proj.Address.Ipv6.construct_from
    of_interface-cut n name addr h (inl e) =
        let t : (sa_family host addr == af_inet) ≡ true = ground arith in
        rw (t, memcpy-eight (place n 16) addr (omega (arith, sized n 16)) h)
          (
            poke 0 (take 8 addr) (place n 16),
            refl,
            take_eight (place n 16) addr h,
            drop_eight (place n 16) addr,
          )
    of_interface-cut n name addr h (inr e) =
        let t : (sa_family host addr == af_inet) ≡ false = ground arith in
        let u : (sa_family host addr == af_inet6) ≡ true = ground arith in
        rw (t, u, memcpy-eight (place n 28) addr (omega (arith, sized n 28)) h)
          (
            poke 0 (take 8 addr) (place n 28),
            refl,
            take_eight (place n 28) addr h,
            drop_eight (place n 28) addr,
          )

    -- Where the system knows the text as a whole IPv4 address, `Create` returns that address with the
    -- given port, and logs nothing.
    pub create-ipv4 :
        (getaddrinfo : Hints → Option Text → Text → Answer AddrInfo) (ip : Text) (port : ℕ)
        (info : AddrInfo) (rest : List AddrInfo)
        → getaddrinfo (record { ai_flags = 4; ai_family = 0 }) none ip ≡ Answer.found (info ∷ rest)
        → sa_family host info.ai_addr ≡ af_inet
        → length info.ai_addr ≡ 16
        → info.ai_addrlen ≡ 16
        → port < 2 ^ 16
        → (m : Memory) × (create host place getaddrinfo ip port ≡ some (some (Address.ipv4 m), []))
          × (get_port host m ≡ port)
          × (get_ip host m ≡ get_ip host info.ai_addr)
    unfolding create create_by_addr proj.Address.Ipv4.construct_from proj.Address.Ipv4.set_port
        get_port
    create-ipv4 getaddrinfo ip port info rest e family l k p =
        let t : (sa_family host info.ai_addr == af_inet) ≡ true = ground arith in
        rw (e, create, t, k, memcpy-whole (place 0 16) info.ai_addr 16 (sized 0 16) l)
          (
            set_network host 2 2 port info.ai_addr,
            refl,
            get_network-set_network host 2 2 port info.ai_addr (omega arith) (omega arith),
            get_network-set_network_behind host 4 4 2 2 port info.ai_addr (omega arith)
                (omega arith),
          )
