-- ===== src/Address/Tests.antt =====
-- Addresses on a little-endian host.
use proj.Base.{
  ℕ, ◌+◌, ◌-◌, ◌*◌, ◌/◌, ◌%◌, ◌^◌, ◌<◌, ◌≤◌, ◌≡◌, ◌≢◌, ◌↔◌, ◌⊎◌, refl, inl, inr, Bool, true, false,
  Option, none, some, List, [], ◌∷◌, ◌++◌, if◌then◌else◌, ltb, ◌==◌, length, take, drop, replicate,
  arith,
}
use Prim.Native.Nat.{bit_or, bit_and}
use proj.Base.Memory.{Memory, peek, memcmp}
use proj.Base.Text.{Text, codes, show, c_str, decimal, lex}
use proj.Swap.{Endian, image, value, network, of_network, byteswap}
use proj.Address.{Made, af_inet, af_inet6, sa_family}
use proj.Address.Object.{Address, get_addr, get_addr_len, less, equal, unequal}
use proj.Address.ObjectLaws.{compared, less-total, equal_lem}
use proj.Address.Resolve.{Hints, AddrInfo, Answer, lookup, of_interface, create}
use proj.Address.ResolveLaws.{all_expected, lookup_lem, of_interface-cut, create-ipv4}
use proj.Address.Unix.{UnixAddress}
use proj.Address.UnixLaws as UnixLaws
use proj.Address.Unix as Unix
use proj.Address.Ipv4 as Ipv4
use proj.Address.Ipv6 as Ipv6
use proj.Address.Ipv4Laws as Ipv4Laws
use proj.Address.Ipv6Laws as Ipv6Laws

abbrev host : Endian
host = Endian.little

-- 192.168.10.77 and its network of 26 bits.
abbrev home : ℕ
home = 3232238157

abbrev home_8080 : Memory
home_8080 = Ipv4.construct host home 8080

ipv4_subnet_lem_example :
    (Ipv4.get_network_address host 26 home_8080 ≡ Made.made (Ipv4.construct host 3232238144 8080))
    × (Ipv4.get_broadcast host 26 home_8080 ≡ Made.made (Ipv4.construct host 3232238207 8080))
    × (Ipv4.get_subnetmask host 26 home_8080 ≡ Made.made (Ipv4.construct host 4294967232 8080))
ipv4_subnet_lem_example =
    Ipv4Laws.ipv4_subnet_lem host home 8080 26 (omega arith) (omega arith) (omega arith)
      (omega arith)

ipv4_subnet_fault_test :
    (Ipv4.get_network_address host 0 home_8080 ≡ Made.undefined)
    × (Ipv4.get_broadcast host 0 home_8080 ≡ Made.undefined)
    × (Ipv4.get_subnetmask host 0 home_8080 ≡ Made.undefined)
ipv4_subnet_fault_test = Ipv4Laws.ipv4_subnet_fault host 0 home_8080 (inl (omega arith))

insert-construct_example :
    (peek 4 4 home_8080 ≡ 192 ∷ 168 ∷ 10 ∷ 77 ∷ [])
    × (Ipv4.insert host home_8080
        ≡ codes "["
          ++ show 192
          ++ codes "."
          ++ show 168
          ++ codes "."
          ++ show 10
          ++ codes "."
          ++ show 77
          ++ codes "]:"
          ++ show 8080)
insert-construct_example =
    Ipv4Laws.insert-construct host 192 168 10 77 8080 (omega arith) (omega arith) (omega arith)
      (omega arith) (omega arith)

printed : Ipv4.insert host home_8080 ≡ codes "[192.168.10.77]:8080"
unfolding Ipv4.insert Ipv4.construct Ipv4.get_port image value decimal byteswap
    proj.Swap.byteswap_on_little_endian
printed = refl

-- 2001:db8::1 with the port 80.
abbrev documentation : Memory
documentation =
    (10 ∷ 0 ∷ 0 ∷ 80 ∷ replicate 4 0)
    ++ ((32 ∷ 1 ∷ 13 ∷ 184 ∷ replicate 11 0) ++ (1 ∷ replicate 4 0))

ipv6_subnet_lem_example :
    let word = Ipv6.get_word host 4 documentation in
    let around = λ (w x : ℕ). Made.made (
      take 16 documentation ++ (image host 2 w ++ (Ipv6Laws.words 3 x ++ drop 24 documentation))) in
    (Ipv6.get_broadcast host 64 documentation ≡ around (bit_or word 0) 255)
    × (Ipv6.get_network_address host 64 documentation ≡ around (bit_and word 65535) 0)
ipv6_subnet_lem_example = Ipv6Laws.ipv6_subnet_lem host 64 documentation refl (omega arith)

get_subnetmask_lem_example :
    Ipv6.get_subnetmask host 128 documentation
    ≡ Made.made (
        (0 ∷ 0 ∷ 0 ∷ 80 ∷ [])
        ++ (replicate 4 0 ++ (Ipv6Laws.words 8 255 ++ (image host 2 65535 ++ replicate 2 0))))
get_subnetmask_lem_example = Ipv6Laws.get_subnetmask_lem host 128 documentation refl (omega arith)

unix_construct_lem_example :
    ((Unix.max_path < 9) × (Unix.construct host (codes "/tmp/sock") ≡ none))
    ⊎ (a : UnixAddress) × (Unix.construct host (codes "/tmp/sock") ≡ some a)
      × (9 ≤ Unix.max_path)
      × (length a.m_addr ≡ Unix.size)
      × (a.m_length ≤ Unix.size)
      × (Unix.insert a ≡ codes "[file:" ++ c_str (codes "/tmp/sock") ++ codes "]")
unix_construct_lem_example = UnixLaws.unix_construct_lem host (codes "/tmp/sock")

abbrev here : Address
here = Address.ipv4 home_8080

abbrev port_80 : Address
port_80 = Address.ipv4 (Ipv4.construct host home 80)

length-here : length (get_addr here) ≡ 16
unfolding Ipv4.construct get_addr image
length-here = refl

here_whole : get_addr_len here ≤ length (get_addr here)
unfolding get_addr_len
here_whole = omega (arith, length-here)

less-total_example :
    ((less here here ≡ some true) ⊎ (less here here ≡ some true))
    × (((less here here ≡ some true) × (less here here ≡ some true))
        ↔ (compared here here ≡ compared here here))
less-total_example = less-total here here here_whole here_whole

equal_lem_example :
    ((equal here here ≡ some true)
      ↔ ((get_addr_len here ≡ get_addr_len here) × (compared here here ≢ compared here here)))
    × ((unequal here here ≡ some true) ↔ (equal here here ≡ some false))
equal_lem_example = equal_lem here here here_whole here_whole

ports_are_equal : equal here port_80 ≡ some true
unfolding equal memcmp get_addr get_addr_len Ipv4.construct image value lex byteswap
    proj.Swap.byteswap_on_little_endian
ports_are_equal = refl

-- A resolver that knows one name.
abbrev answer : AddrInfo
answer = record { ai_family = 2; ai_addr = home_8080; ai_addrlen = 16 }

abbrev resolve : Hints → Option Text → Text → Answer AddrInfo
resolve hints service node = Answer.found (answer ∷ [])

abbrev junk : ℕ → ℕ → Memory
junk n w = replicate w 204

junk_sized : (n w : ℕ) → length (junk n w) ≡ w
junk_sized n w = proj.Base.length-replicate w 204

length-home : length home_8080 ≡ 16
unfolding Ipv4.construct image
length-home = refl

lookup_lem_example :
    lookup host junk resolve (here ∷ []) (codes "home") none
    ≡ some ((here ∷ []) ++ all_expected host junk 1 (answer ∷ []), [])
lookup_lem_example =
    lookup_lem host junk junk_sized resolve (here ∷ []) (codes "home") none (answer ∷ []) refl
      ((length-home, refl), tt)

family_six : sa_family host documentation ≡ af_inet6
unfolding value
family_six = refl

family_four : sa_family host home_8080 ≡ af_inet
unfolding value Ipv4.construct image
family_four = refl

of_interface-cut_example :
    (m : Memory) × (of_interface host junk 0
        (record { ifa_name = codes "eth0"; ifa_addr = some documentation })
      ≡ some (some (Address.ipv6 m)))
    × (take 8 m ≡ take 8 documentation)
    × (drop 8 m ≡ drop 8 (junk 0 28))
unfolding value
of_interface-cut_example =
    of_interface-cut host junk junk_sized 0 (codes "eth0") documentation (omega arith)
      (inr family_six)

create-ipv4_example :
    (m : Memory) × (create host junk resolve (codes "192.168.10.77") 443
      ≡ some (some (Address.ipv4 m), []))
    × (Ipv4.get_port host m ≡ 443)
    × (Ipv4.get_ip host m ≡ Ipv4.get_ip host home_8080)
create-ipv4_example =
    create-ipv4 host junk junk_sized resolve (codes "192.168.10.77") 443 answer [] refl family_four
      length-home refl (omega arith)
