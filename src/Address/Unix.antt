-- ===== src/Address/Unix.antt =====
-- `UnixAddress` of src/address.h and src/address.cc, by the bytes of its `sockaddr_un` and the length
-- that is kept beside it: the family in two bytes and the path in 108.
use proj.Base.{
  ℕ, ◌+◌, ◌-◌, ◌%◌, ◌^◌, Option, none, some, [], ◌∷◌, ◌++◌, if◌then◌else◌, ltb, replicate, length,
  take, drop,
}
use proj.Base.Memory.{Memory, poke}
use proj.Base.Text.{Text, codes, c_str, is_empty}
use proj.Swap.{Endian, image}
use proj.Address.{af_unix}

-- `sizeof(sockaddr_un)` and `offsetof(sockaddr_un,sun_path)`
abbrev pub size : ℕ
size = 110

abbrev pub path_offset : ℕ
path_offset = 2

-- `MAX_PATH`
abbrev pub max_path : ℕ
max_path = size - path_offset - 1

pub record UnixAddress : Type 0 where
  pub m_addr : Memory
  pub m_length : ℕ

module _ (host : Endian) where
  abbrev zeroed : Memory
  zeroed = poke 0 (image host 2 af_unix) (replicate size 0)

  unfoldable pub empty : UnixAddress
  empty = record { m_addr = zeroed; m_length = path_offset + max_path }

  -- none when the constructor throws. `m_length` has 32 bits.
  unfoldable pub construct : Text → Option UnixAddress
  construct path =
      let len = if is_empty path then 0 else (length path + 1) % 2 ^ 32 in
      if ltb max_path (length path)
      then none
      else some (record {
        m_addr = poke path_offset (take len (path ++ 0 ∷ [])) zeroed;
        m_length = len + path_offset;
      })

-- `setLen`
unfoldable pub set_len : ℕ → UnixAddress → UnixAddress
set_len len a = record a { m_length = len }

unfoldable pub insert : UnixAddress → Text
insert a = codes "[file:" ++ c_str (drop path_offset a.m_addr) ++ codes "]"
