-- ===== src/ByteArray/Valid.antt =====
-- The representation invariant of `ByteArray`, and the bytes that an array stands for.
use proj.Base.{
  ℕ, ◌+◌, ◌*◌, ◌≤◌, ◌<◌, ◌≡◌, List, [], ◌++◌, arith, All, length, take, drop, concat, length-append,
  length-take, length-drop, length-replicate, length-concat, refl,
}
use proj.Base.Words.{size_mod}
use proj.ByteArray.{ByteArray, construct, overwrite}

pub record IsValid (b : ByteArray) : Type 0 where
  pub base_pos : 0 < b.basesize
  pub nodes : All (λ n. length n ≡ b.basesize) b.before
  pub buf_len : length b.write_buf ≡ b.basesize
  pub last_node : b.after ≡ []
  pub pos_in : b.pos ≤ b.basesize
  pub cur_in : b.cur ≤ b.basesize
  pub counted : b.cur + b.size ≡ length b.before * b.basesize + b.pos
  pub room : b.capcity + b.pos ≡ b.size + b.basesize
  pub small : b.size + b.basesize < size_mod

-- What lies between the start of the root node and the write position.
abbrev pub written : ByteArray → List ℕ
written b = concat b.before ++ take b.pos b.write_buf

-- The bytes between the read and the write position.
abbrev pub contents : ByteArray → List ℕ
contents b = drop b.cur (written b)

pub length-written : (b : ByteArray) → IsValid b → length (written b) ≡ b.cur + b.size
length-written b v = omega (
  arith,
  length-append (concat b.before) (take b.pos b.write_buf),
  length-concat b.basesize b.before v.nodes,
  length-take b.pos b.write_buf,
)

-- A valid array holds `getSize()` bytes.
pub length-contents : (b : ByteArray) → IsValid b → length (contents b) ≡ b.size
length-contents b v = omega (arith, length-drop b.cur (written b), length-written b v)

-- A new array of a positive node size is valid and empty.
pub construct-IsValid :
    (junk size : ℕ)
    → 0 < size
    → size < size_mod
    → IsValid (construct junk size) × (contents (construct junk size) ≡ [])
unfolding construct
construct-IsValid junk size h k = (
  record {
    base_pos = h;
    nodes = tt;
    buf_len = length-replicate size junk;
    last_node = refl;
    pos_in = omega arith;
    cur_in = omega arith;
    counted = omega arith;
    room = omega arith;
    small = omega arith;
  },
  refl,
)

pub length-overwrite :
    (buf : List ℕ) (at : ℕ) (src : List ℕ)
    → at + length src ≤ length buf
    → length (overwrite buf at src) ≡ length buf
length-overwrite buf at src h = omega (
  arith,
  length-append (take at buf) (src ++ drop (at + length src) buf),
  length-append src (drop (at + length src) buf),
  length-take at buf,
  length-drop (at + length src) buf,
)
