-- ===== src/ByteArray.antt =====
-- `class ByteArray` of src/byteArray.h and src/byteArray.cc: a byte queue over a chain of
-- fixed-size nodes, with a read position and a write position.
pub mod Valid
pub mod Write
pub mod Read
pub mod Codec
pub mod Trace
mod Tests
use proj.Base.{
  ℕ, zero, suc, ◌+◌, ◌-◌, Bool, true, false, Option, none, some, List, [], ◌∷◌, ◌++◌, ltb, length,
  take, drop, replicate, if◌then◌else◌,
}
use proj.Base.Words.{add_size, sub_size}

-- The chain from `m_root` on is `before ++ (write_buf ∷ after)`: `write_buf` is the buffer of
-- `m_curWriteNode`. Positions are offsets, `pos` is `m_pos - m_curWriteNode->buf` and `cur` is
-- `m_cur - m_root->buf`. `junk` is what a byte of a new buffer holds before it is written.
pub record ByteArray : Type 0 where
  pub before : List (List ℕ)
  pub write_buf : List ℕ
  pub after : List (List ℕ)
  pub pos : ℕ
  pub cur : ℕ
  pub size : ℕ
  pub basesize : ℕ
  pub capcity : ℕ
  pub junk : ℕ

-- `Node::Node`
abbrev pub new_node : ℕ → ℕ → List ℕ
new_node junk size = replicate size junk

-- `ByteArray::ByteArray`
pub construct : ℕ → ℕ → ByteArray
construct junk size = record {
  before = [];
  write_buf = new_node junk size;
  after = [];
  pos = 0;
  cur = 0;
  size = 0;
  basesize = size;
  capcity = size;
  junk = junk;
}

abbrev pub use_capcity : ByteArray → ℕ
use_capcity b = sub_size b.basesize b.pos

abbrev pub read_last_size : ByteArray → ℕ
read_last_size b = sub_size b.basesize b.cur

-- `memcpy(buf + at, src, size of src)`
abbrev pub overwrite : List ℕ → ℕ → List ℕ → List ℕ
overwrite buf at src = take at buf ++ (src ++ drop (at + length src) buf)

-- The last copy of `write`, into the space that is left in the node.
abbrev pub write_tail : ByteArray → List ℕ → ByteArray
write_tail b src = record b {
  write_buf = overwrite b.write_buf b.pos src;
  pos = b.pos + length src;
  size = add_size b.size (length src);
}

-- `m_curWriteNode->next`, allocated where it is null, becomes the write node.
abbrev pub next_node : ByteArray → List (List ℕ) → ByteArray
next_node b [] = record b {
  before = b.before ++ b.write_buf ∷ [];
  write_buf = new_node b.junk b.basesize;
  pos = 0;
  capcity = add_size b.capcity b.basesize;
}
next_node b (n ∷ ns) = record b {
  before = b.before ++ b.write_buf ∷ [];
  write_buf = n;
  after = ns;
  pos = 0;
}

-- One round of the loop of `write`: the first `last` bytes of `src` fill the node.
abbrev pub fill_node : ByteArray → ℕ → List ℕ → ByteArray
fill_node b last src =
    let filled : ByteArray = record b { write_buf = overwrite b.write_buf b.pos (take last src) } in
    let moved = next_node filled b.after in record moved { size = add_size moved.size last }

pub write_loop : ℕ → ByteArray → List ℕ → Option ByteArray
write_loop zero b src = none
write_loop (suc fuel) b src =
    let last = use_capcity b in
    let rest = write_loop fuel (fill_node b last src) (drop last src) in
    if ltb last (length src) then rest else some (write_tail b src)

-- `none` means that the loop does not end (a node size of zero).
pub write : ByteArray → List ℕ → Option ByteArray
unfolding write_loop
write b src = write_loop (length src + 2) b src

-- `delete`s the root node. Where that is the write node too, `m_curWriteNode` would dangle and
-- `m_root` be null or unwritten: `none`.
abbrev pub drop_root : ByteArray → List (List ℕ) → Option ByteArray
drop_root b [] = none
drop_root b (n ∷ ns) =
    let last = read_last_size b in
    some (record b {
      before = ns;
      cur = 0;
      capcity = sub_size b.capcity last;
      size = sub_size b.size last;
    })

-- `m_root->buf`
abbrev pub root_buf : List (List ℕ) → List ℕ → List ℕ
root_buf [] write_buf = write_buf
root_buf (n ∷ ns) write_buf = n

-- The last copy of `read`, out of the root node.
abbrev pub read_tail : ByteArray → ℕ → List ℕ → Bool × List ℕ × ByteArray
read_tail b n out = (
  true,
  out ++ take n (drop b.cur (root_buf b.before b.write_buf)),
  record b { cur = b.cur + n; capcity = sub_size b.capcity n; size = sub_size b.size n },
)

-- The loop of `read`; `out` holds the bytes that went to the caller's buffer.
pub read_loop : ℕ → ByteArray → ℕ → List ℕ → Option (Bool × List ℕ × ByteArray)
read_loop zero b n out = none
read_loop (suc fuel) b n out =
    let last = read_last_size b in
    let chunk = take last (drop b.cur (root_buf b.before b.write_buf)) in
    let rest : Option (Bool × List ℕ × ByteArray) = elim (drop_root b b.before) [
      | none ↦ none
      | some b' ↦ read_loop fuel b' (n - last) (out ++ chunk)
    ] in
    if ltb last n then rest else some (read_tail b n out)

-- The flag is the result, the bytes are what went to the caller's buffer. `none` is a fault.
pub read : ByteArray → ℕ → Option (Bool × List ℕ × ByteArray)
unfolding read_loop
read b n = if ltb b.size n then some (false, [], b) else read_loop (n + 2) b n []
