-- ===== src/ByteArray/Write.antt =====
-- `ByteArray::write` appends: it ends, keeps the invariant, and adds the bytes in order.
use Prim.Native.Nat.{min}
use proj.Base.{
  ℕ, zero, suc, ◌+◌, ◌-◌, ◌*◌, ◌≤◌, ◌<◌, ◌≡◌, refl, sym, ap, ◌∙◌, some, List, [], ◌∷◌, ◌++◌, arith,
  inl, inr, Bool-cases, ltb, ltb→lt, All-append, length, take, drop, concat, length-append,
  length-take, length-drop, length-replicate, take-append-drop, take_all, take-append,
  take-append_past, drop-append, concat-append, append_assoc, append-nil,
}
use proj.Base.Words.{size_mod, add_size}
use proj.ByteArray.{
  ByteArray, overwrite, use_capcity, next_node, fill_node, write_tail, write_loop, write,
}
use proj.ByteArray.Valid.{IsValid, written, contents, length-written, length-overwrite}

-- What appending `src` to `b` has to give.
pub record Appended (b : ByteArray) (src : List ℕ) (c : ByteArray) : Type 0 where
  pub valid : IsValid c
  pub bytes : contents c ≡ contents b ++ src
  pub size_lem : c.size ≡ b.size + length src
  pub same_base : c.basesize ≡ b.basesize

-- Up to the end of what was written, a node holds its old bytes and then the new ones.
take-overwrite :
    (buf : List ℕ) (at : ℕ) (src : List ℕ)
    → at ≤ length buf
    → take (at + length src) (overwrite buf at src) ≡ take at buf ++ src
take-overwrite buf at src h =
    take-append_past (at + length src) (take at buf) rest (omega (arith, length-take at buf))
    ∙ ap (λ zs. take at buf ++ zs)
        (ap (λ k. take k rest) (omega (arith, length-take at buf))
          ∙ take-append (length src) src (drop (at + length src) buf) (omega arith)
          ∙ take_all (length src) src (omega arith))
  where
    rest : List ℕ
    rest = src ++ drop (at + length src) buf

contents-append :
    (b : ByteArray) → IsValid b → (src : List ℕ) → drop b.cur (written b ++ src) ≡ contents b ++ src
contents-append b v src = drop-append b.cur (written b) src (omega (arith, length-written b v))

write_tail-Appended :
    (b : ByteArray) (src : List ℕ)
    → IsValid b
    → length src ≤ b.basesize - b.pos
    → b.size + length src + b.basesize < size_mod
    → Appended b src (write_tail b src)
write_tail-Appended b src v h k = record {
  valid = record {
    base_pos = v.base_pos;
    nodes = v.nodes;
    buf_len = length-overwrite b.write_buf b.pos src (omega arith) ∙ v.buf_len;
    last_node = v.last_node;
    pos_in = omega arith;
    cur_in = v.cur_in;
    counted = omega arith;
    room = omega arith;
    small = omega arith;
  };
  bytes =
      ap (λ zs. drop b.cur (concat b.before ++ zs))
        (take-overwrite b.write_buf b.pos src (omega (arith, v.pos_in, v.buf_len)))
      ∙ ap (λ zs. drop b.cur zs) (sym (append_assoc (concat b.before) (take b.pos b.write_buf) src))
      ∙ contents-append b v src;
  size_lem = omega arith;
  same_base = refl;
}

-- A copy that ends where the buffer ends leaves no old byte behind it.
overwrite_full :
    (buf : List ℕ) (at : ℕ) (src : List ℕ)
    → at + length src ≡ length buf
    → overwrite buf at src ≡ take at buf ++ src
overwrite_full buf at src e =
    sym (
      take_all (at + length src) (overwrite buf at src)
        (omega (arith, length-overwrite buf at src)))
    ∙ take-overwrite buf at src (omega arith)

blocks-snoc :
    (xss : List (List ℕ)) (w : List ℕ) (n : ℕ) → length (xss ++ w ∷ []) * n ≡ length xss * n + n
blocks-snoc xss w n = rw (length-append xss (w ∷ [])) (grind arith)

module _ (b : ByteArray) (src : List ℕ) (v : IsValid b) (h : use_capcity b < length src)
    (k : b.size + length src + b.basesize < size_mod) where
  abbrev last : ℕ
  last = use_capcity b

  abbrev chunk : List ℕ
  chunk = take last src

  -- `fill_node` with the rest of the chain written out.
  abbrev filled : List (List ℕ) → ByteArray
  filled ns =
      let full : ByteArray = record b { write_buf = overwrite b.write_buf b.pos chunk } in
      let moved = next_node full ns in record moved { size = add_size moved.size last }

  last-eq : last ≡ b.basesize - b.pos
  last-eq = omega (arith, v.pos_in, v.small)

  length-chunk : length chunk ≡ last
  length-chunk = omega (arith, length-take last src)

  node_full : b.pos + length chunk ≡ length b.write_buf
  node_full = omega (arith, length-chunk, last-eq, v.pos_in, v.buf_len)

  filled_bytes :
      drop b.cur (concat (b.before ++ overwrite b.write_buf b.pos chunk ∷ []) ++ [])
      ≡ contents b ++ chunk
  filled_bytes =
      ap (λ zs. drop b.cur zs)
        (append-nil (concat (b.before ++ overwrite b.write_buf b.pos chunk ∷ []))
          ∙ concat-append b.before (overwrite b.write_buf b.pos chunk)
          ∙ ap (λ zs. concat b.before ++ zs) (overwrite_full b.write_buf b.pos chunk node_full)
          ∙ sym (append_assoc (concat b.before) (take b.pos b.write_buf) chunk))
      ∙ contents-append b v chunk

  filled-Appended : (ns : List (List ℕ)) → ns ≡ [] → Appended b chunk (filled ns)
  filled-Appended (n ∷ ns) e = cc
  filled-Appended [] e = record {
    valid = record {
      base_pos = v.base_pos;
      nodes =
          All-append (λ n. length n ≡ b.basesize) b.before (overwrite b.write_buf b.pos chunk ∷ [])
            v.nodes
            (length-overwrite b.write_buf b.pos chunk (omega (arith, node_full)) ∙ v.buf_len, tt);
      buf_len = length-replicate b.basesize b.junk;
      last_node = v.last_node;
      pos_in = omega arith;
      cur_in = v.cur_in;
      counted = omega (
        arith,
        blocks-snoc b.before (overwrite b.write_buf b.pos chunk) b.basesize,
        v.counted,
        last-eq,
        v.pos_in,
        v.small,
      );
      room = omega (arith, v.room, last-eq, v.pos_in, v.small);
      small = omega (arith, last-eq, v.small);
    };
    bytes = filled_bytes;
    size_lem = omega (arith, length-chunk, last-eq, v.small);
    same_base = refl;
  }

  -- One round: the node is filled up and the next one is the write node.
  fill_node-Appended : Appended b chunk (fill_node b last src)
  fill_node-Appended = filled-Appended b.after v.last_node

  fill_node-room : use_capcity (fill_node b last src) ≡ b.basesize
  fill_node-room = filled-room b.after v.last_node
    where
      filled-room : (ns : List (List ℕ)) → ns ≡ [] → use_capcity (filled ns) ≡ b.basesize
      filled-room (n ∷ ns) e = cc
      filled-room [] e = omega (arith, v.small)

pub Appended-trans :
    (b c d : ByteArray) (xs ys src : List ℕ)
    → xs ++ ys ≡ src
    → Appended b xs c
    → Appended c ys d
    → Appended b src d
Appended-trans b c d xs ys src e p q = record {
  valid = q.valid;
  bytes =
      q.bytes
      ∙ ap (λ zs. zs ++ ys) p.bytes
      ∙ append_assoc (contents b) xs ys
      ∙ ap (λ zs. contents b ++ zs) e;
  size_lem = omega (arith, q.size_lem, p.size_lem, length-append xs ys, ap length e);
  same_base = q.same_base ∙ p.same_base;
}

-- Every round but one that finds the node full takes at least a byte.
write_loop-Appended :
    (fuel : ℕ) (b : ByteArray) (src : List ℕ)
    → IsValid b
    → b.size + length src + b.basesize < size_mod
    → length src + 1 < fuel + min (use_capcity b) 1
    → (c : ByteArray) × (write_loop fuel b src ≡ some c) × Appended b src c
unfolding write_loop
write_loop-Appended zero b src v k f = absurd (omega arith)
write_loop-Appended (suc fuel) b src v k f = elim (Bool-cases (ltb (use_capcity b) (length src))) [
  | inl more ↦
      let h = ltb→lt (use_capcity b) (length src) more in
      let p = fill_node-Appended b src v h k in
      let e = take-append-drop (use_capcity b) src in
      let len = length-drop (use_capcity b) src in
      let (c, eq, q) =
        write_loop-Appended fuel (fill_node b (use_capcity b) src) (drop (use_capcity b) src)
          p.valid (omega (arith, p.size_lem, p.same_base, length-take (use_capcity b) src, len))
          (omega (arith, len, fill_node-room b src v h k, v.base_pos)) in
      (c, rw more eq, Appended-trans b (fill_node b (use_capcity b) src) c _ _ src e p q)
  | inr done ↦
      (write_tail b src, rw done, write_tail-Appended b src v (ground (arith, v.pos_in, v.small)) k)
]

-- `write` ends on every valid array whose bytes, with the new ones and one more node, fit a
-- `size_t`; the array that it leaves is valid, holds the old bytes followed by `src`, and has
-- `getSize()` larger by the number of bytes.
pub write-appends :
    (b : ByteArray) (src : List ℕ)
    → IsValid b
    → b.size + length src + b.basesize < size_mod
    → (c : ByteArray) × (write b src ≡ some c) × Appended b src c
unfolding write
write-appends b src v k = write_loop-Appended (length src + 2) b src v k (omega arith)
