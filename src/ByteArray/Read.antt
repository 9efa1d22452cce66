-- ===== src/ByteArray/Read.antt =====
-- `ByteArray::read` takes from the front: it ends, keeps the invariant, and returns the oldest
-- bytes in order, or refuses and changes nothing.
use Prim.Native.Nat.{min}
use mathlib.Core.Path.{subst}
use proj.Base.{
  ℕ, zero, suc, ◌+◌, ◌-◌, ◌*◌, ◌≤◌, ◌<◌, ◌≡◌, refl, sym, ap, ◌∙◌, true, false, some, List, [], ◌∷◌,
  ◌++◌, arith, inl, inr, Bool-cases, ltb, ltb→lt, lt→ltb, All, length, take, drop, concat,
  length-take, length-drop, take_all, take-append, drop-append, take-append_past, drop-append_past,
  take-drop-take, drop-drop, append_assoc, Bool,
}
use proj.Base.Words.{sub_size}
use proj.ByteArray.{ByteArray, read_last_size, drop_root, root_buf, read_tail, read_loop, read}
use proj.ByteArray.Valid.{IsValid, written, contents}

-- What reading `n` bytes from `b` has to give, behind the bytes `out` already read.
pub record Taken (b : ByteArray) (n : ℕ) (out : List ℕ) (r : Bool × List ℕ × ByteArray)
    : Type 0 where
  pub done : r.0 ≡ true
  pub bytes : r.1 ≡ out ++ take n (contents b)
  pub rest : contents r.2 ≡ drop n (contents b)
  pub valid : IsValid r.2
  pub size_lem : r.2.size + n ≡ b.size
  pub same_base : r.2.basesize ≡ b.basesize

-- The root node holds the first bytes of the array.
root_bytes :
    (xss : List (List ℕ)) (w : List ℕ) (pos cur n base : ℕ)
    → All (λ m. length m ≡ base) xss
    → cur + n ≤ base
    → cur + n ≤ length xss * base + pos
    → take n (drop cur (root_buf xss w)) ≡ take n (drop cur (concat xss ++ take pos w))
root_bytes [] w pos cur n base a h k = sym (take-drop-take n cur pos w (omega arith))
root_bytes (m ∷ xss) w pos cur n base a h k = sym (
    ap (λ zs. take n (drop cur zs)) (append_assoc m (concat xss) (take pos w))
    ∙ ap (λ zs. take n zs) (drop-append cur m (concat xss ++ take pos w) (omega (arith, a.0)))
    ∙ take-append n (drop cur m) (concat xss ++ take pos w) (omega (arith, a.0, length-drop cur m)))

read_tail-Taken :
    (b : ByteArray) (n : ℕ) (out : List ℕ)
    → IsValid b
    → n ≤ b.size
    → n ≤ b.basesize - b.cur
    → Taken b n out (read_tail b n out)
read_tail-Taken b n out v h k = record {
  done = refl;
  bytes =
      ap (λ zs. out ++ zs)
        (root_bytes b.before b.write_buf b.pos b.cur n b.basesize v.nodes
          (omega (arith, v.cur_in, k)) (omega (arith, v.counted, h)));
  rest = sym (drop-drop n b.cur (written b));
  valid = record {
    base_pos = v.base_pos;
    nodes = v.nodes;
    buf_len = v.buf_len;
    last_node = v.last_node;
    pos_in = v.pos_in;
    cur_in = omega arith;
    counted = omega arith;
    room = omega arith;
    small = omega arith;
  };
  size_lem = omega (arith, v.small);
  same_base = refl;
}

module _ (b : ByteArray) (v : IsValid b) (n : ℕ) (h : read_last_size b < n) (k : n ≤ b.size) where
  abbrev last : ℕ
  last = read_last_size b

  abbrev chunk : List (List ℕ) → List ℕ
  chunk xss = take last (drop b.cur (root_buf xss b.write_buf))

  last-eq : last ≡ b.basesize - b.cur
  last-eq = omega (arith, v.cur_in, v.small)

  blocks :
      (xss : List (List ℕ))
      → b.before ≡ xss
      → length b.before * b.basesize ≡ length xss * b.basesize
  blocks xss e = ap (λ z. length z * b.basesize) e

  nodes :
      (m : List ℕ) (ms : List (List ℕ))
      → b.before ≡ m ∷ ms
      → All (λ x. length x ≡ b.basesize) (m ∷ ms)
  nodes m ms e = subst (λ z. All (λ x. length x ≡ b.basesize) z) e v.nodes

  split :
      (m : List ℕ) (ms : List (List ℕ))
      → b.before ≡ m ∷ ms
      → contents b ≡ chunk (m ∷ ms) ++ (concat ms ++ take b.pos b.write_buf)
  split m ms e =
      ap (λ z. drop b.cur (concat z ++ take b.pos b.write_buf)) e
      ∙ ap (λ zs. drop b.cur zs) (append_assoc m (concat ms) (take b.pos b.write_buf))
      ∙ drop-append b.cur m (concat ms ++ take b.pos b.write_buf)
          (omega (arith, (nodes m ms e).0, v.cur_in))
      ∙ ap (λ zs. zs ++ (concat ms ++ take b.pos b.write_buf))
          (sym (
            take_all last (drop b.cur m)
              (omega (arith, length-drop b.cur m, (nodes m ms e).0, last-eq))))

  -- One round: the root node is read to its end and freed; the rest of the array stays.
  drop_root_lem :
      (xss : List (List ℕ))
      → b.before ≡ xss
      → (c : ByteArray) × (drop_root b xss ≡ some c)
        × IsValid c
        × (contents b ≡ chunk xss ++ contents c)
        × (length (chunk xss) ≡ last)
        × (c.size + last ≡ b.size)
        × (c.basesize ≡ b.basesize)
        × (c.cur ≡ 0)
  drop_root_lem [] e = absurd (omega (arith, v.counted, blocks [] e, v.pos_in, last-eq))
  drop_root_lem (m ∷ ms) e = (
    record b {
      before = ms;
      cur = 0;
      capcity = sub_size b.capcity last;
      size = sub_size b.size last;
    },
    refl,
    record {
      base_pos = v.base_pos;
      nodes = (nodes m ms e).1;
      buf_len = v.buf_len;
      last_node = v.last_node;
      pos_in = v.pos_in;
      cur_in = omega arith;
      counted = omega (arith, v.counted, blocks (m ∷ ms) e, last-eq, v.small, v.cur_in);
      room = omega (arith, v.room, last-eq, v.small, v.cur_in, v.pos_in);
      small = omega (arith, last-eq, v.small, v.cur_in);
    },
    split m ms e,
    omega (arith, length-take last (drop b.cur m), length-drop b.cur m, (nodes m ms e).0, last-eq),
    omega (arith, last-eq, v.small, v.cur_in),
    refl,
    refl,
  )

Taken-step :
    (b c : ByteArray) (n last : ℕ) (out chunk : List ℕ) (r : Bool × List ℕ × ByteArray)
    → contents b ≡ chunk ++ contents c
    → length chunk ≡ last
    → last < n
    → c.size + last ≡ b.size
    → c.basesize ≡ b.basesize
    → Taken c (n - last) (out ++ chunk) r
    → Taken b n out r
Taken-step b c n last out chunk r e l h s bs t = record {
  done = t.done;
  bytes =
      t.bytes ∙ append_assoc out chunk (take (n - last) (contents c)) ∙ ap (λ zs. out ++ zs) front;
  rest = t.rest ∙ back;
  valid = t.valid;
  size_lem = omega (arith, t.size_lem);
  same_base = t.same_base ∙ bs;
}
  where
    front : chunk ++ take (n - last) (contents c) ≡ take n (contents b)
    front = sym (
        ap (λ zs. take n zs) e
        ∙ take-append_past n chunk (contents c) (omega arith)
        ∙ ap (λ j. chunk ++ take (n - j) (contents c)) l)

    back : drop (n - last) (contents c) ≡ drop n (contents b)
    back = sym (
        ap (λ zs. drop n zs) e
        ∙ drop-append_past n chunk (contents c) (omega arith)
        ∙ ap (λ j. drop (n - j) (contents c)) l)

read_loop-Taken :
    (fuel : ℕ) (b : ByteArray) (n : ℕ) (out : List ℕ)
    → IsValid b
    → n ≤ b.size
    → n + 1 < fuel + min (read_last_size b) 1
    → (r : Bool × List ℕ × ByteArray) × (read_loop fuel b n out ≡ some r) × Taken b n out r
unfolding read_loop
read_loop-Taken zero b n out v k f = absurd (omega arith)
read_loop-Taken (suc fuel) b n out v k f = elim (Bool-cases (ltb (read_last_size b) n)) [
  | inl more ↦
      let h = ltb→lt (read_last_size b) n more in
      let (c, eq, valid, split, len, size, base, at) = drop_root_lem b v n h k b.before refl in
      let chunk : List ℕ = take (read_last_size b) (drop b.cur (root_buf b.before b.write_buf)) in
      let (r, eq', t) =
        read_loop-Taken fuel c (n - read_last_size b) (out ++ chunk) valid (omega arith)
          (omega (arith, valid.base_pos, valid.small)) in
      (
        r,
        rw (more, eq) eq',
        Taken-step b c n (read_last_size b) out chunk r split len h size base t,
      )
  | inr done ↦
      (read_tail b n out, rw done, read_tail-Taken b n out v k (ground (arith, v.cur_in, v.small)))
]

-- `read` of at most `getSize()` bytes ends on every valid array, and returns true, the first `n`
-- bytes in order, and a valid array of the bytes behind them.
pub read-takes :
    (b : ByteArray) (n : ℕ)
    → IsValid b
    → n ≤ b.size
    → (r : Bool × List ℕ × ByteArray) × (read b n ≡ some r) × Taken b n [] r
unfolding read
read-takes b n v h = elim (Bool-cases (ltb b.size n)) [
  | inl over ↦ absurd (omega (arith, ltb→lt b.size n over))
  | inr fits ↦
      let (r, eq, t) = read_loop-Taken (n + 2) b n [] v h (omega arith) in (r, rw fits eq, t)
]

-- `read` of more bytes than there are returns false, at once and with the array as it was.
pub read_short : (b : ByteArray) (n : ℕ) → b.size < n → read b n ≡ some (false, [], b)
unfolding read
read_short b n h = rw (lt→ltb b.size n h)
