-- ===== src/Base/Memory.antt =====
-- The bytes of an object in memory, and the C library functions on them that the sources call.
use Prim.Native.Nat.{Ordering}
use proj.Base.{
  ℕ, ◌+◌, ◌-◌, ◌≤◌, ◌≡◌, ap, ◌∙◌, ◌&&◌, Option, none, some, List, ◌++◌, arith, leb, if◌then◌else◌,
  length, take, drop, length-append, length-take, length-drop, take-append, drop-append,
  take-append_past, drop-append_past, drop-drop, take-drop-take, take_all,
}
use proj.Base.Text.{lex}

abbrev pub Memory : Type 0
Memory = List ℕ

-- The `n` bytes at `off`, and the memory with `bs` written at `off`.
abbrev pub peek : ℕ → ℕ → Memory → Memory
peek off n m = take n (drop off m)

abbrev pub poke : ℕ → Memory → Memory → Memory
poke off bs m = take off m ++ (bs ++ drop (off + length bs) m)

-- `memcpy(dst, src, len)`; none when a byte is read or written past an end.
unfoldable pub memcpy : Memory → Memory → ℕ → Option Memory
memcpy dst src len =
    if leb len (length dst) && leb len (length src) then some (poke 0 (take len src) dst) else none

-- The sign of `memcmp(a, b, len)`; none when a byte is read past an end.
unfoldable pub memcmp : Memory → Memory → ℕ → Option Ordering
memcmp a b len =
    if leb len (length a) && leb len (length b) then some (lex (take len a) (take len b)) else none

pub length-poke :
    (off : ℕ) (bs m : Memory) → off + length bs ≤ length m → length (poke off bs m) ≡ length m
length-poke off bs m h = omega (
  arith,
  length-append (take off m) (bs ++ drop (off + length bs) m),
  length-append bs (drop (off + length bs) m),
  length-take off m,
  length-drop (off + length bs) m,
)

pub drop-take_append : (off : ℕ) (m r : Memory) → off ≤ length m → drop off (take off m ++ r) ≡ r
drop-take_append off m r h =
    drop-append_past off (take off m) r (omega (arith, length-take off m))
    ∙ ap (λ k. drop k r) {y = 0} (omega (arith, length-take off m))

-- What was written is read.
pub peek-poke :
    (off : ℕ) (bs m : Memory) → off ≤ length m → peek off (length bs) (poke off bs m) ≡ bs
peek-poke off bs m h =
    ap (λ t. take (length bs) t) (drop-take_append off m (bs ++ drop (off + length bs) m) h)
    ∙ take-append (length bs) bs (drop (off + length bs) m) (omega arith)
    ∙ take_all (length bs) bs (omega arith)

-- What lies before and behind is as it was.
pub peek-poke_before :
    (lo n off : ℕ) (bs m : Memory)
    → lo + n ≤ off
    → off ≤ length m
    → peek lo n (poke off bs m) ≡ peek lo n m
peek-poke_before lo n off bs m h k =
    ap (λ t. take n t)
      (drop-append lo (take off m) (bs ++ drop (off + length bs) m)
        (omega (arith, length-take off m)))
    ∙ take-append n (drop lo (take off m)) (bs ++ drop (off + length bs) m)
        (omega (arith, length-take off m, length-drop lo (take off m)))
    ∙ take-drop-take n lo off m h

pub drop-poke :
    (k off : ℕ) (bs m : Memory)
    → off + length bs ≤ k
    → off ≤ length m
    → drop k (poke off bs m) ≡ drop k m
drop-poke k off bs m h g =
    drop-append_past k (take off m) (bs ++ drop (off + length bs) m)
      (omega (arith, length-take off m))
    ∙ ap (λ i. drop i (bs ++ drop (off + length bs) m)) {y = k - off}
        (omega (arith, length-take off m))
    ∙ drop-append_past (k - off) bs (drop (off + length bs) m) (omega arith)
    ∙ drop-drop (k - off - length bs) (off + length bs) m
    ∙ ap (λ i. drop i m) (omega arith)

pub peek-poke_after :
    (lo n off : ℕ) (bs m : Memory)
    → off + length bs ≤ lo
    → off ≤ length m
    → peek lo n (poke off bs m) ≡ peek lo n m
peek-poke_after lo n off bs m h k = ap (λ t. take n t) (drop-poke lo off bs m h k)

pub take-poke :
    (off : ℕ) (bs m : Memory)
    → off ≤ length m
    → take (off + length bs) (poke off bs m) ≡ take off m ++ bs
take-poke off bs m h =
    take-append_past (off + length bs) (take off m) (bs ++ drop (off + length bs) m)
      (omega (arith, length-take off m))
    ∙ ap (λ k. take off m ++ take k (bs ++ drop (off + length bs) m)) {y = length bs}
        (omega (arith, length-take off m))
    ∙ ap (λ t. take off m ++ t)
        (take-append (length bs) bs (drop (off + length bs) m) (omega arith)
          ∙ take_all (length bs) bs (omega arith))
