-- ===== src/ByteArray/Trace.antt =====
-- A client's calls of `write` and `read`, against a plain queue of bytes.
use proj.Base.{
  ℕ, ◌+◌, ◌<◌, ◌≡◌, refl, Bool, true, false, Option, some, List, [], ◌∷◌, ◌++◌, arith, inl, inr,
  Bool-cases, ltb, ltb→lt, length, take, drop, if◌then◌else◌, ◌>>=◌,
}
use proj.Base.Words.{size_mod}
use proj.ByteArray.{ByteArray, write, read}
use proj.ByteArray.Valid.{IsValid, contents, length-contents}
use proj.ByteArray.Write.{write-appends}
use proj.ByteArray.Read.{read-takes, read_short}

pub data Op : Type 0 where
  put : List ℕ → Op
  get : ℕ → Op

-- What a call returns: the flag of `read`, and the bytes.
abbrev pub Reply : Type 0
Reply = Bool × List ℕ

-- The calls on an array; `none` is a fault of one of them.
unfoldable pub run : ByteArray → List Op → Option (List Reply)
run b [] = some []
run b (Op.put src ∷ ops) = do b' ← write b src; replies ← run b' ops; some ((true, []) ∷ replies)
run b (Op.get n ∷ ops) = do
  (done, bytes, b') ← read b n
  replies ← run b' ops
  some ((done, bytes) ∷ replies)

-- The queue: bytes come out in the order in which they went in, all that are asked for or none.
unfoldable pub queue_run : List ℕ → List Op → List Reply
queue_run q [] = []
queue_run q (Op.put src ∷ ops) = (true, []) ∷ queue_run (q ++ src) ops
queue_run q (Op.get n ∷ ops) =
    let over = queue_run q ops in
    let rest = queue_run (drop n q) ops in
    if ltb (length q) n then (false, []) ∷ over else (true, take n q) ∷ rest

-- The number of bytes that the calls write.
abbrev pub volume : List Op → ℕ
volume [] = 0
volume (Op.put src ∷ ops) = length src + volume ops
volume (Op.get n ∷ ops) = volume ops

-- From a valid array no call of a sequence faults, and the replies are those of the queue of its
-- contents, as long as what is stored and what is written fit a `size_t` with one node to spare.
pub run-refines :
    (ops : List Op) (b : ByteArray)
    → IsValid b
    → b.size + volume ops + b.basesize < size_mod
    → run b ops ≡ some (queue_run (contents b) ops)
unfolding run queue_run
run-refines [] b v k = refl
run-refines (Op.put src ∷ ops) b v k =
    let (c, eq, a) = write-appends b src v (omega arith) in
    let ih = run-refines ops c a.valid (omega (arith, a.size_lem, a.same_base)) in
    rw (eq, ih, a.bytes)
run-refines (Op.get n ∷ ops) b v k = elim (Bool-cases (ltb b.size n)) [
  | inl over ↦
      let ih = run-refines ops b v k in
      rw (read_short b n (ltb→lt b.size n over), ih, length-contents b v, over)
  | inr fits ↦
      let (r, eq, t) = read-takes b n v (ground arith) in
      let ih = run-refines ops r.2 t.valid (omega (arith, t.size_lem, t.same_base)) in
      rw (eq, ih, length-contents b v, fits, t.done, t.bytes, t.rest)
]
