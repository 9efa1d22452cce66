-- ===== src/Server/Echo.antt =====
-- The bytes that `handle` of src/tcpServer.cc reads from a connection and writes back, in the rounds of
-- the inner loop of `readwrite_routine`.
use proj.Base.{
  ℕ, zero, suc, ◌+◌, ◌-◌, ◌*◌, ◌≤◌, ◌≡◌, refl, ap, ◌∙◌, Bool, true, false, Option, none, some, List,
  [], ◌∷◌, ◌++◌, append_assoc, take, drop, length, length-append, length-take, length-drop,
  take-append-drop, take_all, if◌then◌else◌, arith, Bool-cases, inl, inr,
}
use proj.Base.Text.{Text}
use proj.Server.{handle}

-- One round: what `read` and `write` return, none for -1, and whether `errno` is then `EAGAIN`.
pub record Round : Type 0 where
  pub read_ret : Option ℕ
  pub write_ret : Option ℕ
  pub again : Bool

-- What the peer sent and was not read yet, and what was written back to it.
pub record Peer : Type 0 where
  pub waiting : Text
  pub echoed : Text

-- The sizes of the answers, with 0 for -1.
abbrev pub amount : Option ℕ → ℕ
amount none = 0
amount (some n) = n

-- How many bytes a round reads, and how many it writes: `write` is called only behind a `read` that
-- returned bytes.
abbrev pub got : Round → ℕ
got r = amount r.read_ret

abbrev pub put : Round → ℕ
put r = elim (got r) [ zero ↦ 0 | suc n ↦ amount r.write_ret ]

-- `handle` on the bytes: `read` takes them from the front, and `write` gives back the first of them.
unfoldable pub handle_bytes : Round → Peer → Bool × Peer
handle_bytes r p = (
  handle r.read_ret r.write_ret r.again,
  record {
    waiting = drop (got r) p.waiting;
    echoed = p.echoed ++ take (put r) (take (got r) p.waiting);
  },
)

-- The inner loop: whether the descriptor was closed, and the connection.
unfoldable pub serve : List Round → Peer → Bool × Peer
serve [] p = (false, p)
serve (r ∷ rs) p =
    let h = handle_bytes r p in let rest = serve rs h.1 in if h.0 then (true, h.1) else rest

-- What the system's calls answer: `read` no more than there is and than the buffer holds, and `write`
-- no more than it is given.
abbrev pub IsPossible : List Round → Peer → Type 0
IsPossible [] p = Unit
IsPossible (r ∷ rs) p =
    (got r ≤ length p.waiting)
    × (got r ≤ 128 * 1024)
    × (put r ≤ got r)
    × IsPossible rs (handle_bytes r p).1

-- How many bytes were read and not written, in the rounds up to the one that ends the loop.
unfoldable pub lost : List Round → ℕ
lost [] = 0
lost (r ∷ rs) =
    let more = lost rs in
    (got r - put r) + (if handle r.read_ret r.write_ret r.again then 0 else more)

-- All bytes of a connection that can still reach the peer, in their order.
abbrev pub stream : Peer → Text
stream p = p.echoed ++ p.waiting

-- The bytes of one round add up, and stay as they are where it writes all that it read.
moved_length :
    (n m : ℕ) (xs ys : Text)
    → n ≤ length xs
    → m ≤ n
    → length ((ys ++ take m (take n xs)) ++ drop n xs) + (n - m) ≡ length (ys ++ xs)
moved_length n m xs ys h k = omega (
  arith,
  h,
  k,
  length-append (ys ++ take m (take n xs)) (drop n xs),
  length-append ys (take m (take n xs)),
  length-append ys xs,
  length-take m (take n xs),
  length-take n xs,
  length-drop n xs,
)

moved_whole : (n m : ℕ) (xs ys : Text) → m ≡ n → (ys ++ take m (take n xs)) ++ drop n xs ≡ ys ++ xs
moved_whole n m xs ys e =
    append_assoc ys (take m (take n xs)) (drop n xs)
    ∙ ap (λ t. ys ++ (t ++ drop n xs)) (take_all m (take n xs) (omega (arith, e, length-take n xs)))
    ∙ ap (λ t. ys ++ t) (take-append-drop n xs)

handle_bytes-stream :
    (r : Round) (p : Peer)
    → got r ≤ length p.waiting
    → put r ≤ got r
    → (length (stream (handle_bytes r p).1) + (got r - put r) ≡ length (stream p))
      × (got r - put r ≡ 0 → stream (handle_bytes r p).1 ≡ stream p)
unfolding handle_bytes
handle_bytes-stream r p h k = (
  moved_length (got r) (put r) p.waiting p.echoed h k,
  λ e. moved_whole (got r) (put r) p.waiting p.echoed (omega (arith, e, k)),
)

-- Whatever a connection answers, what was written back and what still waits are together shorter
-- than all that was sent by the bytes that were read and not written; where there are none, they are
-- what was sent, in its order: then the server echoes its input.
pub serve-stream :
    (rs : List Round) (p : Peer)
    → IsPossible rs p
    → (length (stream (serve rs p).1) + lost rs ≡ length (stream p))
      × (lost rs ≡ 0 → stream (serve rs p).1 ≡ stream p)
unfolding serve lost handle_bytes
serve-stream [] p h = (omega arith, λ e. refl)
serve-stream (r ∷ rs) p h =
    let one = handle_bytes-stream r p h.0 h.2 in
    let rest = serve-stream rs (handle_bytes r p).1 h.3 in
    elim (Bool-cases (handle r.read_ret r.write_ret r.again)) [
      | inl closed ↦ rw closed (omega (arith, one.0), λ e. one.1 (omega (arith, e)))
      | inr stays ↦
          rw stays (
            omega (arith, one.0, rest.0),
            λ e. rest.1 (omega (arith, e)) ∙ one.1 (omega (arith, e)),
          )
    ]
