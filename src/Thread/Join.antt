-- ===== src/Thread/Join.antt =====
-- `Thread::join` and the destructor of src/thread.cc, by what `pthread_join` and `pthread_detach`
-- return.
use proj.Base.{
  ℕ, ◌-◌, ◌^◌, ◌≡◌, ◌≢◌, refl, Bool, true, false, not, List, [], ◌∷◌, ◌++◌, ◌==◌, if◌then◌else◌,
  arith, inl, inr, ◌⊎◌, ◌∙◌, ap, append_assoc,
}

-- The `int` -1.
abbrev pub minus_one : ℕ
minus_one = 2 ^ 32 - 1

-- A call of `pthread_join` or of `pthread_detach`, with the thread and what it returned.
pub data Call : Type 0 where
  pthread_join pthread_detach : (thread ret : ℕ) → Call

-- `m_thread`, with 0 for none, and the calls so far.
pub record Handle : Type 0 where
  pub thread : ℕ
  pub calls : List Call

-- `join`, where the call returns `ret`: whether it throws, and the object.
unfoldable pub join : ℕ → Handle → Bool × Handle
join ret h =
    let called : Handle = record h { calls = h.calls ++ Call.pthread_join h.thread ret ∷ [] } in
    if not (h.thread == 0)
    then (if ret == minus_one then (true, called) else (false, record called { thread = 0 }))
    else (false, h)

-- The destructor, where the call returns `ret`; it only logs a failure.
unfoldable pub destroy : ℕ → Handle → Handle
destroy ret h =
    if not (h.thread == 0)
    then record h { calls = h.calls ++ Call.pthread_detach h.thread ret ∷ [] }
    else h

-- Calls of `join`, whose exceptions are caught, and then the destructor.
unfoldable pub life : List ℕ → ℕ → Handle → Handle
life [] ret h = destroy ret h
life (r ∷ rs) ret h = life rs ret (join r h).1

-- What is called, said without the state: a join for every -1 and the first other result, or the
-- detachment where there is none.
abbrev pub expected : ℕ → List ℕ → ℕ → List Call
expected t [] ret = Call.pthread_detach t ret ∷ []
expected t (r ∷ rs) ret =
    let more = expected t rs ret in Call.pthread_join t r ∷ (if r == minus_one then more else [])

-- The object behind a call of `join` on a thread that returned `r`.
abbrev joined : ℕ → Handle → Handle
joined r h = record h { calls = h.calls ++ Call.pthread_join h.thread r ∷ [] }

-- The object without a thread.
abbrev empty : List Call → Handle
empty calls = record { thread = 0; calls = calls }

join-cases :
    (r : ℕ) (h : Handle)
    → h.thread ≢ 0
    → (((r == minus_one) ≡ true) × (join r h ≡ (true, joined r h)))
      ⊎ (((r == minus_one) ≡ false) × (join r h ≡ (false, empty (joined r h).calls)))
unfolding join
join-cases r h run = ground (arith, run)

destroy-calls :
    (ret : ℕ) (h : Handle)
    → h.thread ≢ 0
    → (destroy ret h).calls ≡ h.calls ++ Call.pthread_detach h.thread ret ∷ []
unfolding destroy
destroy-calls ret h run = ground (arith, run)

over : (rets : List ℕ) (ret : ℕ) (calls : List Call) → life rets ret (empty calls) ≡ empty calls
unfolding life destroy join
over [] ret calls = refl
over (r ∷ rs) ret calls = over rs ret calls

-- On a thread that runs, joins and the destructor call the system for that thread alone: one join
-- for each that returned -1 and threw, and for the first that returned anything else, an error or
-- not, and nothing after it; the destructor detaches the thread only where every join threw.
pub life-expected :
    (rets : List ℕ) (ret : ℕ) (h : Handle)
    → h.thread ≢ 0
    → (life rets ret h).calls ≡ h.calls ++ expected h.thread rets ret
unfolding life
life-expected [] ret h run = destroy-calls ret h run
life-expected (r ∷ rs) ret h run = elim (join-cases r h run) [
  | inl (failed, e) ↦
      ap (λ (j : Bool × Handle). (life rs ret j.1).calls) e
      ∙ rw failed (
          life-expected rs ret (joined r h) run
          ∙ append_assoc h.calls (Call.pthread_join h.thread r ∷ []) (expected h.thread rs ret))
  | inr (done, e) ↦
      ap (λ (j : Bool × Handle). (life rs ret j.1).calls) e
      ∙ rw done (ap (λ (k : Handle). k.calls) (over rs ret (joined r h).calls))
]
