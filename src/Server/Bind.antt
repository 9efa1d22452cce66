-- ===== src/Server/Bind.antt =====
-- `TcpServer::bind` of src/tcpServer.cc behind its `assert`, by what the system's calls answer for an
-- address that was made.
use proj.Base.{
  ℕ, ◌≡◌, refl, Bool, true, false, inl, inr, ◌⊎◌, Option, none, some, List, [], ◌∷◌, ◌==◌,
  if◌then◌else◌, arith, ◌&&◌, Option-cases,
}

-- The answers of `socket`, none for -1, of `SetNonBlock`, `::bind` and `listen`, false for -1.
pub record Answers : Type 0 where
  pub socket : Option ℕ
  pub set_non_block : Bool
  pub bind_ok : Bool
  pub listen_ok : Bool

-- `close` of a descriptor among those that are open.
unfoldable pub close : ℕ → List ℕ → List ℕ
close fd [] = []
close fd (x ∷ xs) = let rest = x ∷ close fd xs in if x == fd then xs else rest

-- `bind`: the result, none for -1, and the open descriptors.
unfoldable pub bind : Answers → List ℕ → Option ℕ × List ℕ
bind a open_fds = elim a.socket [
  | none ↦ (none, open_fds)
  | some fd ↦
      let made = fd ∷ open_fds in
      if a.set_non_block
      then (if a.bind_ok
          then (if a.listen_ok then (some fd, made) else (none, close fd made))
          else (none, close fd made))
      else (none, made)
]

-- Whether the three calls on the socket all succeed.
abbrev pub succeeds : Answers → Bool
succeeds a = a.set_non_block && a.bind_ok && a.listen_ok

close_first : (fd : ℕ) (xs : List ℕ) → close fd (fd ∷ xs) ≡ xs
unfolding close
close_first fd xs = ground arith

bind_made :
    (a : Answers) (fd : ℕ) (open_fds : List ℕ)
    → a.socket ≡ some fd
    → ((succeeds a ≡ true) × (bind a open_fds ≡ (some fd, fd ∷ open_fds)))
      ⊎ ((succeeds a ≡ false)
          × (bind a open_fds ≡ (none, (if a.set_non_block then open_fds else fd ∷ open_fds))))
unfolding bind
bind_made a fd open_fds e = ground (arith, close_first fd open_fds)

-- `bind` returns a descriptor exactly if the socket is made and the three calls on it succeed, and
-- that socket is then open on top of what was. Otherwise it returns -1 and leaves open what was open
-- before, but for a socket that could not be made non-blocking, which stays open.
pub bind_lem :
    (a : Answers) (open_fds : List ℕ)
    → ((a.socket ≡ none) × (bind a open_fds ≡ (none, open_fds)))
      ⊎ ((fd : ℕ) × (a.socket ≡ some fd)
          × (((succeeds a ≡ true) × (bind a open_fds ≡ (some fd, fd ∷ open_fds)))
              ⊎ ((succeeds a ≡ false)
                  × (bind a open_fds
                      ≡ (none, (if a.set_non_block then open_fds else fd ∷ open_fds))))))
unfolding bind
bind_lem a open_fds = elim (Option-cases a.socket) [
  | inl e ↦ inl (e, rw (e, bind) refl)
  | inr (fd, e) ↦ inr (fd, e, bind_made a fd open_fds e)
]
