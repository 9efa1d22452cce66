-- ===== src/Server/Tests.antt =====
-- A server of two tasks.
use proj.Server.Bind.{Answers, bind, close, bind_lem, succeeds}
use proj.Base.{
  ℕ, ◌⊎◌, if◌then◌else◌, ◌≡◌, refl, not, true, false, none, some, ◌==◌, List, [], ◌∷◌, ◌+◌, length,
  arith,
}
use proj.Server.{
  AddrInfo, TcpServer, Event, run, step, accept_round, serve_round, unserve, start_read_write,
  fresh,
}
use proj.Base.Text.{Text, codes, decimal}
use proj.Server.Setup.{to_string}
use proj.Server.Listen.{Outcome, Listening, init, cs_by_ip, cs_by_unix_addr, bind_ptr, listen_on}
use proj.Server.Start.{Starts, start-init}
use proj.Server.Targets.{addresses, targets}
use proj.Swap.{Endian}
use proj.Base.Memory.{Memory}
use proj.Address.Ipv4 as Ipv4
use proj.Address.Ipv4.{Pton}
use proj.Address.Unix as Unix
use proj.Server.Echo.{Round, Peer, handle_bytes, serve, lost, stream, serve-stream}
use proj.Server.Pool.{IsBalanced, run-IsBalanced}

-- Three connections come while there are two tasks; the first is closed by its peer.
abbrev script : List Event
script =
    Event.accept (some 10)
    ∷ Event.accept (some 11)
    ∷ Event.accept (some 12)
    ∷ Event.serve 1 (some 5) (some 5) false
    ∷ Event.serve 1 (some 0) none false
    ∷ Event.accept (some 12)
    ∷ []

run-IsBalanced_example :
    (u : TcpServer) × (run script (start_read_write 2 fresh) ≡ some u) × IsBalanced 2 u
run-IsBalanced_example = run-IsBalanced 2 script

ends_at :
    run script (start_read_write 2 fresh)
    ≡ some (record {
      read_write = [];
      busy = (1, 12) ∷ (0, 11) ∷ [];
      accepted = 12 ∷ 11 ∷ 10 ∷ [];
      closed = 10 ∷ [];
    })
unfolding run step accept_round serve_round unserve start_read_write
ends_at = refl

-- A peer sends five bytes; a read of all of them and a write of three, and then the end.
abbrev peer : Peer
peer = record { waiting = codes "hello"; echoed = [] }

abbrev rounds : List Round
rounds =
    (record { read_ret = some 5; write_ret = some 3; again = false })
    ∷ (record { read_ret = some 0; write_ret = none; again = false })
    ∷ []

serve-stream_example :
    (length (stream (serve rounds peer).1) + lost rounds ≡ 5)
    × (lost rounds ≡ 0 → stream (serve rounds peer).1 ≡ codes "hello")
serve-stream_example =
    serve-stream rounds peer
      (omega arith, omega arith, omega arith, (omega arith, omega arith, omega arith, tt))

-- Two bytes are gone, and the connection is closed only after the next read.
partial_write : serve rounds peer ≡ (true, record { waiting = []; echoed = codes "hel" })
unfolding serve handle_bytes
partial_write = refl

-- A socket that cannot be made non-blocking.
abbrev blocking : Answers
blocking = record { socket = some 7; set_non_block = false; bind_ok = true; listen_ok = true }

bind_lem_example :
    ((blocking.socket ≡ none) × (bind blocking (3 ∷ []) ≡ (none, 3 ∷ [])))
    ⊎ ((fd : ℕ) × (blocking.socket ≡ some fd)
        × (((succeeds blocking ≡ true) × (bind blocking (3 ∷ []) ≡ (some fd, fd ∷ 3 ∷ [])))
            ⊎ ((succeeds blocking ≡ false)
                × (bind blocking (3 ∷ [])
                    ≡ (none, (if blocking.set_non_block then 3 ∷ [] else fd ∷ 3 ∷ []))))))
bind_lem_example = bind_lem blocking (3 ∷ [])

-- Two addresses; the first socket cannot be bound.
abbrev addresses_given : List AddrInfo
addresses_given =
    (record { ip = codes "127.0.0.1"; port = 80; unix = codes "/tmp/s" })
    ∷ (record { ip = codes "0.0.0.0"; port = 8080; unix = [] })
    ∷ []

abbrev inet_pton : Text → Pton
inet_pton ip = Pton.stored (0 ∷ 0 ∷ 0 ∷ 0 ∷ [])

abbrev answers : ℕ → Memory → Answers
answers k addr = record {
  socket = some (k + 5);
  set_non_block = true;
  bind_ok = not (k == 0);
  listen_ok = true;
}

-- A server made by `new TcpServer(2)`: `m_flag` has no value.
abbrev created : Listening
created = record {
  listen_fd = [];
  flag = none;
  system = record { open_fds = 3 ∷ []; removed = []; binds = 0 };
}

start-init_example :
    Starts Endian.little inet_pton answers 2
      (addresses Endian.little inet_pton answers (targets addresses_given))
      created
      (init Endian.little inet_pton answers addresses_given created)
start-init_example = start-init Endian.little inet_pton answers 2 addresses_given created refl

-- The descriptors 6 and 7, of the path and the second IP, listen.
two_listen :
    init Endian.little inet_pton answers addresses_given created
    ≡ Outcome.done (record {
      listen_fd = 6 ∷ 7 ∷ [];
      flag = some true;
      system = record { open_fds = 7 ∷ 6 ∷ 3 ∷ []; removed = codes "/tmp/s" ∷ []; binds = 3 };
    })
unfolding init cs_by_ip cs_by_unix_addr bind_ptr listen_on Ipv4.create Unix.construct bind close
two_listen = refl

shown : to_string (record { ip = codes "::"; port = 80; unix = [] }) ≡ codes "[::]:80"
unfolding to_string decimal
shown = refl
