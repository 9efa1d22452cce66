-- ===== src/Lib.antt =====
-- tadpole: a small C++ server library (logging, configuration, timers, byte buffers, HTTP, a
-- coroutine server). This library models its own C++ code under src/ of the repository.
--
-- Base            shared notation, tests on numbers, lists, words, bits and texts.
-- Swap            src/bswap.hpp: byteswap and the conversions to big and little endian.
-- ByteArray       src/byteArray.h and src/byteArray.cc: the chained buffer. The nodes before the
--                 one written to, that node, and those after it are a zipper; m_root is the first.
--                 write and read are loops over nodes on fuel: two more than the bytes asked for,
--                 since every round but the first takes at least one byte; write-appends and read-takes show that
--                 this is enough. ByteArray.Codec holds the typed writers and readers, and
--                 ByteArray.Codec.Message a client's message of many fields.
-- Http            src/http: the tables of http_macro.h, HttpRequest and HttpResponce with the
--                 callbacks that the generated parser calls. The parser itself is a parameter: the
--                 list of events it raises for an input.
-- Log             src/log.h and src/log.cc: Level, the pattern compiler (Format), the appenders in a
--                 store by address, Logger, and LoggerMgr (Manager). strftime with the host's time
--                 zone and whether a file opens are parameters. The pattern loop runs on the length
--                 of the pattern as fuel, since every round moves its index on; a pattern is taken
--                 to be shorter than 2^31, where its length fits an int.
-- Timer           src/timer.h and src/timer.cc: Timer and TimerManagers, the set as the sequence of
--                 its addresses, the clock and what callbacks do as parameters, and the rounds of
--                 timer_routine.
-- Lock            src/mutex.h: the scoped locks, over a mutex that is a parameter. Lock.Scope is one
--                 lock's life, Lock.Exclusion the interleaved calls of many threads, with what they
--                 rely on of the system's read-write lock as the record Contract; Lock.Mutexes has Mutex,
--                 RWMutex and SpinLock.
-- Server          src/tcpServer.h and src/tcpServer.cc: the pool of tasks (m_readWrite) and the rounds
--                 of accept_routine and readwrite_routine between two yields of libco, in any order,
--                 and bind, each with what the system answers; Server.Listen has init, which may throw, and Server.Start
--                 what start makes of it; Server.Echo has the bytes of one connection.
-- Config          src/config.h and src/config.cc: variables in a store by address, their registry, and
--                 what a YAML tree sets; reading and printing YAML are parameters.
-- Thread          src/thread.h, src/thread.cc and the Semaphore of src/mutex.h and src/mutex.cc: the
--                 constructor and Thread::run as interleaved steps, and join and the destructor by what
--                 pthread returns.
-- Utils           src/utils.h and src/utils.cc.
-- Lua             src/luaRegister.h, src/luaRegister.cc, src/luaState.h and src/luaState.cc: the functions that
--                 scripts call, by what they find on the stack. The loop of getBitAmount runs on 32
--                 rounds, since each clears one of at most 32 ones. log goes through Utils and Log.
-- Address         src/address.h and src/address.cc: the classes of addresses on the bytes of their sockaddr
--                 objects, field by field at their offsets, on a host of either byte order; the system's
--                 resolver and interface list are parameters, as is what uninitialised memory holds.
--
-- Numbers are natural numbers with the wrap-around of the C++ type written out; a text is a list of
-- byte codes. A step that is undefined in C++ (a store outside an array, a shift by the width or
-- more) is none.
-- Not modelled: the vendored libraries, the C that Ragel generates, system calls, sockets and files.
pub mod Base
pub mod Swap
pub mod ByteArray
pub mod Http
pub mod Log
pub mod Timer
pub mod Lock
pub mod Server
pub mod Config
pub mod Thread
pub mod Utils
pub mod Lua
pub mod Address
