-- ===== src/LfshmBlocking/Phase.antt =====
-- The phases of an exchange of lfshm_blocking.c: who has the message, and where the two processes
-- stand. Each may lag behind in its signalling while the other goes on.
use ipc_benchmark.Prelude.{ℕ, ◌≤◌, ◌≡◌, List, [], ◌∷◌, Bool, true, false, length}
use mathlib.Core.Path.{subst}
use ipc_benchmark.Prelude.Word.{u32_mod}
use ipc_benchmark.Memory.{Memory, copy_in, copy_out}
use ipc_benchmark.Message.Validation.{IsMessage}
use ipc_benchmark.Message.Delivery.{IsSound}
use ipc_benchmark.Ring.{Ring}
use ipc_benchmark.Ring.IsQueue.{IsQueue}
use ipc_benchmark.Futex.{WaitPc, SignalPc}
use ipc_benchmark.Futex.Channel.{Stage}
use ipc_benchmark.LfshmBlocking.{ServerPc, ClientPc}

pub record Holding (ring : Ring) (q : List (List ℕ)) : Type 0 where
  pub queue : IsQueue u32_mod ring q
  pub large : 16384 ≤ ring.size

pub record IsPrepared (m : Memory) : Type 0 where
  pub total : ℕ
  pub long : 36 ≤ total
  pub short : total ≤ 4131
  pub message : IsMessage m total

-- The message came from the client's buffer, and still stands there.
pub record Travels (m : Memory) (d : List ℕ) : Type 0 where
  pub sound : IsSound d
  pub sent : copy_out 0 (length d) m ≡ d

-- `d` was read into the buffer.
pub record Landed (m : Memory) (d : List ℕ) : Type 0 where
  pub before : Memory
  pub lands : m ≡ copy_in 0 d before

-- The server waits for a message, or has still to wake the client for the last one.
abbrev pub ServerLate : ServerPc → Type 0
ServerLate (ServerPc.waiting p) = Unit
ServerLate (ServerPc.clearing size) = ⊥
ServerLate (ServerPc.writing size) = ⊥
ServerLate (ServerPc.signalling SignalPc.set_flag) = ⊥
ServerLate (ServerPc.signalling SignalPc.add_one) = Unit
ServerLate (ServerPc.signalling SignalPc.wake) = Unit

-- The client waits for a response, or has still to wake the server.
abbrev pub ClientLate : ClientPc → Type 0
ClientLate ClientPc.top = ⊥
ClientLate ClientPc.writing = ⊥
ClientLate (ClientPc.signalling SignalPc.set_flag) = ⊥
ClientLate (ClientPc.signalling SignalPc.add_one) = Unit
ClientLate (ClientPc.signalling SignalPc.wake) = Unit
ClientLate ClientPc.checking_ready = Unit
ClientLate (ClientPc.waiting p) = Unit
ClientLate (ClientPc.clearing size) = ⊥
ClientLate ClientPc.stopped = ⊥

-- The client is between two rounds.
abbrev pub ClientBetween : ClientPc → Memory → Type 0
ClientBetween ClientPc.top m = Unit
ClientBetween ClientPc.writing m = IsPrepared m
ClientBetween (ClientPc.signalling p) m = ⊥
ClientBetween ClientPc.checking_ready m = ⊥
ClientBetween (ClientPc.waiting p) m = ⊥
ClientBetween (ClientPc.clearing size) m = ⊥
ClientBetween ClientPc.stopped m = Unit

pub data Phase (ring : Ring) (message response : Bool) (server : ServerPc) (sb : Memory)
    (client : ClientPc) (cb : Memory) : Type 0 where
  idle :
      Holding ring []
      → message ≡ false
      → response ≡ false
      → ClientBetween client cb
      → ServerLate server
      → Phase ring message response server sb client cb
  posting :
      (d : List ℕ)
      → Travels cb d
      → Holding ring (d ∷ [])
      → message ≡ false
      → response ≡ false
      → client ≡ ClientPc.signalling SignalPc.set_flag
      → ServerLate server
      → Phase ring message response server sb client cb
  requested :
      (d : List ℕ)
      → Travels cb d
      → Holding ring (d ∷ [])
      → message ≡ true
      → response ≡ false
      → ClientLate client
      → ServerLate server
      → Phase ring message response server sb client cb
  taken :
      (d : List ℕ)
      → Travels cb d
      → Holding ring []
      → message ≡ true
      → response ≡ false
      → ClientLate client
      → server ≡ ServerPc.clearing (length d)
      → Landed sb d
      → Phase ring message response server sb client cb
  serving :
      (d : List ℕ)
      → Travels cb d
      → Holding ring []
      → message ≡ false
      → response ≡ false
      → ClientLate client
      → server ≡ ServerPc.writing (length d)
      → Landed sb d
      → Phase ring message response server sb client cb
  replying :
      (d : List ℕ)
      → Travels cb d
      → Holding ring (d ∷ [])
      → message ≡ false
      → response ≡ false
      → ClientLate client
      → server ≡ ServerPc.signalling SignalPc.set_flag
      → Phase ring message response server sb client cb
  answered :
      (d : List ℕ)
      → Travels cb d
      → Holding ring (d ∷ [])
      → message ≡ false
      → response ≡ true
      → ClientLate client
      → ServerLate server
      → Phase ring message response server sb client cb
  received :
      (d : List ℕ)
      → Travels cb d
      → Holding ring []
      → message ≡ false
      → response ≡ true
      → client ≡ ClientPc.clearing (length d)
      → Landed cb d
      → ServerLate server
      → Phase ring message response server sb client cb

-- A server that lags or waits may move on within that.
pub server_moves :
    {ring : Ring} {m r : Bool} {s s' : ServerPc} {sb : Memory} {c : ClientPc} {cb : Memory}
    → ServerLate s
    → ServerLate s'
    → Phase ring m r s sb c cb
    → Phase ring m r s' sb c cb
server_moves l l' (idle h fm fr c s) = idle h fm fr c l'
server_moves l l' (posting d t h fm fr c s) = posting d t h fm fr c l'
server_moves l l' (requested d t h fm fr c s) = requested d t h fm fr c l'
server_moves l l' (taken d t h fm fr c s b) = absurd (subst ServerLate s l)
server_moves l l' (serving d t h fm fr c s b) = absurd (subst ServerLate s l)
server_moves l l' (replying d t h fm fr c s) = absurd (subst ServerLate s l)
server_moves l l' (answered d t h fm fr c s) = answered d t h fm fr c l'
server_moves l l' (received d t h fm fr c b s) = received d t h fm fr c b l'

pub not_between : (c : ClientPc) (m : Memory) → ClientBetween c m → ClientLate c → ⊥
not_between ClientPc.top m b l = l
not_between ClientPc.writing m b l = l
not_between (ClientPc.signalling p) m b l = b
not_between ClientPc.checking_ready m b l = b
not_between (ClientPc.waiting p) m b l = b
not_between (ClientPc.clearing size) m b l = b
not_between ClientPc.stopped m b l = l

-- So may the client.
pub client_moves :
    {ring : Ring} {m r : Bool} {s : ServerPc} {sb : Memory} {c c' : ClientPc} {cb : Memory}
    → ClientLate c
    → ClientLate c'
    → Phase ring m r s sb c cb
    → Phase ring m r s sb c' cb
client_moves {c = c} {cb = cb} l l' (idle h fm fr b s) = absurd (not_between c cb b l)
client_moves l l' (posting d t h fm fr c s) = absurd (subst ClientLate c l)
client_moves l l' (requested d t h fm fr c s) = requested d t h fm fr l' s
client_moves l l' (taken d t h fm fr c s b) = taken d t h fm fr l' s b
client_moves l l' (serving d t h fm fr c s b) = serving d t h fm fr l' s b
client_moves l l' (replying d t h fm fr c s) = replying d t h fm fr l' s
client_moves l l' (answered d t h fm fr c s) = answered d t h fm fr l' s
client_moves l l' (received d t h fm fr c b s) = absurd (subst ClientLate c l)

abbrev pub server_wait : ServerPc → WaitPc
server_wait (ServerPc.waiting p) = p
server_wait (ServerPc.clearing size) = WaitPc.check
server_wait (ServerPc.writing size) = WaitPc.check
server_wait (ServerPc.signalling p) = WaitPc.check

abbrev pub client_wait : ClientPc → WaitPc
client_wait ClientPc.top = WaitPc.check
client_wait ClientPc.writing = WaitPc.check
client_wait (ClientPc.signalling p) = WaitPc.check
client_wait ClientPc.checking_ready = WaitPc.check
client_wait (ClientPc.waiting p) = p
client_wait (ClientPc.clearing size) = WaitPc.check
client_wait ClientPc.stopped = WaitPc.check

abbrev pub signal_stage : SignalPc → Stage
signal_stage SignalPc.set_flag = Stage.quiet
signal_stage SignalPc.add_one = Stage.pending
signal_stage SignalPc.wake = Stage.bumped

abbrev pub server_stage : ServerPc → Stage
server_stage (ServerPc.waiting p) = Stage.quiet
server_stage (ServerPc.clearing size) = Stage.quiet
server_stage (ServerPc.writing size) = Stage.quiet
server_stage (ServerPc.signalling p) = signal_stage p

abbrev pub client_stage : ClientPc → Stage
client_stage ClientPc.top = Stage.quiet
client_stage ClientPc.writing = Stage.quiet
client_stage (ClientPc.signalling p) = signal_stage p
client_stage ClientPc.checking_ready = Stage.quiet
client_stage (ClientPc.waiting p) = Stage.quiet
client_stage (ClientPc.clearing size) = Stage.quiet
client_stage ClientPc.stopped = Stage.quiet
