-- ===== src/Socket/Safety.antt =====
-- The accesses of the server's loop to its buffer of MAX_MSG_SIZE bytes.
use ipc_benchmark.Prelude.{
  ℕ, suc, ◌+◌, ◌-◌, min, ◌≤◌, ◌≡◌, refl, false, Option, none, some, List, [], ◌∷◌, length, take,
  drop, length-take, arith, Bool-cases, inl, inr, le→leb,
}
use mathlib.Core.Path.{subst}
use ipc_benchmark.Memory.{Memory, copy_in, copy_out, store, load}
use ipc_benchmark.Message.{header_size, max_msg_size, get_word}
use ipc_benchmark.Message.Validation.{validate_message_decides}
use ipc_benchmark.Socket.{
  Transfer, recv, RoundCalls, Served, bad_size, server_body, server_sized, server_header,
  server_round, server_loop,
}

pub store_inside :
    (size pos : ℕ) (bytes : List ℕ) (m : Memory)
    → pos + length bytes ≤ size
    → store size pos bytes m ≡ some (copy_in pos bytes m)
unfolding store
store_inside size pos bytes m le = rw (le→leb (pos + length bytes) size le) refl

pub load_inside :
    (size pos n : ℕ) (m : Memory) → pos + n ≤ size → load size pos n m ≡ some (copy_out pos n m)
unfolding load
load_inside size pos n m le = rw (le→leb (pos + n) size le) refl

-- A size that passes the test.
pub good_size : (n : ℕ) → bad_size n ≡ false → (36 ≤ n) × (n ≤ max_msg_size)
good_size n e = (ground arith, ground arith)

-- There is no access outside of the buffer.
abbrev pub Returns : Option Served → Type 0
Returns o = (s : Served) × (o ≡ some s)

server_body-Returns :
    (calls : RoundCalls) (msg_size : ℕ) (got : Option (List ℕ)) (buffer : Memory)
    (inbound outbound : List ℕ)
    → 36 ≤ msg_size
    → msg_size ≤ max_msg_size
    → ((bytes : List ℕ) → got ≡ some bytes → header_size + length bytes ≤ max_msg_size)
    → Returns (server_body calls msg_size got buffer inbound outbound)
unfolding server_body
server_body-Returns calls msg_size none buffer inbound outbound low high fits = (_, refl)
server_body-Returns calls msg_size (some bytes) buffer inbound outbound low high fits =
    let stored = store_inside max_msg_size 32 bytes buffer (fits bytes refl) in
    let (valid, judged, _) =
      validate_message_decides max_msg_size msg_size low high (omega arith)
        (copy_in 32 bytes buffer) in
    let echoes = load_inside max_msg_size 0 msg_size (copy_in 32 bytes buffer) (omega arith) in
    rw stored (rw judged (rw echoes (_, refl)))

pub length-recv :
    (n : ℕ) (call : Transfer) (stream bytes : List ℕ)
    → recv n call stream ≡ some bytes
    → length bytes ≤ n
unfolding recv
length-recv n (Transfer.moves k) stream bytes e =
    let same : take (min (suc k) n) stream ≡ bytes = cc in
    subst (λ l. length l ≤ n) same (omega (arith, length-take (min (suc k) n) stream))
length-recv n Transfer.fails stream bytes e = cc

server_sized-Returns :
    (calls : RoundCalls) (buffer : Memory) (inbound outbound : List ℕ)
    → Returns (server_sized calls buffer inbound outbound)
unfolding server_sized
server_sized-Returns calls buffer inbound outbound =
    elim (Bool-cases (bad_size (get_word 4 buffer))) [
      | inl e ↦ rw e (_, refl)
      | inr e ↦
          let n = get_word 4 buffer in
          let (low, high) = good_size n e in
          rw e (
            server_body-Returns calls n (recv (n - 32) calls.body inbound) buffer inbound outbound
              low high
              (λ bytes got. omega (arith, length-recv (n - 32) calls.body inbound bytes got)))
    ]

server_header-Returns :
    (calls : RoundCalls) (got : Option (List ℕ)) (buffer : Memory) (inbound outbound : List ℕ)
    → ((bytes : List ℕ) → got ≡ some bytes → length bytes ≤ header_size)
    → Returns (server_header calls got buffer inbound outbound)
unfolding server_header
server_header-Returns calls none buffer inbound outbound fits = (_, refl)
server_header-Returns calls (some []) buffer inbound outbound fits = (_, refl)
server_header-Returns calls (some (b ∷ bytes)) buffer inbound outbound fits =
    rw (store_inside max_msg_size 0 (b ∷ bytes) buffer (omega (arith, fits (b ∷ bytes) refl))) (
      server_sized-Returns calls (copy_in 0 (b ∷ bytes) buffer) (drop (length (b ∷ bytes)) inbound)
        outbound)

pub server_round-Returns :
    (calls : RoundCalls) (buffer : Memory) (inbound outbound : List ℕ)
    → Returns (server_round calls buffer inbound outbound)
unfolding server_round
server_round-Returns calls buffer inbound outbound =
    server_header-Returns calls (recv header_size calls.header inbound) buffer inbound outbound
      (length-recv header_size calls.header inbound)

-- Whatever bytes come from the client, and however the calls turn out, the server's loop stays inside
-- of its buffer in every round.
pub server_loop-Returns :
    (rounds : List RoundCalls) (buffer : Memory) (inbound outbound : List ℕ)
    → Returns (server_loop rounds buffer inbound outbound)
unfolding server_loop
server_loop-Returns [] buffer inbound outbound = (_, refl)
server_loop-Returns (calls ∷ rounds) buffer inbound outbound =
    let (s, e) = server_round-Returns calls buffer inbound outbound in
    rw e (elim (Bool-cases s.goes_on) [
      | inl on ↦ rw on (server_loop-Returns rounds s.buffer s.inbound s.outbound)
      | inr off ↦ rw off (_, refl)
    ])
