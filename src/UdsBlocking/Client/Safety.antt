-- ===== src/UdsBlocking/Client/Safety.antt =====
-- The accesses of `run_uds_blocking_client` to its buffer and to its array of latencies.
use ipc_benchmark.Prelude.{
  ℕ, ◌+◌, ◌-◌, ◌≤◌, ◌≡◌, refl, ap, Bool, true, false, Option, none, some, ◌>>=◌, List, [], ◌∷◌,
  ◌++◌, length, drop, arith, Bool-cases, inl, inr,
}
use ipc_benchmark.Memory.{Memory, copy_in}
use ipc_benchmark.Stats.{Stats, max_latencies, record_response, record_response_latencies}
use ipc_benchmark.Message.{header_size, max_msg_size, get_word}
use ipc_benchmark.Message.Validation.{validate_message_decides}
use ipc_benchmark.Message.Delivery.{prepared-IsMessage}
use ipc_benchmark.Socket.{Transfer, recv, send, bad_size}
use ipc_benchmark.Socket.Safety.{store_inside, load_inside, good_size, length-recv}
use ipc_benchmark.UdsBlocking.{
  client_prepare, client_sent, client_send, Reception, client_body, client_sized, client_header,
  client_receive,
}
use ipc_benchmark.UdsBlocking.Client.{
  Client, ClientRound, after_reception, client_answered, client_round, client_loop,
}

abbrev pub Few : Stats → Type 0
Few stats = length stats.latencies ≤ max_latencies

abbrev FewAfter : Reception → Type 0
FewAfter Reception.leaves = Unit
FewAfter (Reception.counted buffer stream stats) = Few stats

-- The reception stays inside of the buffer, and keeps the number of latencies in bounds.
abbrev Receives : Option Reception → Type 0
Receives o = (r : Reception) × (o ≡ some r) × FewAfter r

module _ (now : ℕ) (stats : Stats) (few : Few stats) where
  client_body-Receives :
      (msg_size : ℕ) (got : Option (List ℕ)) (buffer : Memory) (stream : List ℕ)
      → 36 ≤ msg_size
      → msg_size ≤ max_msg_size
      → ((bytes : List ℕ) → got ≡ some bytes → header_size + length bytes ≤ max_msg_size)
      → Receives (client_body now msg_size got buffer stream stats)
  unfolding client_body
  client_body-Receives msg_size none buffer stream low high fits = (_, refl, tt)
  client_body-Receives msg_size (some bytes) buffer stream low high fits =
      let stored = store_inside max_msg_size 32 bytes buffer (fits bytes refl) in
      let buffer' = copy_in 32 bytes buffer in
      let (valid, judged, _) =
        validate_message_decides max_msg_size msg_size low high (omega arith) buffer' in
      rw stored (
        rw judged (
          Reception.counted buffer' (drop (length bytes) stream)
              (record_response now msg_size buffer' stats),
          refl,
          record_response_latencies now msg_size buffer' stats few,
        ))

  client_sized-Receives :
      (body : Transfer) (buffer : Memory) (stream : List ℕ)
      → Receives (client_sized now body buffer stream stats)
  unfolding client_sized
  client_sized-Receives body buffer stream = elim (Bool-cases (bad_size (get_word 4 buffer))) [
    | inl e ↦ rw e (Reception.leaves, refl, tt)
    | inr e ↦
        let n = get_word 4 buffer in
        let (low, high) = good_size n e in
        rw e (
          client_body-Receives n (recv (n - 32) body stream) buffer stream low high
            (λ bytes got. omega (arith, length-recv (n - 32) body stream bytes got)))
  ]

  client_header-Receives :
      (body : Transfer) (got : Option (List ℕ)) (buffer : Memory) (stream : List ℕ)
      → ((bytes : List ℕ) → got ≡ some bytes → length bytes ≤ header_size)
      → Receives (client_header now body got buffer stream stats)
  unfolding client_header
  client_header-Receives body none buffer stream fits = (_, refl, tt)
  client_header-Receives body (some []) buffer stream fits = (_, refl, tt)
  client_header-Receives body (some (b ∷ bytes)) buffer stream fits =
      rw (store_inside max_msg_size 0 (b ∷ bytes) buffer (omega (arith, fits (b ∷ bytes) refl))) (
        client_sized-Receives body (copy_in 0 (b ∷ bytes) buffer)
          (drop (length (b ∷ bytes)) stream))

  client_receive-Receives :
      (header body : Transfer) (buffer : Memory) (stream : List ℕ)
      → Receives (client_receive now header body buffer stream stats)
  unfolding client_receive
  client_receive-Receives header body buffer stream =
      client_header-Receives body (recv header_size header stream) buffer stream
        (length-recv header_size header stream)

-- The message that the client sends is inside of its buffer.
client_send-Returns :
    (random now now' : ℕ) (call : Transfer) (buffer : Memory) (stream : List ℕ)
    → (r : Bool × List ℕ) × (client_send call (client_prepare random now now' buffer) stream
        ≡ some r)
unfolding client_send client_prepare
client_send-Returns random now now' call buffer stream =
    let (total, low, high, message) = prepared-IsMessage random now now' buffer in
    let prepared = client_prepare random now now' buffer in
    let n = get_word 4 prepared in
    (
      _,
      ap (λ o. o >>= λ bytes. some (client_sent n (send bytes call) stream))
          (load_inside max_msg_size 0 n prepared (omega (arith, message.sized, high))),
    )

-- The client after some rounds.
abbrev Goes : Option (Bool × Client) → Type 0
Goes o = (r : Bool × Client) × (o ≡ some r) × Few r.1.stats

after_reception-Few :
    (r : Reception) (c : Client) → Few c.stats → FewAfter r → Few (after_reception r c).1.stats
after_reception-Few Reception.leaves c few after = few
after_reception-Few (Reception.counted buffer stream stats) c few after = after

client_answered-Goes :
    (t : ClientRound) (goes_on : Bool) (c : Client)
    → Few c.stats
    → Goes (client_answered t goes_on c)
unfolding client_answered
client_answered-Goes t false c few = (_, refl, few)
client_answered-Goes t true c few =
    let (r, e, after) =
      client_receive-Receives t.done c.stats few t.header t.body c.buffer c.inbound in
    rw e (after_reception r c, refl, after_reception-Few r c few after)

client_round-Goes : (t : ClientRound) (c : Client) → Few c.stats → Goes (client_round t c)
unfolding client_round
client_round-Goes t c few =
    let ((goes_on, outbound), e) =
      client_send-Returns t.random t.now t.now' t.sends c.buffer c.outbound in
    rw e (
      client_answered-Goes t goes_on
        (record c {
          buffer = client_prepare t.random t.now t.now' c.buffer;
          inbound = c.inbound ++ t.arrives;
          outbound = outbound;
        })
        few)

pub client_loop-Few :
    (rounds : List ClientRound) (c : Client)
    → Few c.stats
    → (c' : Client) × (client_loop rounds c ≡ some c') × Few c'.stats
unfolding client_loop
client_loop-Few [] c few = (c, refl, few)
client_loop-Few (t ∷ rounds) c few =
    let ((goes_on, c'), e, few') = client_round-Goes t c few in
    rw e (elim (Bool-cases goes_on) [
      | inl on ↦ rw on (client_loop-Few rounds c' few')
      | inr off ↦ rw off (c', refl, few')
    ])
