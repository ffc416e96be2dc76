-- ===== src/UdsBlocking/Receive.antt =====
-- The client's calls where none is cut short, and its accesses to its buffer.
use ipc_benchmark.Prelude.{
  ℕ, ◌+◌, ◌-◌, ◌≤◌, ◌≡◌, refl, ap, true, Option, none, some, List, [], ◌∷◌, ◌++◌, ==_iff, length,
  drop, arith, Bool-cases, inl, inr,
}
use ipc_benchmark.Memory.{Memory, copy_in, copy_out}
use ipc_benchmark.Stats.{Stats, record_response}
use ipc_benchmark.Message.{header_size, max_msg_size, get_word}
use ipc_benchmark.Message.Validation.{validate_message_decides}
use ipc_benchmark.Message.Delivery.{IsSound, IsSound-validates}
use ipc_benchmark.Message.Parts.{
  header_bytes, body_bytes, length-header_bytes, length-body_bytes, whole, size_read, left,
}
use ipc_benchmark.Socket.{Transfer, recv, bad_size}
use ipc_benchmark.Socket.Safety.{store_inside, load_inside, good_size, length-recv}
use ipc_benchmark.Socket.Echo.{Moves, Moves-le, recv_all, send_all, sized}
use ipc_benchmark.UdsBlocking.{
  client_send, client_sent, Reception, client_body, client_sized, client_header, client_receive,
}

pub client_send_all :
    (d stream : List ℕ) (buffer : Memory) (call : Transfer)
    → get_word 4 buffer ≡ length d
    → copy_out 0 (length d) buffer ≡ d
    → length d ≤ max_msg_size
    → Moves 131072 call
    → client_send call buffer stream ≡ some (true, stream ++ d)
unfolding client_send client_sent
client_send_all d stream buffer call size stands fits all =
    rw
      (
        size,
        load_inside max_msg_size 0 (length d) buffer (omega arith),
        stands,
        send_all d call (Moves-le (length d) 131072 call fits all),
        (==_iff (length d) (length d)).1 refl,
      )
      refl

client_header-some :
    (now : ℕ) (body : Transfer) (bytes : List ℕ) (buffer : Memory) (stream : List ℕ) (stats : Stats)
    → length bytes ≡ 32
    → client_header now body (some bytes) buffer stream stats
      ≡ client_sized now body (copy_in 0 bytes buffer) (drop 32 stream) stats
unfolding client_header
client_header-some now body [] buffer stream stats e = absurd (omega arith)
client_header-some now body (b ∷ bytes) buffer stream stats e =
    rw (store_inside max_msg_size 0 (b ∷ bytes) buffer (omega arith))
      (ap (λ n. client_sized now body (copy_in 0 (b ∷ bytes) buffer) (drop n stream) stats) e)

-- A response in front of the stream is read into the buffer and counted once, where no call is cut
-- short.
pub client_receive_all :
    {d : List ℕ}
    → IsSound d
    → (rest : List ℕ) (buffer : Memory) (now : ℕ) (header body : Transfer) (stats : Stats)
    → Moves 32 header
    → Moves 131072 body
    → client_receive now header body buffer (d ++ rest) stats
      ≡ some (
          Reception.counted
            (copy_in 0 d buffer)
            rest
            (record_response now (length d) (copy_in 0 d buffer) stats))
unfolding client_receive client_sized client_body
client_receive_all {d = d} sound rest buffer now header body stats h b =
    let first = header_bytes d rest in
    let later = body_bytes d rest in
    let all_body = Moves-le (length d - 32) 131072 body (omega (arith, sound.short)) b in
    rw
      (
        recv_all 32 header (d ++ rest) h,
        client_header-some now body first buffer (d ++ rest) stats
            (length-header_bytes sound rest buffer),
        size_read sound rest buffer,
        sized sound rest buffer,
        recv_all (length d - 32) body (drop 32 (d ++ rest)) all_body,
        store_inside max_msg_size 32 later (copy_in 0 first buffer)
            (omega (arith, length-body_bytes sound rest buffer, sound.short)),
        whole sound rest buffer,
        IsSound-validates sound buffer,
        length-body_bytes sound rest buffer,
        left sound rest buffer,
      )
      refl

-- There is no access outside of the buffer.
abbrev pub Returns : Option Reception → Type 0
Returns o = (r : Reception) × (o ≡ some r)

client_body-Returns :
    (now msg_size : ℕ) (got : Option (List ℕ)) (buffer : Memory) (stream : List ℕ) (stats : Stats)
    → 36 ≤ msg_size
    → msg_size ≤ max_msg_size
    → ((bytes : List ℕ) → got ≡ some bytes → header_size + length bytes ≤ max_msg_size)
    → Returns (client_body now msg_size got buffer stream stats)
unfolding client_body
client_body-Returns now msg_size none buffer stream stats low high fits = (_, refl)
client_body-Returns now msg_size (some bytes) buffer stream stats low high fits =
    let (valid, judged, _) =
      validate_message_decides max_msg_size msg_size low high (omega arith)
        (copy_in 32 bytes buffer) in
    rw (store_inside max_msg_size 32 bytes buffer (fits bytes refl), judged) (_, refl)

client_sized-Returns :
    (now : ℕ) (body : Transfer) (buffer : Memory) (stream : List ℕ) (stats : Stats)
    → Returns (client_sized now body buffer stream stats)
unfolding client_sized
client_sized-Returns now body buffer stream stats =
    elim (Bool-cases (bad_size (get_word 4 buffer))) [
      | inl e ↦ rw e (_, refl)
      | inr e ↦
          let n = get_word 4 buffer in
          let (low, high) = good_size n e in
          rw e (
            client_body-Returns now n (recv (n - 32) body stream) buffer stream stats low high
              (λ bytes got. omega (arith, length-recv (n - 32) body stream bytes got)))
    ]

client_header-Returns :
    (now : ℕ) (body : Transfer) (got : Option (List ℕ)) (buffer : Memory) (stream : List ℕ)
    (stats : Stats)
    → ((bytes : List ℕ) → got ≡ some bytes → length bytes ≤ header_size)
    → Returns (client_header now body got buffer stream stats)
unfolding client_header
client_header-Returns now body none buffer stream stats fits = (_, refl)
client_header-Returns now body (some []) buffer stream stats fits = (_, refl)
client_header-Returns now body (some (b ∷ bytes)) buffer stream stats fits =
    rw (store_inside max_msg_size 0 (b ∷ bytes) buffer (omega (arith, fits (b ∷ bytes) refl))) (
      client_sized-Returns now body (copy_in 0 (b ∷ bytes) buffer)
        (drop (length (b ∷ bytes)) stream) stats)

-- Whatever bytes come from the server, and however the calls turn out, the client stays inside of its
-- buffer.
pub client_receive-Returns :
    (now : ℕ) (header body : Transfer) (buffer : Memory) (stream : List ℕ) (stats : Stats)
    → Returns (client_receive now header body buffer stream stats)
unfolding client_receive
client_receive-Returns now header body buffer stream stats =
    client_header-Returns now body (recv header_size header stream) buffer stream stats
      (length-recv header_size header stream)
