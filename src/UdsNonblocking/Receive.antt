-- ===== src/UdsNonblocking/Receive.antt =====
-- The reception of a whole response by run_uds_nonblocking_client of uds_nonblocking.c.
use ipc_benchmark.Prelude.{
  ℕ, ◌+◌, ◌-◌, ◌≤◌, ◌≡◌, refl, ◌∙◌, List, ◌++◌, some, length, drop, length-append, length-drop,
  arith, le→ltb_false,
}
use mathlib.Core.Path.{ap₂}
use ipc_benchmark.Memory.{Memory, copy_in}
use ipc_benchmark.Stats.{Stats, record_response}
use ipc_benchmark.Message.{header_size, max_msg_size}
use ipc_benchmark.Message.Delivery.{IsSound, IsSound-validates}
use ipc_benchmark.UdsNonblocking.{
  Answer, Outcome, read_stops, read_nonblocking, Reception, client_body, client_header,
  client_receive,
}
use ipc_benchmark.UdsNonblocking.Transfer.{Sound, moves, read_nonblocking_exact}
use ipc_benchmark.Message.Parts.{header_bytes, whole, size_read, left}

module _ {d : List ℕ} (sound : IsSound d) (rest : List ℕ) (buffer : Memory) where
  header_read :
      (header : List Answer)
      → Sound header
      → 32 ≤ moves header
      → read_nonblocking 0 header_size header buffer (d ++ rest)
        ≡ read_stops
            (Outcome.finished 32)
            (copy_in 0 (header_bytes d rest) buffer)
            (drop 32 (d ++ rest))
  header_read header ok few =
      read_nonblocking_exact 0 32 header buffer (d ++ rest) ok few
        (omega (arith, length-append d rest, sound.long))

  body_read :
      (body : List Answer)
      → Sound body
      → length d ≤ 32 + moves body
      → read_nonblocking header_size
          (length d - header_size)
          body
          (copy_in 0 (header_bytes d rest) buffer)
          (drop 32 (d ++ rest))
        ≡ read_stops (Outcome.finished (length d - 32)) (copy_in 0 d buffer) rest
  body_read body ok few =
      read_nonblocking_exact 32 (length d - 32) body (copy_in 0 (header_bytes d rest) buffer)
        (drop 32 (d ++ rest)) ok (omega arith)
        (omega (arith, length-drop 32 (d ++ rest), length-append d rest, sound.long))
      ∙ ap₂ (λ m l. read_stops (Outcome.finished (length d - 32)) m l) (whole sound rest buffer)
          (left sound rest buffer)

  -- Where a whole valid message stands in front of the stream, and no call fails, the client reads
  -- exactly this message into its buffer, whatever the pieces in which header and body come, counts
  -- it once, and leaves the stream behind it.
  pub client_receive_whole :
      (now : ℕ) (header body : List Answer) (stats : Stats)
      → Sound header
      → 32 ≤ moves header
      → Sound body
      → length d ≤ 32 + moves body
      → client_receive now header body buffer (d ++ rest) stats
        ≡ some (
            Reception.counted
              (copy_in 0 d buffer)
              rest
              (record_response now (length d) (copy_in 0 d buffer) stats))
  unfolding client_receive client_header client_body
  client_receive_whole now header body stats ok few ok' few' = rw (header_read header ok few) (
      rw (size_read sound rest buffer) (
        rw (le→ltb_false (length d) 36 sound.long) (
          rw (le→ltb_false max_msg_size (length d) (omega (arith, sound.short)))
            (rw (body_read body ok' few') (rw (IsSound-validates sound buffer) refl)))))
