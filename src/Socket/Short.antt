-- ===== src/Socket/Short.antt =====
-- A round of the server in which the `recv` of a body is cut short.
use ipc_benchmark.Prelude.{
  ℕ, zero, suc, ◌+◌, ◌-◌, min, ◌≤◌, ◌<◌, ◌≡◌, refl, ap, ◌∙◌, true, some, List, [], ◌∷◌, ◌++◌,
  length, take, drop, length-append, length-take, length-drop, take_split, drop_split, arith,
  ==_iff,
}
use ipc_benchmark.Memory.{Memory, copy_in, copy_out}
use ipc_benchmark.Memory.Region.{length-copy_out, copy_in-append}
use ipc_benchmark.Message.{max_msg_size}
use ipc_benchmark.Message.Validation.{validate_message_decides}
use ipc_benchmark.Message.Delivery.{IsSound}
use ipc_benchmark.Message.Parts.{header_bytes, length-header_bytes, size_read}
use ipc_benchmark.Socket.{
  Transfer, recv, RoundCalls, server_sent, server_body, server_sized, server_round,
}
use ipc_benchmark.Socket.Echo.{Moves, Moves-le, recv_all, send_all, server_header-some, sized}
use ipc_benchmark.Socket.Safety.{store_inside, load_inside}

drop-append_le : (n : ℕ) (xs ys : List ℕ) → n ≤ length xs → drop n (xs ++ ys) ≡ drop n xs ++ ys
drop-append_le zero xs ys le = refl
drop-append_le (suc n) [] ys le = absurd (omega arith)
drop-append_le (suc n) (x ∷ xs) ys le = drop-append_le n xs ys (omega arith)

take-append_le : (n : ℕ) (xs ys : List ℕ) → n ≤ length xs → take n (xs ++ ys) ≡ take n xs
take-append_le zero xs ys le = refl
take-append_le (suc n) [] ys le = absurd (omega arith)
take-append_le (suc n) (x ∷ xs) ys le = ap (λ l. x ∷ l) (take-append_le n xs ys (omega arith))

module _ {d : List ℕ} (sound : IsSound d) (rest : List ℕ) (buffer : Memory) (j : ℕ)
    (short : 33 + j < length d) where
  place : 32 + suc j ≡ 33 + j
  place = omega arith

  cut : List ℕ
  cut = take (suc j) (drop 32 (d ++ rest))

  length-cut : length cut ≡ suc j
  unfolding cut
  length-cut = omega (
    arith,
    length-take (suc j) (drop 32 (d ++ rest)),
    length-drop 32 (d ++ rest),
    length-append d rest,
  )

  cut_lands :
      copy_in 32 cut (copy_in 0 (header_bytes d rest) buffer) ≡ copy_in 0 (take (33 + j) d) buffer
  unfolding cut
  cut_lands =
      let start : 32 ≡ 0 + length (header_bytes d rest) =
        omega (arith, length-header_bytes sound rest buffer) in
      ap (λ p. copy_in p cut (copy_in 0 (header_bytes d rest) buffer)) start
      ∙ copy_in-append 0 (header_bytes d rest) cut buffer
      ∙ ap (λ l. copy_in 0 l buffer)
          (take_split 32 (suc j) (d ++ rest)
            ∙ ap (λ n. take n (d ++ rest)) place
            ∙ take-append_le (33 + j) d rest (omega arith))

  recv-cut : recv (length d - 32) (Transfer.moves j) (drop 32 (d ++ rest)) ≡ some cut
  unfolding recv cut
  recv-cut =
      let bound : min (suc j) (length d - 32) ≡ suc j = omega arith in
      ap (λ n. some (take n (drop 32 (d ++ rest)))) bound

  left_cut : drop (length cut) (drop 32 (d ++ rest)) ≡ drop (33 + j) d ++ rest
  left_cut = rw length-cut (
      drop_split 32 (suc j) (d ++ rest)
      ∙ ap (λ n. drop n (d ++ rest)) place
      ∙ drop-append_le (33 + j) d rest (omega arith))

  -- Where the `recv` of a message's body brings only a part of it, the server goes on: its answer has the
  -- length of the message, with what the buffer held before in place of the missing bytes, and its next
  -- header is read from the middle of the message.
  pub server_round_short :
      (header reply : Transfer) (outbound : List ℕ)
      → Moves 32 header
      → Moves 131072 reply
      → let buffer' = copy_in 0 (take (33 + j) d) buffer in
        server_round
          (record { header = header; body = Transfer.moves j; reply = reply })
          buffer
          (d ++ rest)
          outbound
        ≡ some (record {
          goes_on = true;
          buffer = buffer';
          inbound = drop (33 + j) d ++ rest;
          outbound = outbound ++ copy_out 0 (length d) buffer';
        })
  unfolding server_round server_sized server_body server_sent
  server_round_short header reply outbound h r =
      let fits : length d ≤ max_msg_size = omega (arith, sound.short) in
      let buffer' = copy_in 0 (take (33 + j) d) buffer in
      let (valid, judged, _) =
        validate_message_decides max_msg_size (length d) sound.long fits (omega arith) buffer' in
      let echo = copy_out 0 (length d) buffer' in
      let counted = length-copy_out 0 (length d) buffer' in
      let all_reply = Moves-le (length echo) 131072 reply (omega (arith, counted)) r in
      let calls : RoundCalls = record { header = header; body = Transfer.moves j; reply = reply } in
      rw
        (
          recv_all 32 header (d ++ rest) h,
          server_header-some calls (header_bytes d rest) buffer (d ++ rest) outbound
              (length-header_bytes sound rest buffer),
          size_read sound rest buffer,
          sized sound rest buffer,
          recv-cut,
          store_inside max_msg_size 32 cut (copy_in 0 (header_bytes d rest) buffer)
              (omega (arith, length-cut)),
          cut_lands,
          judged,
          load_inside max_msg_size 0 (length d) buffer' (omega arith),
          send_all echo reply all_reply,
          left_cut,
          counted,
          (==_iff (length d) (length d)).1 refl,
        )
        refl
