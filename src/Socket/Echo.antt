-- ===== src/Socket/Echo.antt =====
-- The server's loop where no call is cut short.
use ipc_benchmark.Prelude.{
  ℕ, zero, suc, ◌-◌, ◌≤◌, ◌≡◌, refl, sym, ap, ◌∙◌, true, false, some, List, [], ◌∷◌, ◌++◌, length,
  take, drop, append_assoc, append-nil, arith, le→ltb_false, ==_iff,
}
use ipc_benchmark.Memory.{Memory, copy_in}
use ipc_benchmark.Memory.Region.{copy_out-copy_in}
use ipc_benchmark.Message.{max_msg_size}
use ipc_benchmark.Message.Delivery.{IsSound, IsSound-validates}
use ipc_benchmark.Message.Parts.{
  header_bytes, body_bytes, length-header_bytes, length-body_bytes, whole, size_read, left,
}
use ipc_benchmark.Socket.{
  Transfer, recv, send, RoundCalls, bad_size, server_sent, server_body, server_sized, server_header,
  server_round, server_loop,
}
use ipc_benchmark.Socket.Safety.{store_inside, load_inside}

-- The call moves `n` bytes if there are so many.
abbrev pub Moves : ℕ → Transfer → Type 0
Moves n (Transfer.moves k) = n ≤ suc k
Moves n Transfer.fails = ⊥

-- No call of the round is cut short, for messages of any length that fits.
abbrev pub IsWhole : RoundCalls → Type 0
IsWhole calls = Moves 32 calls.header × Moves 131072 calls.body × Moves 131072 calls.reply

abbrev pub AllWhole : List RoundCalls → Type 0
AllWhole [] = Unit
AllWhole (calls ∷ rounds) = IsWhole calls × AllWhole rounds

pub recv_all :
    (n : ℕ) (call : Transfer) (stream : List ℕ)
    → Moves n call
    → recv n call stream ≡ some (take n stream)
unfolding recv
recv_all n (Transfer.moves k) stream le = ap (λ m. some (take m stream)) (omega arith)
recv_all n Transfer.fails stream none_moved = absurd none_moved

take_more : (n : ℕ) (xs : List ℕ) → length xs ≤ n → take n xs ≡ xs
take_more zero [] le = refl
take_more zero (x ∷ xs) le = absurd (omega arith)
take_more (suc n) [] le = refl
take_more (suc n) (x ∷ xs) le = ap (λ l. x ∷ l) (take_more n xs (omega arith))

pub send_all :
    (bytes : List ℕ) (call : Transfer) → Moves (length bytes) call → send bytes call ≡ some bytes
unfolding send
send_all bytes (Transfer.moves k) le = ap some (take_more (suc k) bytes le)
send_all bytes Transfer.fails none_moved = absurd none_moved

pub Moves-le : (n m : ℕ) (call : Transfer) → n ≤ m → Moves m call → Moves n call
Moves-le n m (Transfer.moves k) le h = omega arith
Moves-le n m Transfer.fails le h = h

pub server_header-some :
    (calls : RoundCalls) (bytes : List ℕ) (buffer : Memory) (inbound outbound : List ℕ)
    → length bytes ≡ 32
    → server_header calls (some bytes) buffer inbound outbound
      ≡ server_sized calls (copy_in 0 bytes buffer) (drop 32 inbound) outbound
unfolding server_header
server_header-some calls [] buffer inbound outbound e = absurd (omega arith)
server_header-some calls (b ∷ bytes) buffer inbound outbound e =
    rw (store_inside max_msg_size 0 (b ∷ bytes) buffer (omega arith))
      (ap (λ n. server_sized calls (copy_in 0 (b ∷ bytes) buffer) (drop n inbound) outbound) e)

module _ {d : List ℕ} (sound : IsSound d) (rest : List ℕ) (buffer : Memory) where
  pub sized : bad_size (length d) ≡ false
  sized =
      rw (le→ltb_false (length d) 36 sound.long)
        (le→ltb_false max_msg_size (length d) (omega (arith, sound.short)))

  -- A message is echoed: the server answers with exactly its bytes, and is at the next message.
  pub server_round_echo :
      (calls : RoundCalls) (outbound : List ℕ)
      → IsWhole calls
      → server_round calls buffer (d ++ rest) outbound
        ≡ some (record {
          goes_on = true;
          buffer = copy_in 0 d buffer;
          inbound = rest;
          outbound = outbound ++ d;
        })
  unfolding server_round server_sized server_body server_sent
  server_round_echo calls outbound (h, b, r) =
      let fits : length d ≤ max_msg_size = omega (arith, sound.short) in
      let all_body = Moves-le (length d - 32) 131072 calls.body (omega arith) b in
      let all_reply = Moves-le (length d) 131072 calls.reply fits r in
      let header = header_bytes d rest in
      let body = body_bytes d rest in
      rw
        (
          recv_all 32 calls.header (d ++ rest) h,
          server_header-some calls header buffer (d ++ rest) outbound
              (length-header_bytes sound rest buffer),
          size_read sound rest buffer,
          sized,
          recv_all (length d - 32) calls.body (drop 32 (d ++ rest)) all_body,
          store_inside max_msg_size 32 body (copy_in 0 header buffer)
              (omega (arith, length-body_bytes sound rest buffer)),
          whole sound rest buffer,
          IsSound-validates sound buffer,
          load_inside max_msg_size 0 (length d) (copy_in 0 d buffer) (omega arith),
          copy_out-copy_in 0 d buffer,
          send_all d calls.reply all_reply,
          length-body_bytes sound rest buffer,
          left sound rest buffer,
          (==_iff (length d) (length d)).1 refl,
        )
        refl

-- The message alone on the stream.
pub server_round_alone :
    {d : List ℕ}
    → IsSound d
    → (calls : RoundCalls) (buffer : Memory) → IsWhole calls
    → server_round calls buffer d []
      ≡ some (record { goes_on = true; buffer = copy_in 0 d buffer; inbound = []; outbound = d })
server_round_alone {d = d} sound calls buffer complete =
    ap (λ l. server_round calls buffer l []) (sym (append-nil d))
    ∙ server_round_echo sound [] buffer calls [] complete

abbrev pub AllSound : List (List ℕ) → Type 0
AllSound [] = Unit
AllSound (d ∷ ds) = IsSound d × AllSound ds

abbrev pub joined : List (List ℕ) → List ℕ
joined [] = []
joined (d ∷ ds) = d ++ joined ds

-- The buffer when the messages have been read into it.
abbrev pub landed : List (List ℕ) → Memory → Memory
landed [] buffer = buffer
landed (d ∷ ds) buffer = landed ds (copy_in 0 d buffer)

-- Where no call is cut short, the server's loop sends every message of the stream back, in order and
-- byte for byte, one in each round.
pub server_loop_echo :
    (ds : List (List ℕ)) (rounds : List RoundCalls) (buffer : Memory) (rest outbound : List ℕ)
    → AllSound ds
    → AllWhole rounds
    → length rounds ≡ length ds
    → server_loop rounds buffer (joined ds ++ rest) outbound
      ≡ some (record {
        goes_on = true;
        buffer = landed ds buffer;
        inbound = rest;
        outbound = outbound ++ joined ds;
      })
unfolding server_loop
server_loop_echo [] [] buffer rest outbound sound complete e = rw (append-nil outbound) refl
server_loop_echo [] (calls ∷ rounds) buffer rest outbound sound complete e = absurd (omega arith)
server_loop_echo (d ∷ ds) [] buffer rest outbound sound complete e = absurd (omega arith)
server_loop_echo (d ∷ ds) (calls ∷ rounds) buffer rest outbound (sound, sounds) (first, later) e =
    rw
      (
        append_assoc d (joined ds) rest,
        server_round_echo sound (joined ds ++ rest) buffer calls outbound first,
        server_loop_echo ds rounds (copy_in 0 d buffer) rest (outbound ++ d) sounds later
            (omega arith),
        append_assoc outbound d (joined ds),
      )
      refl
