-- ===== src/UdsNonblocking/Exchange.antt =====
-- Whole rounds of uds_nonblocking.c.
use ipc_benchmark.Prelude.{
  ℕ, ◌+◌, ◌^◌, ◌≤◌, ◌<◌, ◌≡◌, true, refl, sym, ap, ◌∙◌, some, List, [], ◌∷◌, append-nil, length,
  arith, ==_iff,
}
use ipc_benchmark.Memory.{Memory, copy_in, copy_out}
use ipc_benchmark.Stats.{Stats, record_response}
use ipc_benchmark.Message.{get_word, max_msg_size}
use ipc_benchmark.Message.Delivery.{
  IsSound, message_bytes, length-message_bytes, message_bytes_land, prepared-IsSound,
}
use ipc_benchmark.Socket.Safety.{load_inside}
use ipc_benchmark.Socket.Echo.{IsWhole, server_round_alone}
use ipc_benchmark.UdsNonblocking.{Reception, client_receive}
use ipc_benchmark.UdsNonblocking.Transfer.{Sound, moves, write_nonblocking_exact}
use ipc_benchmark.UdsNonblocking.Receive.{client_receive_whole}
use ipc_benchmark.UdsNonblocking.Round.{
  client_prepare, client_send, server_round, World, Turn, Progress, turn, turn_back, turns,
}

-- No call of the client fails, enough of them move bytes for any message, and no call of the server is cut
-- short.
abbrev pub Complete : Turn → Type 0
Complete t =
    (Sound t.sends × (4131 ≤ moves t.sends))
    × IsWhole t.server
    × (Sound t.header × (32 ≤ moves t.header))
    × (Sound t.body × (4131 ≤ moves t.body))

abbrev pub AllComplete : List Turn → Type 0
AllComplete [] = Unit
AllComplete (t ∷ later) = Complete t × AllComplete later

-- No byte is under way, and the server is in its loop.
abbrev pub Quiet : World → Type 0
Quiet w = (w.to_server ≡ []) × (w.to_client ≡ []) × (w.serving ≡ true)

-- What the client sends, with the size that it has written into it.
abbrev pub request : Turn → World → Memory
request t w = client_prepare t.random t.now t.now' w.client_buffer

abbrev pub request_size : Turn → World → ℕ
request_size t w = get_word 4 (request t w)

pub record Exchanged (t : Turn) (w : World) : Type 0 where
  pub after : World
  pub runs : turn t w ≡ some (Progress.going, after)
  pub quiet : Quiet after
  pub sound : IsSound (message_bytes (request t w))
  pub served : copy_out 0 (request_size t w) after.server_buffer ≡ message_bytes (request t w)
  pub returned : copy_out 0 (request_size t w) after.client_buffer ≡ message_bytes (request t w)
  pub counted : after.stats ≡ record_response t.done (request_size t w) after.client_buffer w.stats

-- A response alone on its stream.
receives :
    {d : List ℕ}
    → IsSound d
    → (buffer : Memory) (t : Turn) (stats : Stats) → Complete t
    → client_receive t.done t.header t.body buffer d stats
      ≡ some (
          Reception.counted
            (copy_in 0 d buffer)
            []
            (record_response t.done (length d) (copy_in 0 d buffer) stats))
receives {d = d} sound buffer t stats complete =
    ap (λ l. client_receive t.done t.header t.body buffer l stats) (sym (append-nil d))
    ∙ client_receive_whole sound [] buffer t.done t.header t.body stats complete.2.0 complete.2.1
        complete.3.0 (omega (arith, sound.short, complete.3.1))

module _ (t : Turn) (w : World) (complete : Complete t) (quiet : Quiet w) where
  after_turn : World
  after_turn = record w {
    client_buffer = copy_in 0 (message_bytes (request t w)) (request t w);
    server_buffer = copy_in 0 (message_bytes (request t w)) w.server_buffer;
    to_server = [];
    to_client = [];
    serving = true;
    stats =
        record_response t.done (length (message_bytes (request t w)))
          (copy_in 0 (message_bytes (request t w)) (request t w)) w.stats;
  }

  request-IsSound : IsSound (message_bytes (request t w))
  unfolding client_prepare
  request-IsSound = prepared-IsSound t.random t.now t.now' w.client_buffer

  sends :
      client_send t.sends (request t w) w.to_server
      ≡ some (Progress.going, message_bytes (request t w))
  unfolding client_send
  sends =
      let m = request t w in
      let short = request-IsSound.short in
      rw
        (
          quiet.0,
          load_inside max_msg_size 0 (get_word 4 m) m (omega (arith, length-message_bytes m)),
          write_nonblocking_exact (message_bytes m) t.sends [] complete.0.0
              (omega (arith, complete.0.1)),
          (==_iff (length (message_bytes m)) (get_word 4 m)).1 (length-message_bytes m),
        )
        refl

  turn_runs : turn t w ≡ some (Progress.going, after_turn)
  unfolding turn turn_back after_turn server_round
  turn_runs =
      rw
        (
          sends,
          quiet.1,
          quiet.2,
          server_round_alone request-IsSound t.server w.server_buffer complete.1,
          receives request-IsSound (request t w) t w.stats complete,
        )
        refl

-- A round in which no call of the client fails and none of the server is cut short, from streams that are empty and with the server in its loop: server and client read exactly the
-- bytes of the request, which are a valid message, the response is counted once, and the streams are
-- empty again, with the server still in its loop.
pub nonblocking_turn-Exchanged : (t : Turn) (w : World) → Complete t → Quiet w → Exchanged t w
unfolding after_turn
nonblocking_turn-Exchanged t w complete quiet = record {
  after = _;
  runs = turn_runs t w complete quiet;
  quiet = (refl, refl, refl);
  sound = request-IsSound t w complete quiet;
  served = message_bytes_land (request t w) w.server_buffer;
  returned = message_bytes_land (request t w) (request t w);
  counted =
      ap
        (λ n.
          record_response t.done n (copy_in 0 (message_bytes (request t w)) (request t w)) w.stats)
        (length-message_bytes (request t w));
}

one_more :
    (t : Turn) (w : World) (x : Exchanged t w)
    → w.stats.ops + 1 < 2 ^ 64
    → x.after.stats.ops ≡ w.stats.ops + 1
unfolding record_response
one_more t w x small = ap (λ s. s.ops) x.counted ∙ omega arith

-- As many rounds as the time allows, in each of which no call of the client fails and none of the server is cut short: the client
-- goes on, has counted one operation for each, and no byte is left under way.
pub nonblocking_turns_count :
    (ts : List Turn) (w : World)
    → AllComplete ts
    → Quiet w
    → w.stats.ops + length ts < 2 ^ 64
    → (w' : World) × (turns ts w ≡ some (Progress.going, w'))
      × Quiet w'
      × (w'.stats.ops ≡ w.stats.ops + length ts)
unfolding turns
nonblocking_turns_count [] w complete quiet small = (w, refl, quiet, omega arith)
nonblocking_turns_count (t ∷ later) w (first, rest) quiet small =
    let x = nonblocking_turn-Exchanged t w first quiet in
    let one : x.after.stats.ops ≡ w.stats.ops + 1 = one_more t w x (omega arith) in
    let (w', runs, quiet', count) =
      nonblocking_turns_count later x.after rest x.quiet (omega arith) in
    (w', rw (x.runs, runs) refl, quiet', omega arith)
