-- ===== src/Ring/Read.antt =====
-- `ring_buffer_read` on a ring that holds a queue.
use ipc_benchmark.Prelude.{
  ℕ, ◌+◌, ◌≤◌, ◌<◌, ◌≡◌, refl, ◌∙◌, List, [], ◌∷◌, some, true, ltb, length, arith, Bool-cases,
  ltb→lt, ◌⊎◌, inl, inr,
}
use mathlib.Core.Path.{subst}
use native.Mathlib.Nat.{mod-eq_of_lt}
use ipc_benchmark.Prelude.Word.{u64_mod}
use ipc_benchmark.Memory.{le_value}
use ipc_benchmark.Memory.Region.{le_value-le_bytes}
use ipc_benchmark.Ring.{Ring, read_failed, ring_buffer_read, load_span}
use ipc_benchmark.Ring.Frames.{frame, frames, length-frame, length-frames-cons}
use ipc_benchmark.Ring.Holds.{wrap, Holds, Holds-at, Holds-split, Holds-to_wrap}
use ipc_benchmark.Ring.Span.{load_span_lem}
use ipc_benchmark.Ring.Queue
use ipc_benchmark.Ring.Queue.{Queue, read_ok}
use ipc_benchmark.Ring.IsQueue.{IsQueue}
use ipc_benchmark.Ring.Write.{header, length-header}

-- The ring after a read of `d`.
pub consumed : Ring → List ℕ → Ring
consumed rb d = record rb { read_pos = wrap rb.size (wrap rb.size (rb.read_pos + 4) + length d) }

read_empty :
    {pos_mod : ℕ} {rb : Ring}
    → IsQueue pos_mod rb []
    → (max_len : ℕ) → ring_buffer_read pos_mod rb max_len ≡ some (read_failed, rb)
unfolding ring_buffer_read frames
read_empty inv max_len = ground (arith, inv)

module _ {pos_mod : ℕ} {rb : Ring} {d : List ℕ} {q : Queue} (inv : IsQueue pos_mod rb (d ∷ q)) where
  room : 4 + length d + length (frames q) < rb.size
  room = ground (arith, inv, length-frames-cons d q)

  abbrev data_pos : ℕ
  data_pos = wrap rb.size (rb.read_pos + 4)

  whole :
      Holds rb.size rb.buffer rb.read_pos (frame d)
      × Holds rb.size rb.buffer (rb.read_pos + length (frame d)) (frames q)
  unfolding frames
  whole = Holds-split rb.size rb.buffer rb.read_pos (frame d) (frames q) inv.held

  parts :
      Holds rb.size rb.buffer rb.read_pos (header d)
      × Holds rb.size rb.buffer (rb.read_pos + length (header d)) d
  unfolding frame header
  parts = Holds-split rb.size rb.buffer rb.read_pos (header d) d whole.0

  data_held : Holds rb.size rb.buffer data_pos d
  data_held =
      Holds-to_wrap rb.size rb.buffer (rb.read_pos + 4) d (omega (arith, inv.read_in, room))
        (omega (arith, inv.read_in, room))
        (Holds-at rb.size rb.buffer _ _ d (omega (arith, length-header d)) parts.1)

  rest_held : Holds rb.size rb.buffer (wrap rb.size (data_pos + length d)) (frames q)
  rest_held =
      Holds-at rb.size rb.buffer (wrap rb.size (rb.read_pos + (4 + length d))) _ (frames q)
        (ground (arith, inv, room))
        (Holds-to_wrap rb.size rb.buffer (rb.read_pos + (4 + length d)) (frames q)
          (omega (arith, inv.read_in, room)) (omega (arith, inv.read_in, room))
          (Holds-at rb.size rb.buffer _ _ (frames q) (omega (arith, length-frame d)) whole.1))

  header_loads :
      load_span pos_mod u64_mod rb.size rb.read_pos 4 rb.buffer ≡ some (header d, data_pos)
  header_loads =
      subst
        (λ n.
          load_span pos_mod u64_mod rb.size rb.read_pos n rb.buffer
          ≡ some (header d, wrap rb.size (rb.read_pos + n)))
        (length-header d)
        (load_span_lem inv.roomy u64_mod rb.read_pos rb.buffer (header d)
          (omega (arith, inv.roomy.twice, inv.roomy.word)) inv.read_in
          (omega (arith, length-header d, room)) parts.0)

  header_value : le_value (header d) ≡ length d
  unfolding header
  header_value = le_value-le_bytes (length d) ∙ mod-eq_of_lt (omega (arith, room, inv.small))

  data_loads :
      load_span pos_mod pos_mod rb.size data_pos (length d) rb.buffer
      ≡ some (d, wrap rb.size (data_pos + length d))
  data_loads =
      load_span_lem inv.roomy pos_mod data_pos rb.buffer d inv.roomy.twice
        (ground (arith, inv, room)) (omega (arith, room)) data_held

  read_message :
      (max_len : ℕ)
      → length d ≤ max_len
      → ring_buffer_read pos_mod rb max_len ≡ some (read_ok d, consumed rb d)
  unfolding ring_buffer_read consumed
  read_message max_len le =
      ground (arith, inv, room, length-frames-cons d q, header_loads, header_value, data_loads)

  read_too_long :
      (max_len : ℕ)
      → max_len < length d
      → ring_buffer_read pos_mod rb max_len ≡ some (read_failed, rb)
  unfolding ring_buffer_read
  read_too_long max_len lt =
      ground (arith, inv, room, length-frames-cons d q, header_loads, header_value)

  consumed-IsQueue : IsQueue pos_mod (consumed rb d) q
  unfolding consumed
  consumed-IsQueue = record {
    roomy = inv.roomy;
    small = inv.small;
    read_in = ground (arith, inv, room);
    write_in = inv.write_in;
    filled = ground (arith, inv, room, length-frames-cons d q);
    held = rest_held;
  }

-- For a ring that holds a queue of messages, `ring_buffer_read` never leaves the buffer, and does
-- what the queue does: it fails on an empty queue and on a first message longer than `max_len`, and
-- then changes nothing; otherwise it returns the length and the bytes of the first message, and the
-- ring holds the rest. The size and the write position stay.
pub read_refines :
    {pos_mod : ℕ} {rb : Ring} {q : Queue}
    → IsQueue pos_mod rb q
    → (max_len : ℕ)
    → let (reply, q') = Queue.pop max_len q in
      (rb' : Ring) × (ring_buffer_read pos_mod rb max_len ≡ some (reply, rb'))
      × IsQueue pos_mod rb' q'
      × (rb'.size ≡ rb.size)
      × (rb'.write_pos ≡ rb.write_pos)
      × ((reply.success ≡ true) ⊎ (rb' ≡ rb))
unfolding Queue.pop
read_refines {pos_mod} {rb} {q = []} inv max_len =
    (rb, read_empty inv max_len, inv, refl, refl, inr refl)
read_refines {pos_mod} {rb} {q = d ∷ q} inv max_len = elim (Bool-cases (ltb max_len (length d))) [
  | inl long ↦ rw long (rb, read_too_long inv max_len (ltb→lt _ _ long), inv, refl, refl, inr refl)
  | inr short ↦ rw short (
    consumed rb d,
    read_message inv max_len (ground arith),
    consumed-IsQueue inv,
    same_size,
    same_write,
    inl refl,
  )
]
  where
    same_size : (consumed rb d).size ≡ rb.size
    same_size = unfold consumed in refl

    same_write : (consumed rb d).write_pos ≡ rb.write_pos
    same_write = unfold consumed in refl
