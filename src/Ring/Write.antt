-- ===== src/Ring/Write.antt =====
-- `ring_buffer_write` on a ring that holds a queue.
use ipc_benchmark.Prelude.{
  ℕ, ◌+◌, ◌-◌, ◌*◌, ◌≤◌, ◌<◌, ◌≡◌, refl, sym, ◌∙◌, List, [], ◌∷◌, ◌++◌, some, true, false, length,
  arith, Bool-cases, inl, inr, length-append, ◌⊎◌,
}
use mathlib.Core.Path.{subst}
use ipc_benchmark.Memory.{Memory, le_bytes}
use ipc_benchmark.Memory.Region.{length-le_bytes}
use ipc_benchmark.Ring.{Ring, available, ring_buffer_write}
use ipc_benchmark.Ring.Frames.{frame, frames, frames-append, length-frame}
use ipc_benchmark.Ring.Holds.{wrap, Holds, Holds-at, Holds-ext, Holds-append, Holds-of_wrap}
use ipc_benchmark.Ring.Store.{span_in, Holds-span_in, span_in-Apart, store_span_lem}
use ipc_benchmark.Ring.Queue
use ipc_benchmark.Ring.Queue.{Queue, cost, total, accepts}
use ipc_benchmark.Ring.IsQueue.{used, IsQueue, length-frames}

unfoldable pub header : List ℕ → List ℕ
header d = le_bytes 4 (length d)

pub length-header : (d : List ℕ) → length (header d) ≡ 4
unfolding header
length-header d = length-le_bytes 4 (length d)

-- The ring after a write that succeeds.
pub written : Ring → List ℕ → Ring
unfolding header
written rb d = record rb {
  write_pos = wrap rb.size (wrap rb.size (rb.write_pos + 4) + length d);
  buffer =
      span_in rb.size (wrap rb.size (rb.write_pos + 4)) d
        (span_in rb.size rb.write_pos (header d) rb.buffer);
}

module _ {pos_mod : ℕ} {rb : Ring} {q : Queue} (inv : IsQueue pos_mod rb q) (d : List ℕ) where
  abbrev pub Fits : Type 0
  Fits = (2 * length d ≤ rb.size) × (total q + cost d + 2 ≤ rb.size)

  available_lem : available rb ≡ rb.size - used rb
  unfolding available
  available_lem = ground (arith, inv)

  write_accepts : Fits → ring_buffer_write pos_mod rb d ≡ some (true, written rb d)
  unfolding ring_buffer_write written header
  write_accepts (half, room) = ground (
    arith,
    inv,
    available_lem,
    length-frames q,
    length-header d,
    store_span_lem inv.roomy rb.write_pos (header d) rb.buffer,
    store_span_lem inv.roomy (wrap rb.size (rb.write_pos + 4)) d
        (span_in rb.size rb.write_pos (header d) rb.buffer),
  )

  write_refuses : (Fits → ⊥) → ring_buffer_write pos_mod rb d ≡ some (false, rb)
  unfolding ring_buffer_write
  write_refuses no_fit = ground (arith, inv, available_lem, length-frames q)

  module _ (half : 2 * length d ≤ rb.size) (room : total q + cost d + 2 ≤ rb.size) where
    abbrev pub data_pos : ℕ
    data_pos = wrap rb.size (rb.write_pos + 4)

    abbrev pub with_header : Memory
    with_header = span_in rb.size rb.write_pos (header d) rb.buffer

    abbrev pub with_data : Memory
    with_data = span_in rb.size data_pos d with_header

    -- The bytes written do not meet those of the queue.
    old_bytes :
        (k : ℕ)
        → k < length (frames q)
        → with_data (wrap rb.size (rb.read_pos + k)) ≡ rb.buffer (wrap rb.size (rb.read_pos + k))
    old_bytes k lt =
        span_in-Apart rb.size data_pos d with_header (ground (arith, inv)) (omega arith) a
          (ground (arith, inv)) (ground (arith, inv, length-frames q))
        ∙ span_in-Apart rb.size rb.write_pos (header d) rb.buffer inv.write_in
            (omega (arith, length-header d)) a (ground (arith, inv))
            (ground (arith, inv, length-frames q, length-header d))
      where
        a : ℕ
        a = wrap rb.size (rb.read_pos + k)

    new_bytes : Holds rb.size with_data rb.write_pos (frame d)
    unfolding frame header
    new_bytes =
        Holds-append rb.size with_data rb.write_pos (header d) d
          (Holds-ext rb.size with_header with_data rb.write_pos (header d)
            (λ k lt.
              span_in-Apart rb.size data_pos d with_header (ground (arith, inv)) (omega arith)
                (wrap rb.size (rb.write_pos + k)) (ground (arith, inv, length-header d))
                (ground (arith, inv, length-header d)))
            (Holds-span_in rb.size rb.write_pos (header d) rb.buffer inv.write_in
              (omega (arith, length-header d))))
          (Holds-at rb.size with_data (rb.write_pos + 4) _ d (omega (arith, length-header d)) (
            Holds-of_wrap rb.size with_data (rb.write_pos + 4) d (omega (arith, inv.write_in))
              (omega (arith, inv.write_in))
              (Holds-span_in rb.size data_pos d with_header (ground (arith, inv)) (omega arith))))

    all_bytes : Holds rb.size with_data rb.read_pos (frames q ++ frame d)
    all_bytes =
        Holds-append rb.size with_data rb.read_pos (frames q) (frame d)
          (Holds-ext rb.size rb.buffer with_data rb.read_pos (frames q) old_bytes inv.held)
          (Holds-of_wrap rb.size with_data (rb.read_pos + length (frames q)) (frame d)
            (ground (arith, inv, length-frames q))
            (ground (arith, inv, length-frames q, length-frame d))
            (Holds-at rb.size with_data rb.write_pos
              (wrap rb.size (rb.read_pos + length (frames q))) (frame d)
              (ground (arith, inv, length-frames q)) new_bytes))

    pub written-IsQueue : IsQueue pos_mod (written rb d) (q ++ (d ∷ []))
    unfolding written header
    written-IsQueue = record {
      roomy = inv.roomy;
      small = inv.small;
      read_in = inv.read_in;
      write_in = ground (arith, inv);
      filled = ground (
        arith,
        inv,
        frames-append q d,
        length-append (frames q) (frame d),
        length-frame d,
        length-frames q,
      );
      held = subst (λ l. Holds rb.size with_data rb.read_pos l) (sym (frames-append q d)) all_bytes;
    }

accepts-Fits :
    (size : ℕ) (q : Queue) (d : List ℕ)
    → accepts size q d ≡ true
    → (2 * length d ≤ size) × (total q + cost d + 2 ≤ size)
unfolding accepts
accepts-Fits size q d e = ground arith

not-accepts :
    (size : ℕ) (q : Queue) (d : List ℕ)
    → accepts size q d ≡ false
    → (2 * length d ≤ size) × (total q + cost d + 2 ≤ size)
    → ⊥
unfolding accepts
not-accepts size q d e h = ground arith

-- For a ring that holds a queue of messages, `ring_buffer_write` never leaves the buffer. It accepts
-- a message exactly when the queue does: no longer than half of the ring, and with its length of
-- four bytes no longer than the free bytes less two. Then the ring holds the queue with the message
-- at its end; otherwise it is unchanged. The size and the read position stay.
pub write_refines :
    {pos_mod : ℕ} {rb : Ring} {q : Queue}
    → IsQueue pos_mod rb q
    → (d : List ℕ)
    → let (done, q') = Queue.push rb.size q d in
      (rb' : Ring) × (ring_buffer_write pos_mod rb d ≡ some (done, rb'))
      × IsQueue pos_mod rb' q'
      × (rb'.size ≡ rb.size)
      × (rb'.read_pos ≡ rb.read_pos)
      × ((done ≡ true) ⊎ (rb' ≡ rb))
unfolding Queue.push
write_refines {pos_mod} {rb} {q} inv d = elim (Bool-cases (accepts rb.size q d)) [
  | inl e ↦
      let (half, room) = accepts-Fits rb.size q d e in
      rw e (
        written rb d,
        write_accepts inv d (half, room),
        written-IsQueue inv d half room,
        same_size,
        same_read,
        inl refl,
      )
  | inr e ↦ rw e (rb, write_refuses inv d (not-accepts rb.size q d e), inv, refl, refl, inr refl)
]
  where
    same_size : (written rb d).size ≡ rb.size
    same_size = unfold written in refl

    same_read : (written rb d).read_pos ≡ rb.read_pos
    same_read = unfold written in refl
