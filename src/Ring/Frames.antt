-- ===== src/Ring/Frames.antt =====
-- The bytes that stand for a queue of messages: each behind its length in four bytes.
use ipc_benchmark.Prelude.{
  ℕ, ◌+◌, List, [], ◌∷◌, ◌++◌, length, length-append, ◌≡◌, sym, ap, ◌∙◌, append-nil, append_assoc,
  arith,
}
use ipc_benchmark.Memory.{le_bytes}
use ipc_benchmark.Memory.Region.{length-le_bytes}

unfoldable pub frame : List ℕ → List ℕ
frame d = le_bytes 4 (length d) ++ d

unfoldable pub frames : List (List ℕ) → List ℕ
frames [] = []
frames (d ∷ ds) = frame d ++ frames ds

pub length-frame : (d : List ℕ) → length (frame d) ≡ 4 + length d
unfolding frame
length-frame d =
    omega (arith, length-append (le_bytes 4 (length d)) d, length-le_bytes 4 (length d))

pub length-frames-cons :
    (d : List ℕ) (ds : List (List ℕ)) → length (frames (d ∷ ds)) ≡ 4 + length d + length (frames ds)
unfolding frames
length-frames-cons d ds = omega (arith, length-append (frame d) (frames ds), length-frame d)

pub frames-append : (q : List (List ℕ)) (d : List ℕ) → frames (q ++ (d ∷ [])) ≡ frames q ++ frame d
unfolding frames
frames-append [] d = append-nil (frame d)
frames-append (c ∷ q) d =
    ap (λ l. frame c ++ l) (frames-append q d) ∙ sym (append_assoc (frame c) (frames q) (frame d))
