-- ===== src/Message/Parts.antt =====
-- A message in front of a stream, as it is read: the header first, and then the rest, of the length that
-- the header says.
use ipc_benchmark.Prelude.{
  ℕ, ◌+◌, ◌-◌, ◌≡◌, sym, ap, ◌∙◌, List, ◌++◌, length, take, drop, length-append, length-drop,
  length-take, take_split, drop_split, take-append, drop-append, arith, inl,
}
use ipc_benchmark.Memory.{Memory, copy_in}
use ipc_benchmark.Memory.Region.{copy_in-Outside, copy_in-append}
use ipc_benchmark.Message.{get_word}
use ipc_benchmark.Message.Integrity.{get_word_ext}
use ipc_benchmark.Message.Delivery.{IsSound}

abbrev pub header_bytes : (d rest : List ℕ) → List ℕ
header_bytes d rest = take 32 (d ++ rest)

abbrev pub body_bytes : (d rest : List ℕ) → List ℕ
body_bytes d rest = take (length d - 32) (drop 32 (d ++ rest))

module _ {d : List ℕ} (sound : IsSound d) (rest : List ℕ) (buffer : Memory) where
  pub parts : (header_bytes d rest) ++ (body_bytes d rest) ≡ d
  parts =
      let count : 32 + (length d - 32) ≡ length d = omega (arith, sound.long) in
      take_split 32 (length d - 32) (d ++ rest)
      ∙ ap (λ n. take n (d ++ rest)) count
      ∙ take-append d rest

  pub length-header_bytes : length (header_bytes d rest) ≡ 32
  length-header_bytes = omega (arith, length-take 32 (d ++ rest), length-append d rest, sound.long)

  pub length-body_bytes : length (body_bytes d rest) ≡ length d - 32
  length-body_bytes = omega (
    arith,
    length-take (length d - 32) (drop 32 (d ++ rest)),
    length-drop 32 (d ++ rest),
    length-append d rest,
  )

  pub whole :
      copy_in 32 (body_bytes d rest) (copy_in 0 (header_bytes d rest) buffer) ≡ copy_in 0 d buffer
  whole =
      ap (λ p. copy_in p (body_bytes d rest) (copy_in 0 (header_bytes d rest) buffer))
        (omega (arith, length-header_bytes))
      ∙ copy_in-append 0 (header_bytes d rest) (body_bytes d rest) buffer
      ∙ ap (λ l. copy_in 0 l buffer) parts

  pub size_read : get_word 4 (copy_in 0 (header_bytes d rest) buffer) ≡ length d
  size_read =
      get_word_ext 4 (copy_in 0 (header_bytes d rest) buffer)
        (copy_in 32 (body_bytes d rest) (copy_in 0 (header_bytes d rest) buffer))
        (λ a lo hi. sym (
          copy_in-Outside 32 (body_bytes d rest) (copy_in 0 (header_bytes d rest) buffer) a
            (inl (omega arith))))
      ∙ ap (get_word 4) whole
      ∙ (sound.lands buffer).sized

  pub left : drop (length d - 32) (drop 32 (d ++ rest)) ≡ rest
  left =
      let count : 32 + (length d - 32) ≡ length d = omega (arith, sound.long) in
      drop_split 32 (length d - 32) (d ++ rest)
      ∙ ap (λ n. drop n (d ++ rest)) count
      ∙ drop-append d rest
