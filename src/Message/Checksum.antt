-- ===== src/Message/Checksum.antt =====
-- `calculate_checksum` of benchmark.c under a change of a byte.
use Prim.Native.Nat.{max, digits, bit_or, bit_or-bitwise}
use ipc_benchmark.Prelude.{
  ℕ, zero, suc, ◌+◌, ◌*◌, ◌/◌, ◌%◌, ◌^◌, ◌≤◌, ◌<◌, ◌≡◌, ◌≢◌, refl, ap, ◌∙◌, List, [], ◌∷◌, ◌++◌,
  arith,
}
use ipc_benchmark.Message.{rotate, checksum_step, checksum_from, calculate_checksum}

digits_zero : (n a : ℕ) → a ≤ n → digits (λ y. y) max n a 0 ≡ a
digits_zero zero zero h = refl
digits_zero zero (suc a) h = absurd (omega arith)
digits_zero (suc n) zero h = refl
digits_zero (suc n) (suc a) h = omega (arith, digits_zero n (suc a / 2) (omega arith))

-- The two parts of the rotation share no bit, so `|` adds them.
bit_or_disjoint : (k r : ℕ) → r < 2 → bit_or (2 * k) r ≡ 2 * k + r
bit_or_disjoint k r h = go (2 * k) refl
  where
    go : (a : ℕ) → 2 * k ≡ a → bit_or a r ≡ a + r
    go zero e = bit_or-bitwise 0 r ∙ omega arith
    go (suc a) e =
        bit_or-bitwise (suc a) r
        ∙ (let low : r / 2 ≡ 0 = omega arith in
            rw low (omega (arith, digits_zero a (suc a / 2) (omega arith))))

rotate_lem : (s : ℕ) → s < 2 ^ 32 → rotate s ≡ s * 2 % 2 ^ 32 + s / 2 ^ 31
rotate_lem s h =
    ap (λ a. bit_or a (s / 2 ^ 31)) even
    ∙ bit_or_disjoint (s % 2 ^ 31) (s / 2 ^ 31) (omega arith)
    ∙ omega arith
  where
    even : s * 2 % 2 ^ 32 ≡ 2 * (s % 2 ^ 31)
    even = omega arith

checksum_step-lt : (s b : ℕ) → checksum_step s b < 2 ^ 32
unfolding checksum_step
checksum_step-lt s b = omega arith

checksum_step-injective :
    (s t b : ℕ) → s < 2 ^ 32 → t < 2 ^ 32 → checksum_step s b ≡ checksum_step t b → s ≡ t
unfolding checksum_step
checksum_step-injective s t b hs ht e = omega (arith, rotate_lem s hs, rotate_lem t ht, e)

checksum_step_byte : (s b c : ℕ) → b < 256 → c < 256 → checksum_step s b ≡ checksum_step s c → b ≡ c
unfolding checksum_step
checksum_step_byte s b c hb hc e = omega (arith, e)

checksum_from-injective :
    (bytes : List ℕ) (s t : ℕ)
    → s < 2 ^ 32
    → t < 2 ^ 32
    → checksum_from s bytes ≡ checksum_from t bytes
    → s ≡ t
unfolding checksum_from
checksum_from-injective [] s t hs ht e = e
checksum_from-injective (b ∷ bytes) s t hs ht e =
    checksum_step-injective s t b hs ht
      (checksum_from-injective bytes _ _ (checksum_step-lt s b) (checksum_step-lt t b) e)

byte_changes :
    (front back : List ℕ) (s b c : ℕ)
    → s < 2 ^ 32
    → b < 256
    → c < 256
    → checksum_from s (front ++ (b ∷ back)) ≡ checksum_from s (front ++ (c ∷ back))
    → b ≡ c
unfolding checksum_from
byte_changes [] back s b c hs hb hc e =
    checksum_step_byte s b c hb hc
      (checksum_from-injective back _ _ (checksum_step-lt s b) (checksum_step-lt s c) e)
byte_changes (a ∷ front) back s b c hs hb hc e =
    byte_changes front back (checksum_step s a) b c (checksum_step-lt s a) hb hc e

-- Two runs of bytes that differ in exactly one byte have different checksums.
pub checksum_notices :
    (front back : List ℕ) (b c : ℕ)
    → b < 256
    → c < 256
    → b ≢ c
    → calculate_checksum (front ++ (b ∷ back)) ≢ calculate_checksum (front ++ (c ∷ back))
unfolding calculate_checksum
checksum_notices front back b c hb hc ne e =
    ne (byte_changes front back 0 b c (omega arith) hb hc e)

pub checksum-lt : (bytes : List ℕ) → calculate_checksum bytes < 2 ^ 32
unfolding calculate_checksum
checksum-lt bytes = from_lt bytes 0 (omega arith)
  where
    from_lt : (l : List ℕ) (s : ℕ) → s < 2 ^ 32 → checksum_from s l < 2 ^ 32
    from_lt [] s h = h
    from_lt (b ∷ l) s h = from_lt l (checksum_step s b) (checksum_step-lt s b)
