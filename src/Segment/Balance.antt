-- ===== src/Segment/Balance.antt =====
-- The descriptor and the name of the segment, over every way that the calls of a setup turn out.
use ipc_benchmark.Prelude.{
  ℕ, zero, suc, ◌+◌, ◌≡◌, refl, List, [], ◌∷◌, ◌++◌, Option, none, some, if◌then◌else◌, Bool-cases,
  inl, inr,
}
use ipc_benchmark.Segment.{
  Kernel, Syscall, closes, unlinks, create_segment, open_segment, wait_ready,
}

-- On failure the name is unlinked once more than before the segment was created, if it was; on
-- success it stays.
abbrev pub Unlinked {ℓ} : {A : Type ℓ} → Option A → List Syscall → Type 0
Unlinked none calls = unlinks calls ≡ 1 + closes calls
Unlinked (some segment) calls = unlinks calls ≡ 1

polls_close : (n : ℕ) → closes (wait_ready n ++ (Syscall.close ∷ [])) ≡ 1
unfolding wait_ready
polls_close zero = refl
polls_close (suc n) = polls_close n

polls_unlink : (n : ℕ) → unlinks (wait_ready n ++ (Syscall.close ∷ [])) ≡ 0
unfolding wait_ready
polls_unlink zero = refl
polls_unlink (suc n) = polls_unlink n

module _ {ℓ} {A : Type ℓ} (k : Kernel) (total_size : ℕ) (segment : A) where
  -- However the calls of the server's setup turn out, it closes the descriptor exactly if it got one;
  -- if it fails after it created the segment, it unlinks the name again, and if it succeeds, the name
  -- stays.
  pub create_segment_balance :
      let (result, calls) = create_segment k total_size segment in
      (closes calls ≡ (if k.opens then 1 else 0)) × Unlinked result calls
  unfolding create_segment
  create_segment_balance = elim (Bool-cases k.opens) [
    | inr e ↦ rw e (refl, refl)
    | inl e ↦ rw e (elim (Bool-cases k.truncates) [
      | inr t ↦ rw t (refl, refl)
      | inl t ↦
          rw t (elim (Bool-cases k.maps) [ inr p ↦ rw p (refl, refl) | inl p ↦ rw p (refl, refl) ])
    ])
  ]

  -- The client's setup closes the descriptor exactly if it got one, however long it polls, and never
  -- unlinks the name.
  pub open_segment_balance :
      (polls : ℕ)
      → let (result, calls) = open_segment k total_size polls segment in
        (closes calls ≡ (if k.opens then 1 else 0)) × (unlinks calls ≡ 0)
  unfolding open_segment
  open_segment_balance polls = elim (Bool-cases k.opens) [
    | inr e ↦ rw e (refl, refl)
    | inl e ↦ rw e (elim (Bool-cases k.maps) [
      | inr p ↦ rw p (refl, refl)
      | inl p ↦ rw p (polls_close polls, polls_unlink polls)
    ])
  ]

  -- What holds of no result and of the new segment holds of the result.
  pub create_segment_result :
      (P : Option A → Type 0)
      → P none
      → P (some segment)
      → P (create_segment k total_size segment).0
  unfolding create_segment
  create_segment_result P nothing made = elim (Bool-cases k.opens) [
    | inr e ↦ rw e nothing
    | inl e ↦ rw e (elim (Bool-cases k.truncates) [
      | inr t ↦ rw t nothing
      | inl t ↦ rw t (elim (Bool-cases k.maps) [ inr p ↦ rw p nothing | inl p ↦ rw p made ])
    ])
  ]
