-- ===== src/Process/Manager/Spawning.antt =====
-- The retries of `try_spawn` in manager.rs.
use v2ray_rs.Process.Manager.{
  attempted, World, Child, Attempt, spawned, busy, failed, max_retries, try_spawn, try_spawn_from,
}
use v2ray_rs.Base.{
  ℕ, zero, suc, ◌+◌, ◌-◌, ◌<◌, String, ◌≡◌, refl, ◌⊎◌, inl, inr, Bool, Option, some, arith, ◌==◌,
  Bool-cases, Result, ok, err,
}

-- the attempt failed because the file is busy
abbrev pub IsBusy : Attempt → Type 0
IsBusy (busy e) = Unit
IsBusy _ = ⊥

-- what an attempt gives when it is the last one
abbrev pub verdict : Attempt → Result String Child
verdict (spawned c) = ok c
verdict (busy e) = err e
verdict (failed e) = err e

-- the attempts before the `k`-th find the file busy, and the `k`-th does not or is the last one
pub record IsDecisive (w : World) (k : ℕ) : Type 0 where
  pub in_range : k < max_retries
  pub before : (j : ℕ) → j < k → IsBusy (w.attempt j)
  pub final : (¬ IsBusy (w.attempt k)) ⊎ (suc k ≡ max_retries)

Attempt-cases :
    (a : Attempt)
    → ((¬ IsBusy a)
        × ((r : Option (Result String Child)) (l : Bool) → attempted l a r ≡ some (verdict a)))
      ⊎ ((e : String) × (a ≡ busy e))
Attempt-cases (spawned c) = inl ((λ h. h), λ r l. refl)
Attempt-cases (busy e) = inr (e, refl)
Attempt-cases (failed e) = inl ((λ h. h), λ r l. refl)

extend :
    (w : World) (k : ℕ)
    → ((j : ℕ) → j < k → IsBusy (w.attempt j))
    → IsBusy (w.attempt k)
    → (j : ℕ) → j < suc k
    → IsBusy (w.attempt j)
extend w k h b j j<k = elim (Bool-cases (j == k)) [
  | inl e ↦ let same : j ≡ k = ground arith in rw same b
  | inr e ↦ h j (ground arith)
]

decide :
    (w : World) (rounds k : ℕ)
    → rounds + k ≡ max_retries
    → 0 < rounds
    → ((j : ℕ) → j < k → IsBusy (w.attempt j))
    → ((i : ℕ) × IsDecisive w i × (try_spawn_from rounds k w ≡ some (verdict (w.attempt i))))
unfolding try_spawn_from
decide w zero k e h b = absurd (omega arith)
decide w (suc rounds) k e h b = elim (Attempt-cases (w.attempt k)) [
  | inl clear ↦ (k, record { in_range = omega arith; before = b; final = inl clear.0 }, clear.1 _ _)
  | inr found ↦
      let busy_k : IsBusy (w.attempt k) = rw found.1 tt in
      elim (Bool-cases (k == max_retries - 1)) [
        | inl last ↦ (
          k,
          record { in_range = omega arith; before = b; final = inr (ground arith) },
          rw (found.1, last) refl,
        )
        | inr more ↦
            let (i, good, r) =
              decide w rounds (k + 1) (omega arith) (ground arith)
                (λ j j≤k. extend w k b busy_k j (omega arith)) in
            (i, good, rw (found.1, more) r)
      ]
]

-- For any results of the attempts, `try_spawn` ends with a result and not in its `unreachable!`:
-- that of the first attempt which does not find the file busy, or of the fifth if none is such.
pub try_spawn_lem :
    (w : World) → ((k : ℕ) × IsDecisive w k × (try_spawn w ≡ some (verdict (w.attempt k))))
unfolding try_spawn
try_spawn_lem w = decide w max_retries 0 refl (omega arith) (λ j h. absurd (omega arith))
