-- ===== src/Router/Noise/Loss.antt =====
-- How the loss that a user sets turns into dropped packets.
use ridingthecode.Common.{ℕ, zero, suc, ◌+◌, ◌≤◌, min, ◌≡◌, Bool, not, arith, if◌then◌else◌}
use ridingthecode.Router.Noise.{NoiseController, packet_drop_check}

-- how many of the numbers below a bound pass a test
abbrev pub count_below : ℕ → (ℕ → Bool) → ℕ
count_below zero p = 0
count_below (suc n) p = (if p n then 1 else 0) + count_below n p

drops_below :
    (s : NoiseController) (n : ℕ)
    → n ≤ 99
    → count_below n (λ r. not (packet_drop_check s r)) ≡ min n (s.data_loss + 1)
unfolding packet_drop_check
drops_below s zero h = omega arith
drops_below s (suc n) h = ground (arith, drops_below s n)

-- Of the 99 residues that `rand() % 99` takes, a loss of `k` drops the packet at `k + 1` of them, at
-- all 99 of them where `k` is 98 or more; so a loss of 0 still drops, and losses 98 to 100 are one.
pub dropped_residues :
    (s : NoiseController)
    → count_below 99 (λ r. not (packet_drop_check s r)) ≡ min 99 (s.data_loss + 1)
dropped_residues s = drops_below s 99 (omega arith)
