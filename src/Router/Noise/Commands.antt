-- ===== src/Router/Noise/Commands.antt =====
-- What the emulator's commands do to its settings.
use ridingthecode.Common.{
  ℕ, ◌^◌, ◌≤◌, ◌<◌, ◌≡◌, refl, ◌++◌, List, [], ◌∷◌, Bool, arith, leb, if◌then◌else◌, length, ◌⊎◌,
  inl, ◌↔◌, inr,
}
use ridingthecode.Common.Int.{ℤ}
use ridingthecode.Common.Text.{Bytes, codes, same_bytes, before, substr_front, first_word_alone}
use ridingthecode.Common.Decimal.{decimal, extract_int-decimal, extract_unsigned-decimal}
use ridingthecode.Router.Noise.{
  NoiseController, running, aborted, Message, delay_set, loss_set, loss_refused, check_command,
  set_delay, set_ploss, set_descriptor,
}

delay_set_lem :
    (s : NoiseController) (n : ℕ)
    → n < 2 ^ 32
    → set_delay s (codes "/setdelay " ++ decimal n)
      ≡ running (record s { packet_delay = n }) (delay_set n ∷ [])
unfolding set_delay
delay_set_lem s n h =
    ground
      (arith, substr_front 10 (codes "/setdelay ") (decimal n) refl, extract_unsigned-decimal n h)

loss_set_lem :
    (garbage : ℤ) (s : NoiseController) (n : ℕ)
    → n < 2 ^ 31
    → set_ploss garbage s (codes "/setloss " ++ decimal n) ≡ (
        if leb n 100
        then running (record s { data_loss = n }) (loss_set n ∷ [])
        else running s (loss_refused ∷ []))
unfolding set_ploss
loss_set_lem garbage s n h =
    ground (arith, substr_front 9 (codes "/setloss ") (decimal n) refl, extract_int-decimal n h)

set_ploss-loss-le :
    (garbage : ℤ) (s s' : NoiseController) (line : Bytes) (out : List Message)
    → s.data_loss ≤ 100
    → set_ploss garbage s line ≡ running s' out
    → s'.data_loss ≤ 100
unfolding set_ploss
set_ploss-loss-le garbage s s' line out h e = ground arith

set_delay_aborted :
    (s : NoiseController) (line : Bytes) → set_delay s line ≡ aborted → length line ≤ 9
unfolding set_delay
set_delay_aborted s line h = ground arith

set_ploss_aborted :
    (garbage : ℤ) (s : NoiseController) (line : Bytes)
    → set_ploss garbage s line ≡ aborted
    → length line ≤ 8
unfolding set_ploss
set_ploss_aborted garbage s line h = ground arith

set_descriptor_aborted :
    (can_open : Bytes → Bool) (s : NoiseController) (line : Bytes)
    → set_descriptor can_open s line ≡ aborted
    → length line ≤ 4
unfolding set_descriptor
set_descriptor_aborted can_open s line h = ground arith

module _ (can_open : Bytes → Bool) (garbage : ℤ) where
  -- `/setdelay n` sets the delay to `n` and tells so, for every `n` below 2 ^ 32, which an
  -- `unsigned int` holds.
  pub setdelay_sets :
      (s : NoiseController) (n : ℕ)
      → n < 2 ^ 32
      → check_command can_open garbage s (codes "/setdelay " ++ decimal n)
        ≡ running (record s { packet_delay = n }) (delay_set n ∷ [])
  unfolding check_command before same_bytes
  setdelay_sets s n h = delay_set_lem s n h

  -- For every `n` below 2 ^ 31, `/setloss n` sets the loss to `n` where `n` is at most 100, and is
  -- refused and changes nothing where it is not.
  pub setloss_sets :
      (s : NoiseController) (n : ℕ)
      → n < 2 ^ 31
      → check_command can_open garbage s (codes "/setloss " ++ decimal n) ≡ (
          if leb n 100
          then running (record s { data_loss = n }) (loss_set n ∷ [])
          else running s (loss_refused ∷ []))
  unfolding check_command before same_bytes
  setloss_sets s n h = loss_set_lem garbage s n h

  bare_aborts :
      (s : NoiseController)
      → (check_command can_open garbage s (codes "/setdelay") ≡ aborted)
        × (check_command can_open garbage s (codes "/setloss") ≡ aborted)
        × (check_command can_open garbage s (codes "/log") ≡ aborted)
  unfolding check_command before same_bytes set_delay set_ploss set_descriptor
  bare_aborts s = (refl, refl, refl)

  aborting_line :
      (s : NoiseController) (line : Bytes)
      → check_command can_open garbage s line ≡ aborted
      → (line ≡ codes "/setdelay") ⊎ (line ≡ codes "/setloss") ⊎ (line ≡ codes "/log")
  unfolding check_command
  aborting_line s line h = ground (
    arith,
    set_delay_aborted s line,
    set_ploss_aborted garbage s line,
    set_descriptor_aborted can_open s line,
    first_word_alone line (codes "/setdelay"),
    first_word_alone line (codes "/setloss"),
    first_word_alone line (codes "/log"),
  )

  one_of_three :
      (s : NoiseController) (line : Bytes)
      → (line ≡ codes "/setdelay") ⊎ (line ≡ codes "/setloss") ⊎ (line ≡ codes "/log")
      → check_command can_open garbage s line ≡ aborted
  one_of_three s line (inl e) = rw e (bare_aborts s).0
  one_of_three s line (inr (inl e)) = rw e (bare_aborts s).1
  one_of_three s line (inr (inr e)) = rw e (bare_aborts s).2

  -- Whatever the settings, a line of input ends the emulator by an uncaught exception exactly when it
  -- is one of the three commands that want an argument, typed alone.
  pub bare_command_aborts :
      (s : NoiseController) (line : Bytes)
      → (check_command can_open garbage s line ≡ aborted)
        ↔ ((line ≡ codes "/setdelay") ⊎ (line ≡ codes "/setloss") ⊎ (line ≡ codes "/log"))
  bare_command_aborts s line = (aborting_line s line, one_of_three s line)

  -- From a loss of at most 100, no line of input that leaves the program running takes the loss
  -- above 100, whatever the uninitialised variable holds.
  pub check_command-loss-le :
      (s s' : NoiseController) (line : Bytes) (out : List Message)
      → s.data_loss ≤ 100
      → check_command can_open garbage s line ≡ running s' out
      → s'.data_loss ≤ 100
  unfolding check_command set_delay set_descriptor
  check_command-loss-le s s' line out h e =
      ground (arith, set_ploss-loss-le garbage s s' line out h)
