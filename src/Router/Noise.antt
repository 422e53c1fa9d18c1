-- ===== src/Router/Noise.antt =====
-- 7005_NVirt/NVirt/src/NoiseController.cpp: the emulator's terminal commands, its loss and delay.
-- A line of input and the value of `rand()` are arguments; what goes to the terminal is a list.
-- `data_loss` is a `double` that only ever holds a whole number from 0 to 100, so it is a number here.
pub mod Commands
pub mod Loss
mod Tests
use ridingthecode.Common.{
  ℕ, ◌%◌, List, [], ◌∷◌, Bool, true, false, Option, none, some, ltb, if◌then◌else◌, ◌&&◌,
}
use ridingthecode.Common.Int.{ℤ, pos, leb_ℤ, pos_part}
use ridingthecode.Common.Text.{Bytes, codes, same_bytes, before, substr}
use ridingthecode.Common.Decimal.{extract_int, extract_unsigned}

-- `log_file` is the file that `log_descriptor` has open.
pub record NoiseController : Type 0 where
  pub set_logging : Bool
  pub data_loss : ℕ
  pub packet_delay : ℕ
  pub log_file : Option Bytes

-- what the commands print
pub data Message : Type 0 where
  help : Message
  delay_set : ℕ → Message
  loss_set : ℕ → Message
  loss_refused : Message
  log_set : Bytes → Message
  not_a_command : Bytes → Message

-- `aborted` is the uncaught `std::out_of_range` of `substr`.
pub data Outcome : Type 0 where
  running : NoiseController → List Message → Outcome
  exited : ℕ → Outcome
  aborted : Outcome

-- the rest of the line from a place on, or the exception
abbrev with_rest : Option Bytes → (Bytes → Outcome) → Outcome
with_rest none f = aborted
with_rest (some rest) f = f rest

abbrev or_keep {ℓ} : {A : Type ℓ} → Option A → A → A
or_keep none a = a
or_keep (some b) a = b

module _ (can_open : Bytes → Bool) where
  -- A file stream after `open`.
  abbrev pub opened : Bytes → Option Bytes
  opened name = if can_open name then some name else none

  unfoldable pub new_noise_controller : NoiseController
  new_noise_controller = record {
    set_logging = true;
    data_loss = 0;
    packet_delay = 0;
    log_file = opened (codes "log.txt");
  }

  unfoldable pub set_descriptor : NoiseController → Bytes → Outcome
  set_descriptor s line =
      with_rest (substr 5 line)
        λ name. running (record s { log_file = opened name }) (log_set name ∷ [])

unfoldable pub set_delay : NoiseController → Bytes → Outcome
set_delay s line = with_rest (substr 10 line) λ command.
    let delay = or_keep (extract_unsigned command) s.packet_delay in
    running (record s { packet_delay = delay }) (delay_set delay ∷ [])

-- `garbage` is what the uninitialised `ploss` happens to hold.
unfoldable pub set_ploss : ℤ → NoiseController → Bytes → Outcome
set_ploss garbage s line = with_rest (substr 9 line) λ command.
    let ploss = or_keep (extract_int command) garbage in
    if leb_ℤ ploss (pos 100) && leb_ℤ (pos 0) ploss
    then running (record s { data_loss = pos_part ploss }) (loss_set (pos_part ploss) ∷ [])
    else running s (loss_refused ∷ [])

unfoldable pub check_command : (Bytes → Bool) → ℤ → NoiseController → Bytes → Outcome
check_command can_open garbage s line =
    let command = before b' ' line in
    if same_bytes command (codes "/quit")
    then exited 1
    else if same_bytes command (codes "/setdelay")
    then set_delay s line
    else if same_bytes command (codes "/setloss")
    then set_ploss garbage s line
    else if same_bytes command (codes "/log")
    then set_descriptor can_open s line
    else if same_bytes command (codes "/help")
    then running s (help ∷ [])
    else running s (not_a_command command ∷ [])

-- `true` means that the packet is kept.
unfoldable pub packet_drop_check : NoiseController → ℕ → Bool
packet_drop_check s random = ltb s.data_loss (random % 99)
