-- ===== src/Router/Noise/Tests.antt =====
-- Uses of the laws of 7005_NVirt/NVirt/src/NoiseController.cpp.
use ridingthecode.Common.{◌≤◌, ◌≡◌, refl, [], ◌∷◌, Bool, true, none, arith}
use ridingthecode.Common.Int.{pos}
use ridingthecode.Common.Text.{Bytes, codes, before, same_bytes}
use ridingthecode.Router.Noise.{NoiseController, help, running, check_command}
use ridingthecode.Router.Noise.Commands.{check_command-loss-le}

abbrev always : Bytes → Bool
always name = true

abbrev settings : NoiseController
settings = record { set_logging = true; data_loss = 0; packet_delay = 0; log_file = none }

help_shown : check_command always (pos 7) settings (codes "/help") ≡ running settings (help ∷ [])
unfolding check_command before same_bytes
help_shown = refl

check_command-loss-le_example : settings.data_loss ≤ 100
check_command-loss-le_example =
    check_command-loss-le always (pos 7) settings settings (codes "/help") (help ∷ []) (omega arith)
      help_shown
