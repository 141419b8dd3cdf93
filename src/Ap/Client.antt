-- ===== src/Ap/Client.antt =====
-- The requests, answers and broadcasts of src/ap/client.rs. A `oneshot::Sender` is the number of its
-- channel.
use wifi_ctrl.Prelude.{ℕ, Bool, true, false}
use wifi_ctrl.Text.{Bytes}
use wifi_ctrl.Errors.{ClientResult}
use wifi_ctrl.Ap.Types.{Status, Config}

pub data Request : Type 0 where
  custom : Bytes → ℕ → Request
  status config enable disable : ℕ → Request
  set_value : Bytes → Bytes → ℕ → Request
  shutdown : Request

unfoldable pub is_shutdown : Request → Bool
is_shutdown shutdown = true
is_shutdown _ = false

-- What goes through a channel, by the channel's type.
pub data Answer : Type 0 where
  text : ClientResult Bytes → Answer
  status_is : ClientResult Status → Answer
  config_is : ClientResult Config → Answer
  finished : ClientResult (Unit {0}) → Answer

pub data Broadcast : Type 0 where
  ready : Broadcast
  connected disconnected unknown_event : Bytes → Broadcast
