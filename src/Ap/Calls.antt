-- ===== src/Ap/Calls.antt =====
-- `RequestClient` of src/ap/client.rs: the request that each of its methods makes, and what the method
-- returns.
use wifi_ctrl.Prelude.{ℕ, Option, none, some}
use wifi_ctrl.Text.{Bytes}
use wifi_ctrl.Errors.{ClientResult}
use wifi_ctrl.Ap.Client.{Request, Answer, text, status_is, config_is, finished}
use wifi_ctrl.Ap.Types.{Status, Config}

-- The methods that wait for an answer, with their arguments.
pub data ApCall : Type 0 where
  send_custom : Bytes → ApCall
  get_status get_config enable disable : ApCall
  set_value : Bytes → Bytes → ApCall

-- `build_request` of the method's `request`, at the oneshot channel.
unfoldable pub build_ap_request : ApCall → ℕ → Request
build_ap_request (send_custom custom) c = Request.custom custom c
build_ap_request get_status c = Request.status c
build_ap_request get_config c = Request.config c
build_ap_request enable c = Request.enable c
build_ap_request disable c = Request.disable c
build_ap_request (set_value key value) c = Request.set_value key value c

-- The type that the method returns, in a `Result`.
abbrev pub ApReturned : ApCall → Type 0
ApReturned (send_custom custom) = Bytes
ApReturned get_status = Status
ApReturned get_config = Config
ApReturned enable = Unit {0}
ApReturned disable = Unit {0}
ApReturned (set_value key value) = Unit {0}

-- What the method gives for an answer of its channel's type: `request.await?` in `request`.
unfoldable pub receive_ap : (k : ApCall) → Answer → Option (ClientResult (ApReturned k))
receive_ap (send_custom custom) a = elim a [ text r ↦ some r | _ ↦ none ]
receive_ap get_status a = elim a [ status_is r ↦ some r | _ ↦ none ]
receive_ap get_config a = elim a [ config_is r ↦ some r | _ ↦ none ]
receive_ap enable a = elim a [ finished r ↦ some r | _ ↦ none ]
receive_ap disable a = elim a [ finished r ↦ some r | _ ↦ none ]
receive_ap (set_value key value) a = elim a [ finished r ↦ some r | _ ↦ none ]
