-- ===== src/Sta/Script/Shutdowns.antt =====
-- The shutdowns in the request channel of src/sta/mod.rs.
use wifi_ctrl.Prelude.{ℕ, ◌+◌, List, [], ◌∷◌, ◌++◌, some, if◌then◌else◌, ◌≡◌, refl, ap, ◌∙◌, arith}
use wifi_ctrl.Socket.Channel.{Mpsc, IsMpsc}
use wifi_ctrl.Socket.Channel.Room.{send-sent}
use wifi_ctrl.Sta.Calls.{Call, build_request}
use wifi_ctrl.Sta.Client.{Request, is_shutdown}
use wifi_ctrl.Sta.System.{System}

-- The shutdowns in the request channel.
abbrev pub shutdowns : List Request → ℕ
shutdowns [] = 0
shutdowns (r ∷ rs) = (if is_shutdown r then 1 else 0) + shutdowns rs

shutdowns-append :
    (q : List Request) (r : Request) → shutdowns (q ++ r ∷ []) ≡ shutdowns q + shutdowns (r ∷ [])
shutdowns-append [] r = omega arith
shutdowns-append (x ∷ q) r = omega (arith, shutdowns-append q r)

pub build_request-shutdowns : (k : Call) (c : ℕ) → shutdowns (build_request k c ∷ []) ≡ 0
unfolding is_shutdown build_request
build_request-shutdowns (Call.send_custom custom) c = refl
build_request-shutdowns Call.get_scan c = refl
build_request-shutdowns Call.get_networks c = refl
build_request-shutdowns Call.get_status c = refl
build_request-shutdowns Call.add_network c = refl
build_request-shutdowns (Call.set_network_psk id psk) c = refl
build_request-shutdowns (Call.set_network_ssid id ssid) c = refl
build_request-shutdowns (Call.set_network_bssid id bssid) c = refl
build_request-shutdowns (Call.set_network_keymgmt id mgmt) c = refl
build_request-shutdowns Call.save_config c = refl
build_request-shutdowns Call.reload_config c = refl
build_request-shutdowns (Call.remove_network id) c = refl
build_request-shutdowns Call.remove_all_networks c = refl
build_request-shutdowns (Call.select_network id) c = refl

pub shutdown-shutdowns : shutdowns (Request.shutdown ∷ []) ≡ 1
unfolding is_shutdown
shutdown-shutdowns = refl

-- A send adds its request.
pub sent-shutdowns :
    {C : Type 0} (m : Mpsc Request C) (s : System C) (r : Request) (ch' : C)
    → IsMpsc m
    → m.send r s.ch ≡ some ch'
    → shutdowns (m.queue ch') ≡ shutdowns (m.queue s.ch) + shutdowns (r ∷ [])
sent-shutdowns m s r ch' laws e =
    ap shutdowns (send-sent m laws r s.ch ch' e) ∙ shutdowns-append (m.queue s.ch) r
