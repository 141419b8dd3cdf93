-- ===== src/Examples/Sta.antt =====
-- examples/wifi-sta.rs. The list of interfaces, and the two lines that `read_until_break` reads, are
-- given; `none` for one of these, and as a result, is a panic.
pub mod Starts
pub mod Ends
use wifi_ctrl.Prelude.{ℕ, ◌++◌, List, Option, some, to_option}
use wifi_ctrl.Prelude.Options.{◌>>=◌}
use wifi_ctrl.Prelude.Sorting.{sort_by}
use wifi_ctrl.Text.{Bytes, codes}
use wifi_ctrl.Text.Number.{parse_unsigned, usize_max}
use wifi_ctrl.Text.Trim.{trim}
use wifi_ctrl.Socket.Channel.Make.{Maker}
use wifi_ctrl.Sta.Calls.{Call}
use wifi_ctrl.Sta.Script.{Script, finish, ask, shut_down}
use wifi_ctrl.Sta.Setup.{WifiStation, new, set_socket_path, complete}
use wifi_ctrl.Examples.{NetworkInterface, leb_index, get_elem?, accept}

abbrev pub path_front : Bytes
path_front = codes "/var/run/wpa_supplicant/"

-- `main` up to its `join!`: the station that runs there, next to `app` and the listener.
unfoldable pub main :
    {C B : Type 0}
    → Maker C
    → Maker B
    → Option (List NetworkInterface)
    → Option Bytes
    → Option Bytes
    → Option (WifiStation C B)
unfolding new set_socket_path accept
main channels senders shown first_line second_line = do
  network_interfaces ← shown
  index_input ← first_line
  index ← to_option (parse_unsigned usize_max (trim index_input))
  setup ← new channels senders
  itf ← get_elem? (sort_by leb_index network_interfaces) index
  path_input ← second_line
  some (complete (set_socket_path (accept (path_front ++ itf.name) path_input) setup))

-- What it logs of the answers is left out.
unfoldable pub app : Script
app = ask Call.get_scan (λ scan. ask Call.get_networks (λ networks. shut_down finish))
