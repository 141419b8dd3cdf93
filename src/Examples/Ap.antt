-- ===== src/Examples/Ap.antt =====
-- examples/wifi-ap.rs. The list of interfaces, and the two lines that `read_until_break` reads, are
-- given; `none` for one of these, and as a result, is a panic.
pub mod Starts
use wifi_ctrl.Prelude.{ℕ, ◌++◌, List, Option, some, ok, to_option}
use wifi_ctrl.Prelude.Options.{◌>>=◌}
use wifi_ctrl.Prelude.Sorting.{sort_by}
use wifi_ctrl.Text.{Bytes, codes}
use wifi_ctrl.Text.Number.{parse_unsigned, usize_max}
use wifi_ctrl.Text.Trim.{trim}
use wifi_ctrl.Errors.{ClientResult}
use wifi_ctrl.Socket.Channel.Make.{Maker}
use wifi_ctrl.Ap.Setup.{WifiAp, new, set_socket_path, complete}
use wifi_ctrl.Examples.{NetworkInterface, leb_index, get_elem?, accept}

abbrev pub path_front : Bytes
path_front = codes "/var/run/hostapd/"

-- `main` up to its `join!`: the access point that runs there, next to `app` and the listener.
unfoldable pub main :
    {C B : Type 0}
    → Maker C
    → Maker B
    → Option (List NetworkInterface)
    → Option Bytes
    → Option Bytes
    → Option (WifiAp C B)
unfolding new set_socket_path accept
main channels senders shown first_line second_line = do
  network_interfaces ← shown
  index_input ← first_line
  index ← to_option (parse_unsigned usize_max (trim index_input))
  setup ← new channels senders
  itf ← get_elem? (sort_by leb_index network_interfaces) index
  path_input ← second_line
  some (complete (set_socket_path (accept (path_front ++ itf.name) path_input) setup))

-- It has ended before it asks for anything.
abbrev pub app : ClientResult (Unit {0})
app = ok tt
