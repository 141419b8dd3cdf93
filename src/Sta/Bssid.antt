-- ===== src/Sta/Bssid.antt =====
-- `Bssid` of src/sta/types.rs.
pub mod Laws
pub mod Iff
use wifi_ctrl.Prelude.{
  ℕ, zero, suc, Bool, true, false, not, ◌&&◌, ◌||◌, List, [], ◌∷◌, ◌++◌, ◌==◌, if◌then◌else◌,
  Result, ok, err, ◌>>=◌, map_err, map, length, all, All, ◌≡◌, refl, ok_or, Option, none, some,
}
use wifi_ctrl.Text.{Bytes, split}
use wifi_ctrl.Text.Hex.{lower_hex, is_ascii_hexdigit, IsByte}
use wifi_ctrl.Text.Join.{join}
use wifi_ctrl.Text.Number.{parse_hex_u8}
use wifi_ctrl.Errors.{ClientError, ClientResult, invalid_bssid}

-- `[u8; 6]`.
pub record Bssid : Type 0 where
  pub mac : Bytes

-- `Bssid::from`.
abbrev pub from_bytes : Bytes → Bssid
from_bytes mac = record { mac = mac }

pub record IsBssid (b : Bssid) : Type 0 where
  pub six : length b.mac ≡ 6
  pub bytes : All IsByte b.mac

-- `octets.next()`, its test, and its value.
unfoldable pub parse_octet : List Bytes → ClientResult (ℕ × List Bytes)
parse_octet [] = err invalid_bssid
parse_octet (octet ∷ octets) =
    if not (length octet == 2) || not (all is_ascii_hexdigit octet)
    then err invalid_bssid
    else do b ← map_err (λ _. invalid_bssid) (parse_hex_u8 octet); ok (b, octets)

-- `for byte in mac.iter_mut()`, by the bytes still to fill, with the octets left over.
unfoldable pub parse_octets : ℕ → List Bytes → ClientResult (Bytes × List Bytes)
parse_octets zero octets = ok ([], octets)
parse_octets (suc n) octets = do
  next ← parse_octet octets
  rest ← parse_octets n next.1
  ok (next.0 ∷ rest.0, rest.1)

-- `octets.next().is_some()`.
abbrev no_more : Bytes × List Bytes → ClientResult Bssid
no_more (mac, []) = ok (record { mac = mac })
no_more (mac, o ∷ octets) = err invalid_bssid

unfoldable pub from_str : Bytes → ClientResult Bssid
from_str s = do read ← parse_octets 6 (split b':' s); no_more read

-- `{a:02x}:{b:02x}:{c:02x}:{d:02x}:{e:02x}:{g:02x}`.
unfoldable pub display : Bssid → Bytes
display b = join b':' (map lower_hex b.mac)
