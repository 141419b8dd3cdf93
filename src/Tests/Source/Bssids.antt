-- ===== src/Tests/Source/Bssids.antt =====
-- The tests of BSSIDs in src/sta/mod.rs.
use wifi_ctrl.Prelude.{Bool, true, false, ◌&&◌, List, [], ◌∷◌, ok, err, all, ◌≡◌, refl}
use wifi_ctrl.Text.{Bytes, codes, bytes_eq, split}
use wifi_ctrl.Text.Join.{join}
use wifi_ctrl.Text.Number.{parse_hex_u8, parse_digits}
use wifi_ctrl.Errors.{ClientResult, invalid_bssid}
use wifi_ctrl.Sta.Bssid.{Bssid, from_bytes, from_str, display, parse_octet, parse_octets}

-- `==` of two BSSIDs, which is derived.
abbrev bssid_eq : Bssid → Bssid → Bool
bssid_eq a b = bytes_eq a.mac b.mac

-- `assert_eq!(bssid.unwrap().to_string(), s)`.
abbrev displays : Bytes → ClientResult Bssid → Bool
displays s (ok bssid) = bytes_eq (display bssid) s
displays s (err e) = false

abbrev equals : Bssid → ClientResult Bssid → Bool
equals b (ok bssid) = bssid_eq b bssid
equals b (err e) = false

-- `matches!(bssid, Err(ClientError::InvalidBssid))`.
abbrev is_invalid_bssid : ClientResult Bssid → Bool
is_invalid_bssid (err invalid_bssid) = true
is_invalid_bssid _ = false

abbrev bssid_roundtrips_raw_and_unquoted : Bool
bssid_roundtrips_raw_and_unquoted =
    displays (codes "cc:7b:5c:1a:d2:21") (from_str (codes "cc:7b:5c:1a:d2:21"))
    && equals (from_bytes (0xcc ∷ 0x7b ∷ 0x5c ∷ 0x1a ∷ 0xd2 ∷ 0x21 ∷ []))
        (from_str (codes "cc:7b:5c:1a:d2:21"))

abbrev bssid_is_canonicalized : Bool
bssid_is_canonicalized = displays (codes "cc:7b:5c:1a:d2:21") (from_str (codes "CC:7B:5C:1A:D2:21"))

abbrev malformed : List Bytes
malformed =
    codes "cc:7b:5c:1a:d2"
    ∷ codes "cc:7b:5c:1a:d2:21:33"
    ∷ codes "cc:7b:5c:1a:d2:21 x"
    ∷ codes "cc:7b:5c:1a:d2:+1"
    ∷ codes "not-a-mac"
    ∷ codes ""
    ∷ []

abbrev malformed_bssid_is_rejected : Bool
malformed_bssid_is_rejected = all (λ bad. is_invalid_bssid (from_str bad)) malformed

-- The example in the documentation of `Bssid`, in src/sta/types.rs.
abbrev bssid_example : Bool
bssid_example =
    displays (codes "cc:7b:5c:1a:d2:21") (from_str (codes "CC:7B:5C:1A:D2:21"))
    && equals (from_bytes (0xcc ∷ 0x7b ∷ 0x5c ∷ 0x1a ∷ 0xd2 ∷ 0x21 ∷ []))
        (from_str (codes "CC:7B:5C:1A:D2:21"))
    && is_invalid_bssid (from_str (codes "cc:7b:5c:1a:d2"))

bssids_pass :
    (bssid_roundtrips_raw_and_unquoted ≡ true)
    × (bssid_is_canonicalized ≡ true)
    × (malformed_bssid_is_rejected ≡ true)
    × (bssid_example ≡ true)
unfolding from_str parse_octets parse_octet parse_hex_u8 parse_digits display join split bytes_eq
bssids_pass = (refl, refl, refl, refl)
