-- ===== src/Config/Unprintf.antt =====
-- `unprintf` of src/config.rs. The iterator over bytes is the rest of the list.
use wifi_ctrl.Prelude.{
  ℕ, true, false, [], ◌∷◌, ◌++◌, ◌==◌, if◌then◌else◌, Result, ok, err, ◌>>=◌, map_err,
}
use wifi_ctrl.Text.{Bytes}
use wifi_ctrl.Text.Number.{parse_hex_u8}
use wifi_ctrl.Text.Utf8.{from_utf8}
use wifi_ctrl.Errors.{ConfigError, invalid_escape, incomplete_escape, non_utf8_escape}

-- The byte for a letter behind a backslash, other than `x`.
unfoldable pub plain_escape : ℕ → ℕ
plain_escape c =
    if c == b'n'
    then b'\n'
    else if c == b'r'
    then b'\r'
    else if c == b't'
    then b'\t'
    else if c == b'e'
    then 0x1b
    else c

-- The byte of `\xhl`.
unfoldable pub hex_escape : ℕ → ℕ → Result ConfigError ℕ
hex_escape h l = do
  hex ← map_err (λ _. invalid_escape) (from_utf8 (h ∷ l ∷ []))
  map_err (λ _. invalid_escape) (parse_hex_u8 hex)

-- The loop: at the start of a character, behind a backslash, and behind `\x`.
unfoldable mutual
  pub unescape : Bytes → Bytes → Result ConfigError Bytes
  unescape unescaped [] = ok unescaped
  unescape unescaped (c ∷ bytes) = elim (c == b'\\') [
    | true ↦ unescape_code unescaped bytes
    | false ↦ unescape (unescaped ++ c ∷ []) bytes
  ]

  pub unescape_code : Bytes → Bytes → Result ConfigError Bytes
  unescape_code unescaped [] = err incomplete_escape
  unescape_code unescaped (c ∷ bytes) = elim (c == b'x') [
    | true ↦ unescape_hex unescaped bytes
    | false ↦ unescape (unescaped ++ plain_escape c ∷ []) bytes
  ]

  pub unescape_hex : Bytes → Bytes → Result ConfigError Bytes
  unescape_hex unescaped [] = err incomplete_escape
  unescape_hex unescaped (h ∷ []) = err incomplete_escape
  unescape_hex unescaped (h ∷ l ∷ bytes) = do
    c ← hex_escape h l
    unescape (unescaped ++ c ∷ []) bytes

unfoldable pub unprintf : Bytes → Result ConfigError Bytes
unprintf escaped = do
  unescaped ← unescape [] escaped
  map_err (λ _. non_utf8_escape) (from_utf8 unescaped)
