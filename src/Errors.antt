-- ===== src/Errors.antt =====
-- src/error.rs, `ConfigError` of src/config.rs, and what they carry.
use wifi_ctrl.Prelude.{ℕ, Result}
use wifi_ctrl.Text.{Bytes}
use wifi_ctrl.Text.Number.{IntError}
use wifi_ctrl.Text.Utf8.{Utf8Error}

-- `std::io::Error`, by its kind and its code.
pub data ErrorKind : Type 0 where
  permission_denied other_kind : ErrorKind

pub record IoError : Type 0 where
  pub kind : ErrorKind
  pub code : ℕ

pub data SocketError : Type 0 where
  io : IoError → SocketError
  startup_aborted client_channel_closed : SocketError
  timeout_opening_socket permission_denied_opening_socket attach_failed : Bytes → SocketError

pub data ConfigError : Type 0 where
  missing_delimiter_equal invalid_escape incomplete_escape non_utf8_escape : ConfigError
  serde_error : Bytes → ConfigError

pub data ParseError : Type 0 where
  not_ok : ParseError
  parse_config : ConfigError → ParseError
  parse_int : IntError → ParseError
  utf8_parse : Utf8Error → ParseError

pub data ClientError : Type 0 where
  failed timeout runner_not_running pending_select invalid_psk invalid_bssid : ClientError
  parsing_response : ParseError → Bytes → ClientError
  did_not_write_all_bytes : ℕ → ℕ → ClientError

-- `Result<T>` of the crate's clients.
abbrev pub ClientResult {ℓ} : Type ℓ → Type ℓ
ClientResult A = Result ClientError A

-- `ClientError::from` of a `SendError`, which carries the value that was not sent, and of a `RecvError`.
abbrev pub from_send_error {ℓ} : {T : Type ℓ} → T → ClientError
from_send_error unsent = runner_not_running

abbrev pub from_recv_error : ClientError
from_recv_error = runner_not_running
