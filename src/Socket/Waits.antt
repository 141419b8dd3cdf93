-- ===== src/Socket/Waits.antt =====
-- When the wait for the socket ends well, and with which requests put off.
use wifi_ctrl.Prelude.{
  ℕ, ◌+◌, Bool, false, List, [], Result, ok, ◌∷◌, ◌++◌, none, some, ◌≡◌, refl, ◌↔◌, ◌⊎◌, inl, inr,
  sym, ◌∙◌, ap, Bool-cases,
}
use mathlib.Core.List.{append_assoc, append-nil}
use wifi_ctrl.Text.{Bytes}
use wifi_ctrl.Errors.{
  ErrorKind, permission_denied, other_kind, IoError, permission_denied_opening_socket,
  startup_aborted,
}
use wifi_ctrl.Socket.Open.{
  Happening, connects, refused, receives, deadline, opened, gave_up, wait_open, open_socket,
}

module _ {ℓ} {S : Type ℓ} (is_shutdown : S → Bool) where
  -- The requests received before the first success, and that nothing before it ends the wait.
  pub data Waits : List (Happening S) → List S → Type ℓ where
    now : {rest : List (Happening S)} → Waits (connects ∷ rest) []
    retry :
        {e : IoError} {rest : List (Happening S)} {rs : List S}
        → e.kind ≡ other_kind
        → Waits rest rs
        → Waits (refused e ∷ rest) rs
    closed :
        {rest : List (Happening S)} {rs : List S} → Waits rest rs → Waits (receives none ∷ rest) rs
    put_off :
        {r : S} {rest : List (Happening S)} {rs : List S}
        → is_shutdown r ≡ false
        → Waits rest rs
        → Waits (receives (some r) ∷ rest) (r ∷ rs)

opened-injective {ℓ} : {S : Type ℓ} (a b : List S) → opened a ≡ opened b → a ≡ b
opened-injective a b h = cc

Kind-cases : (k : ErrorKind) → (k ≡ permission_denied) ⊎ (k ≡ other_kind)
Kind-cases permission_denied = inl refl
Kind-cases other_kind = inr refl

module _ {ℓ} {S : Type ℓ} (is_shutdown : S → Bool) (path : Bytes) where
  pub wait_open-Waits :
      {hs : List (Happening S)} {rs : List S} (n : ℕ) (acc : List S)
      → Waits is_shutdown hs rs
      → wait_open is_shutdown path hs n acc ≡ opened (acc ++ rs)
  unfolding wait_open
  wait_open-Waits n acc now = ap opened (sym (append-nil acc))
  wait_open-Waits n acc (retry e w) = rw (e, wait_open) (wait_open-Waits (n + 1) acc w)
  wait_open-Waits n acc (closed w) = wait_open-Waits n acc w
  wait_open-Waits n acc (put_off {r} {rs = rs} e w) =
      rw (e, wait_open)
        (wait_open-Waits n (acc ++ r ∷ []) w ∙ ap opened (append_assoc acc (r ∷ []) rs))

  opened_only :
      (hs : List (Happening S)) (n : ℕ) (acc ds : List S)
      → wait_open is_shutdown path hs n acc ≡ opened ds
      → (rs : List S) × Waits is_shutdown hs rs × (ds ≡ acc ++ rs)
  unfolding wait_open
  opened_only [] n acc ds h = cc
  opened_only (connects ∷ hs) n acc ds h =
      ([], now, opened-injective ds acc (sym h) ∙ sym (append-nil acc))
  opened_only (refused e ∷ hs) n acc ds h = elim (Kind-cases e.kind) [
    | inl denied ↦
        let ends : wait_open is_shutdown path (refused e ∷ hs) n acc
            ≡ gave_up (permission_denied_opening_socket path) =
          rw (denied, wait_open) refl in
        cc
    | inr other ↦
        let goes_on : wait_open is_shutdown path (refused e ∷ hs) n acc
            ≡ wait_open is_shutdown path hs (n + 1) acc =
          rw (other, wait_open) refl in
        let (rs, w, q) = opened_only hs (n + 1) acc ds (sym goes_on ∙ h) in (rs, retry other w, q)
  ]
  opened_only (receives none ∷ hs) n acc ds h =
      let (rs, w, q) = opened_only hs n acc ds h in (rs, closed w, q)
  opened_only (receives (some r) ∷ hs) n acc ds h = elim (Bool-cases (is_shutdown r)) [
    | inl ends ↦
        let stops : wait_open is_shutdown path (receives (some r) ∷ hs) n acc
            ≡ gave_up startup_aborted =
          rw (ends, wait_open) refl in
        cc
    | inr other ↦
        let goes_on : wait_open is_shutdown path (receives (some r) ∷ hs) n acc
            ≡ wait_open is_shutdown path hs n (acc ++ r ∷ []) =
          rw (other, wait_open) refl in
        let (rs, w, q) = opened_only hs n (acc ++ r ∷ []) ds (sym goes_on ∙ h) in
        (r ∷ rs, put_off other w, q ∙ append_assoc acc (r ∷ []) rs)
  ]
  opened_only (deadline ∷ hs) n acc ds h = cc

  -- The socket is opened exactly when `connect` succeeds before the five minutes are over, before a
  -- refusal for want of permission and before a shutdown; the requests received before are put off in
  -- their order.
  pub wait_open-opened :
      (hs : List (Happening S)) (ds : List S)
      → (wait_open is_shutdown path hs 0 [] ≡ opened ds) ↔ Waits is_shutdown hs ds
  wait_open-opened hs ds = (sound, λ w. wait_open-Waits 0 [] w)
    where
      sound : wait_open is_shutdown path hs 0 [] ≡ opened ds → Waits is_shutdown hs ds
      sound h = let (rs, w, q) = opened_only hs 0 [] ds h in rw q w

  pub open_socket-Waits :
      (b : Result IoError (Unit {0})) (hs : List (Happening S)) (ds : List S)
      → b ≡ ok tt
      → Waits is_shutdown hs ds
      → open_socket is_shutdown path b hs ≡ opened ds
  unfolding open_socket
  open_socket-Waits b hs ds e w =
      ap (λ b'. open_socket is_shutdown path b' hs) e ∙ wait_open-Waits 0 [] w
