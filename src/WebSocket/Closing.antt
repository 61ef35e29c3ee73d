-- ===== src/WebSocket/Closing.antt =====
-- `_sanitise_close` of src/veloce/websocket.py. A reason is its bytes in UTF-8, and decoding is the
-- test of Utf8.
use veloce.Prelude.{
  ℕ, zero, suc, ◌≤◌, ◌≡◌, refl, true, List, [], leb, length, take, length-take, if◌then◌else◌,
  Bool-cases, inl, inr, arith,
}
use veloce.WebSocket.Utf8.{is_utf8}
use veloce.WebSocket.Connection.{is_peer_close_code}

-- The loop, on the first n bytes: the last one is dropped until the rest decodes.
unfoldable pub truncate : ℕ → List ℕ → List ℕ
truncate zero encoded = []
truncate (suc n) encoded =
    let rest = truncate n encoded in
    if is_utf8 (take (suc n) encoded) then take (suc n) encoded else rest

unfoldable pub sanitise_close : ℕ → List ℕ → ℕ × List ℕ
unfolding truncate
sanitise_close code reason = (
  if is_peer_close_code code then code else 1000,
  if leb (length reason) 123 then reason else truncate 123 reason,
)

truncate-IsValid :
    (n : ℕ) (s : List ℕ) → (length (truncate n s) ≤ n) × (is_utf8 (truncate n s) ≡ true)
unfolding truncate is_utf8
truncate-IsValid zero s = (omega arith, refl)
truncate-IsValid (suc n) s = elim (Bool-cases (is_utf8 (take (suc n) s))) [
  | inl t ↦ rw t (omega (arith, length-take (suc n) s), t)
  | inr f ↦ rw f (omega (arith, (truncate-IsValid n s).0), (truncate-IsValid n s).1)
]

-- Whatever code and reason are asked for, the code that goes out is one that a peer may send, and
-- the reason is valid UTF-8 of at most 123 bytes, if it was valid UTF-8.
pub sanitise_close-IsValid :
    (code : ℕ) (reason : List ℕ)
    → is_utf8 reason ≡ true
    → let (code', reason') = sanitise_close code reason in
      (is_peer_close_code code' ≡ true) × (length reason' ≤ 123) × (is_utf8 reason' ≡ true)
unfolding sanitise_close
sanitise_close-IsValid code reason h = (
  elim (Bool-cases (is_peer_close_code code)) [ inl t ↦ rw t t | inr f ↦ rw f refl ],
  elim (Bool-cases (leb (length reason) 123)) [
    | inl t ↦ rw t (ground arith)
    | inr f ↦ rw f (truncate-IsValid 123 reason).0
  ],
  elim (Bool-cases (leb (length reason) 123)) [
    | inl t ↦ rw t h
    | inr f ↦ rw f (truncate-IsValid 123 reason).1
  ],
)
