-- ===== src/WebSocket/Feed/Loop.antt =====
-- Lemmas on the loop of `feed_data` of src/veloce/websocket.py and its fuel.
use veloce.Prelude.{
  ℕ, zero, suc, ◌≤◌, ◌<◌, ◌≡◌, refl, ap, sym, ◌∙◌, Bool, true, false, List, [], ◌∷◌, ◌++◌, nat_beq,
  length, length-drop, drop, if◌then◌else◌, arith, Bool-cases, inl, inr,
}
use veloce.WebSocket.Frame.{Parsed, incomplete, protocol_error, too_big, frame, read_frame}
use veloce.WebSocket.Connection.{
  Socket, Config, Outcome, consumed, disconnect, handle_frame, handle_parsed, parse_frame,
}
use veloce.WebSocket.Connection.Kept.{IsKept, parse_frame-Kept}
use veloce.WebSocket.Feed.{Fed, returned, next, feed_frames}
use veloce.WebSocket.Feed.Consumed.{Takes, handle_frame-Takes, Settles, read_frame-Settles}

pub nil_of_length : (xs : List ℕ) → length xs ≤ 0 → xs ≡ []
nil_of_length [] h = refl
nil_of_length (x ∷ xs) h = ground arith

module _ (config : Config) where
  pub feed_frames-closed :
      (fuel : ℕ) (buffer : List ℕ) (s : Socket)
      → s.closed ≡ true
      → feed_frames config fuel buffer s ≡ returned buffer s
  unfolding feed_frames
  feed_frames-closed zero buffer s h = refl
  feed_frames-closed (suc fuel) buffer s h = rw h refl

  pub feed_frames-open :
      (fuel : ℕ) (buffer : List ℕ) (s : Socket)
      → s.closed ≡ false
      → feed_frames config (suc fuel) buffer s
        ≡ next config (λ b t. feed_frames config fuel b t) buffer (parse_frame config buffer s)
  unfolding feed_frames
  feed_frames-open fuel buffer s h =
      ap
        (λ (c : Bool).
          if c
          then returned buffer s
          else next config (λ b t. feed_frames config fuel b t) buffer
              (parse_frame config buffer s))
        h

  -- At most `l` bytes were taken.
  abbrev Within : ℕ → Outcome × Socket → Type 0
  Within l (consumed m, s) = m ≤ l
  Within l (disconnect code, s) = Unit

  Takes-Within : (n l : ℕ) (r : Outcome × Socket) → Takes n r → n ≤ l → Within l r
  Takes-Within n l (consumed m, s) (inl e) h = omega arith
  Takes-Within n l (consumed m, s) (inr (e, c)) h = omega arith
  Takes-Within n l (disconnect code, s) t h = tt

  handle_parsed-Within :
      (l : ℕ) (later p : Parsed) (s : Socket)
      → Settles l later p
      → Within l (handle_parsed config p s)
  unfolding handle_parsed
  handle_parsed-Within l later incomplete s h = omega arith
  handle_parsed-Within l later protocol_error s h = omega arith
  handle_parsed-Within l later too_big s h = omega arith
  handle_parsed-Within l later (frame fin opcode payload n) s (e, le, lt) =
      Takes-Within n l (handle_frame config fin opcode payload n s)
        (handle_frame-Takes config fin opcode payload n s) le

  parse_frame-Within :
      (buffer : List ℕ) (s : Socket) → Within (length buffer) (parse_frame config buffer s)
  unfolding parse_frame
  parse_frame-Within buffer s =
      handle_parsed-Within (length buffer) (read_frame config.max_frame_size (buffer ++ []))
        (read_frame config.max_frame_size buffer) s
        (read_frame-Settles config.max_frame_size buffer [])

  -- Rounds that agree on what a round leaves agree.
  next-agree :
      (again again' : List ℕ → Socket → Fed) (buffer : List ℕ) (r : Outcome × Socket)
      → Within (length buffer) r
      → ((b : List ℕ) (t : Socket) → length b < length buffer → again b t ≡ again' b t)
      → next config again buffer r ≡ next config again' buffer r
  next-agree again again' buffer (disconnect code, s) w h = refl
  next-agree again again' buffer (consumed m, s) w h = elim (Bool-cases (nat_beq m 0)) [
    | inl t ↦ rw t refl
    | inr f ↦
        let shorter : length (drop m buffer) < length buffer =
          ground (arith, length-drop m buffer) in
        rw f (h (drop m buffer) s shorter)
  ]

  pub feed_frames-nil : (fuel : ℕ) (s : Socket) → feed_frames config fuel [] s ≡ returned [] s
  unfolding feed_frames parse_frame handle_parsed read_frame
  feed_frames-nil zero s = refl
  feed_frames-nil (suc fuel) s = elim (Bool-cases s.closed) [
    | inl t ↦ rw t refl
    | inr f ↦ rw f refl
  ]

  -- The loop ends before the fuel does: with as much fuel as there are bytes, or more, the outcome is
  -- the same.
  pub feed_frames-fuel :
      (fuel more : ℕ) (buffer : List ℕ) (s : Socket)
      → length buffer ≤ fuel
      → length buffer ≤ more
      → feed_frames config fuel buffer s ≡ feed_frames config more buffer s
  feed_frames-fuel zero more buffer s h k =
      rw (nil_of_length buffer h) (feed_frames-nil zero s ∙ sym (feed_frames-nil more s))
  feed_frames-fuel (suc fuel) zero buffer s h k =
      rw (nil_of_length buffer k) (feed_frames-nil (suc fuel) s ∙ sym (feed_frames-nil zero s))
  feed_frames-fuel (suc fuel) (suc more) buffer s h k = elim (Bool-cases s.closed) [
    | inl t ↦
        feed_frames-closed (suc fuel) buffer s t ∙ sym (feed_frames-closed (suc more) buffer s t)
    | inr f ↦
        feed_frames-open fuel buffer s f
        ∙ next-agree (λ b t. feed_frames config fuel b t) (λ b t. feed_frames config more b t)
            buffer (parse_frame config buffer s) (parse_frame-Within buffer s)
            (λ b t l. feed_frames-fuel fuel more b t (omega arith) (omega arith))
        ∙ sym (feed_frames-open more buffer s f)
  ]

module _ {config : Config} {P : Socket → Type 0} (kept : IsKept config P) where
  next-Kept :
      (again : List ℕ → Socket → Fed) (buffer : List ℕ) (r : Outcome × Socket)
      → ((b : List ℕ) (t : Socket) → P t → P (again b t).socket)
      → P r.1
      → P (next config again buffer r).socket
  next-Kept again buffer (disconnect code, s) h n = n
  next-Kept again buffer (consumed m, s) h n = elim (Bool-cases (nat_beq m 0)) [
    | inl t ↦ rw t n
    | inr f ↦ rw f (h (drop m buffer) s n)
  ]

  pub feed_frames-Kept :
      (fuel : ℕ) (buffer : List ℕ) (s : Socket) → P s → P (feed_frames config fuel buffer s).socket
  feed_frames-Kept zero buffer s h = unfold feed_frames in h
  feed_frames-Kept (suc fuel) buffer s h = elim (Bool-cases s.closed) [
    | inl t ↦ rw (feed_frames-closed config (suc fuel) buffer s t) h
    | inr f ↦ rw (feed_frames-open config fuel buffer s f) (
        next-Kept (λ b t. feed_frames config fuel b t) buffer (parse_frame config buffer s)
          (λ b t n. feed_frames-Kept fuel b t n) (parse_frame-Kept kept buffer s h))
  ]
