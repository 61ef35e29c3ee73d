-- ===== src/WebSocket/Feed/Ended.antt =====
-- How a call of `feed_data` of src/veloce/websocket.py ends.
use veloce.Prelude.{
  ℕ, zero, suc, ◌≤◌, ◌<◌, ◌≡◌, refl, true, false, Option, none, some, List, [], ◌++◌, nat_beq,
  length, length-drop, drop, arith, Bool-cases, ◌⊎◌, inl, inr,
}
use veloce.WebSocket.Frame.{Parsed, incomplete, protocol_error, too_big, frame, read_frame}
use veloce.WebSocket.Connection.{
  Socket, Config, Outcome, consumed, disconnect, terminate_raw, close_control, handle_frame,
  handle_parsed, parse_frame,
}
use veloce.WebSocket.Feed.{Fed, is_nil, note_heartbeat_inbound, next, feed_frames, feed_data}
use veloce.WebSocket.Feed.Consumed.{Takes, handle_frame-Takes, Settles, read_frame-Settles}
use veloce.WebSocket.Feed.Loop.{
  feed_frames-closed, feed_frames-open, feed_frames-nil, nil_of_length,
}

module _ (config : Config) where
  abbrev HasRaised : Option ℕ → Type 0
  HasRaised none = ⊥
  HasRaised (some code) = Unit

  -- A call raised, or it left a closed connection, or no whole frame is left in the buffer.
  abbrev pub IsEnded : Fed → Type 0
  IsEnded r =
      HasRaised r.raised
      ⊎ ((r.socket.closed ≡ true) ⊎ (read_frame config.max_frame_size r.buffer ≡ incomplete))

  next-IsEnded :
      (again : List ℕ → Socket → Fed) (n : ℕ) (buffer : List ℕ) (r : Outcome × Socket)
      → Takes n r
      → 0 < n
      → n ≤ length buffer
      → ((b : List ℕ) (t : Socket) → length b < length buffer → IsEnded (again b t))
      → IsEnded (next config again buffer r)
  next-IsEnded again n buffer (disconnect code, s) t lt le h = inl tt
  next-IsEnded again n buffer (consumed m, s) (inl e) lt le h =
      let whole : nat_beq m 0 ≡ false = ground arith in
      rw whole (h (drop m buffer) s (omega (arith, length-drop m buffer)))
  next-IsEnded again n buffer (consumed m, s) (inr (e, closed)) lt le h = rw e (inr (inl closed))

  parsed-IsEnded :
      (again : List ℕ → Socket → Fed) (buffer : List ℕ) (s : Socket) (later p : Parsed)
      → read_frame config.max_frame_size buffer ≡ p
      → Settles (length buffer) later p
      → ((b : List ℕ) (t : Socket) → length b < length buffer → IsEnded (again b t))
      → IsEnded (next config again buffer (handle_parsed config p s))
  unfolding handle_parsed close_control terminate_raw
  parsed-IsEnded again buffer s later incomplete e t h = inr (inr e)
  parsed-IsEnded again buffer s later protocol_error e t h = inr (inl refl)
  parsed-IsEnded again buffer s later too_big e t h = inr (inl refl)
  parsed-IsEnded again buffer s later (frame fin opcode payload n) e (same, le, lt) h =
      next-IsEnded again n buffer (handle_frame config fin opcode payload n s)
        (handle_frame-Takes config fin opcode payload n s) lt le h

  parse_frame-IsEnded :
      (again : List ℕ → Socket → Fed) (buffer : List ℕ) (s : Socket)
      → ((b : List ℕ) (t : Socket) → length b < length buffer → IsEnded (again b t))
      → IsEnded (next config again buffer (parse_frame config buffer s))
  unfolding parse_frame
  parse_frame-IsEnded again buffer s h =
      let max = config.max_frame_size in
      parsed-IsEnded again buffer s (read_frame max (buffer ++ [])) (read_frame max buffer) refl
        (read_frame-Settles max buffer []) h

  feed_frames-IsEnded :
      (fuel : ℕ) (buffer : List ℕ) (s : Socket)
      → length buffer ≤ fuel
      → IsEnded (feed_frames config fuel buffer s)
  feed_frames-IsEnded zero buffer s h =
      rw (nil_of_length buffer h, feed_frames-nil config zero s)
        (inr (inr (unfold read_frame in refl)))
  feed_frames-IsEnded (suc fuel) buffer s h = elim (Bool-cases s.closed) [
    | inl t ↦ rw (feed_frames-closed config (suc fuel) buffer s t) (inr (inl t))
    | inr f ↦ rw (feed_frames-open config fuel buffer s f) (
        parse_frame-IsEnded (λ b t. feed_frames config fuel b t) buffer s
          (λ b t l. feed_frames-IsEnded fuel b t (omega arith)))
  ]

  -- The loop runs to its end, whatever the bytes: a call that had any raised, or it left a closed
  -- connection, or no whole frame is left in the buffer.
  pub feed_data-IsEnded :
      (bytes buffer : List ℕ) (s : Socket)
      → is_nil bytes ≡ false
      → IsEnded (feed_data config bytes buffer s)
  unfolding feed_data
  feed_data-IsEnded bytes buffer s h = rw h (
      feed_frames-IsEnded (length (buffer ++ bytes)) (buffer ++ bytes)
        (note_heartbeat_inbound config s) (omega arith))
