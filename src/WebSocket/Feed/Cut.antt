-- ===== src/WebSocket/Feed/Cut.antt =====
-- Where the transport cuts the bytes that `feed_data` of src/veloce/websocket.py is given.
use mathlib.Core.List.{append_assoc, append-nil}
use veloce.Prelude.{
  ℕ, zero, suc, ◌+◌, ◌≤◌, ◌<◌, ◌≡◌, refl, ap, sym, ◌∙◌, Bool, true, false, ◌&&◌, Option, none, some,
  List, [], ◌∷◌, ◌++◌, nat_beq, length, length-append, drop-front, length-drop, drop, arith,
  Bool-cases, ◌⊎◌, inl, inr,
}
use veloce.WebSocket.Frame.{Parsed, incomplete, protocol_error, too_big, frame, read_frame}
use veloce.WebSocket.Connection.{
  Socket, Config, Outcome, consumed, disconnect, terminate_raw, cancel_heartbeat, close_control,
  handle_frame, handle_parsed, parse_frame,
}
use veloce.WebSocket.Connection.Kept.{IsKept}
use veloce.WebSocket.Feed.{
  Fed, returned, is_nil, note_heartbeat_inbound, next, feed_frames, feed_data,
}
use veloce.WebSocket.Feed.Consumed.{Takes, handle_frame-Takes, Settles, read_frame-Settles}
use veloce.WebSocket.Feed.Loop.{
  feed_frames-closed, feed_frames-Kept, feed_frames-open, feed_frames-nil, feed_frames-fuel,
  nil_of_length,
}

module _ (config : Config) where
  -- More bytes arrive after rounds of the loop: they only lie in the buffer, if a round raised.
  unfoldable resume_raised : List ℕ → Option ℕ → Fed → Fed
  resume_raised more (some code) r = record r { buffer = r.buffer ++ more }
  resume_raised more none r =
      feed_frames config (length (r.buffer ++ more)) (r.buffer ++ more) r.socket

  unfoldable resume : List ℕ → Fed → Fed
  unfolding resume_raised
  resume more r = resume_raised more r.raised r

  resume-returned :
      (more buffer : List ℕ) (s : Socket)
      → resume more (returned buffer s)
        ≡ feed_frames config (length (buffer ++ more)) (buffer ++ more) s
  unfolding resume resume_raised
  resume-returned more buffer s = refl

  -- A frame that is whole already, its outcome `r`.
  next-resume :
      (fuel n : ℕ) (buffer more : List ℕ) (r : Outcome × Socket)
      → Takes n r
      → n ≤ length buffer
      → 0 < n
      → ((m : ℕ) (t : Socket)
          → 0 < m
          → m ≤ length buffer
          → feed_frames config (fuel + length more) (drop m buffer ++ more) t
            ≡ resume more (feed_frames config fuel (drop m buffer) t))
      → next config (λ b t. feed_frames config (fuel + length more) b t) (buffer ++ more) r
        ≡ resume more (next config (λ b t. feed_frames config fuel b t) buffer r)
  next-resume fuel n buffer more (disconnect code, s) t le lt ih =
      unfold resume resume_raised in refl
  next-resume fuel n buffer more (consumed m, s) (inl e) le lt ih =
      let whole : nat_beq m 0 ≡ false = ground arith in
      rw (whole, drop-front m buffer more (omega arith)) (ih m s (omega arith) (omega arith))
  next-resume fuel n buffer more (consumed m, s) (inr (e, closed)) le lt ih = rw e (
      sym (feed_frames-closed config (length (buffer ++ more)) (buffer ++ more) s closed)
      ∙ sym (resume-returned more buffer s))

  refused-resume :
      (code : ℕ) (buffer more : List ℕ) (s : Socket)
      → returned (buffer ++ more) (close_control config code s)
        ≡ resume more (returned buffer (close_control config code s))
  refused-resume code buffer more s =
      let s' = close_control config code s in
      let closed : s'.closed ≡ true = unfold close_control terminate_raw in refl in
      sym (feed_frames-closed config (length (buffer ++ more)) (buffer ++ more) s' closed)
      ∙ sym (resume-returned more buffer s')

  parsed-resume :
      (fuel : ℕ) (buffer more : List ℕ) (s : Socket) (later p : Parsed)
      → Settles (length buffer) later p
      → next config
          (λ b t. feed_frames config (fuel + length more) b t)
          (buffer ++ more)
          (handle_parsed config later s)
        ≡ feed_frames config (length (buffer ++ more)) (buffer ++ more) s
      → ((m : ℕ) (t : Socket)
          → 0 < m
          → m ≤ length buffer
          → feed_frames config (fuel + length more) (drop m buffer ++ more) t
            ≡ resume more (feed_frames config fuel (drop m buffer) t))
      → next config
          (λ b t. feed_frames config (fuel + length more) b t)
          (buffer ++ more)
          (handle_parsed config later s)
        ≡ resume more
            (next config (λ b t. feed_frames config fuel b t) buffer (handle_parsed config p s))
  unfolding handle_parsed
  parsed-resume fuel buffer more s later incomplete h whole ih =
      whole ∙ sym (resume-returned more buffer s)
  parsed-resume fuel buffer more s later protocol_error h whole ih =
      rw h (refused-resume 1002 buffer more s)
  parsed-resume fuel buffer more s later too_big h whole ih =
      rw h (refused-resume 1009 buffer more s)
  parsed-resume fuel buffer more s later (frame fin opcode payload n) (e, le, lt) whole ih = rw e (
      next-resume fuel n buffer more (handle_frame config fin opcode payload n s)
        (handle_frame-Takes config fin opcode payload n s) le lt ih)

  parse_frame-resume :
      (fuel : ℕ) (buffer more : List ℕ) (s : Socket)
      → next config
          (λ b t. feed_frames config (fuel + length more) b t)
          (buffer ++ more)
          (parse_frame config (buffer ++ more) s)
        ≡ feed_frames config (length (buffer ++ more)) (buffer ++ more) s
      → ((m : ℕ) (t : Socket)
          → 0 < m
          → m ≤ length buffer
          → feed_frames config (fuel + length more) (drop m buffer ++ more) t
            ≡ resume more (feed_frames config fuel (drop m buffer) t))
      → next config
          (λ b t. feed_frames config (fuel + length more) b t)
          (buffer ++ more)
          (parse_frame config (buffer ++ more) s)
        ≡ resume more
            (next config (λ b t. feed_frames config fuel b t) buffer (parse_frame config buffer s))
  unfolding parse_frame
  parse_frame-resume fuel buffer more s whole ih =
      parsed-resume fuel buffer more s (read_frame config.max_frame_size (buffer ++ more))
        (read_frame config.max_frame_size buffer)
        (read_frame-Settles config.max_frame_size buffer more) whole ih

  -- What the frames of a buffer do, they do, too, when more bytes follow.
  feed_frames-append :
      (fuel : ℕ) (buffer more : List ℕ) (s : Socket)
      → length buffer ≤ fuel
      → feed_frames config (fuel + length more) (buffer ++ more) s
        ≡ resume more (feed_frames config fuel buffer s)
  feed_frames-append zero buffer more s h =
      rw (nil_of_length buffer h, feed_frames-nil config zero s, resume-returned more [] s)
        (ap (λ n. feed_frames config n more s) (omega arith))
  feed_frames-append (suc fuel) buffer more s h = elim (Bool-cases s.closed) [
    | inl t ↦
        rw (feed_frames-closed config (suc fuel) buffer s t, resume-returned more buffer s)
          (feed_frames-closed config (suc fuel + length more) (buffer ++ more) s t
            ∙ sym (feed_frames-closed config (length (buffer ++ more)) (buffer ++ more) s t))
    | inr f ↦
        let opened = feed_frames-open config (fuel + length more) (buffer ++ more) s f in
        let enough : length (buffer ++ more) ≤ suc (fuel + length more) =
          omega (arith, length-append buffer more) in
        let moved : suc fuel + length more ≡ suc (fuel + length more) = omega arith in
        ap (λ n. feed_frames config n (buffer ++ more) s) moved
        ∙ opened
        ∙ parse_frame-resume fuel buffer more s
            (sym opened
              ∙ feed_frames-fuel config (suc (fuel + length more)) (length (buffer ++ more))
                  (buffer ++ more) s enough (omega arith))
            (λ m t lt le.
              feed_frames-append fuel (drop m buffer) more t (omega (arith, length-drop m buffer)))
        ∙ ap (resume more) (sym (feed_frames-open config fuel buffer s f))
  ]

  -- Bytes have come in since the last tick, or no timer runs.
  abbrev IsNoted : Socket → Type 0
  IsNoted s = ((config.heartbeat && s.hb_armed) ≡ false) ⊎ (s.hb_saw_inbound ≡ true)

  notedness : IsKept config IsNoted
  notedness = record {
    terminate = λ code recorded s h. unfold terminate_raw cancel_heartbeat in inl (ground arith);
    set_reason = λ code reason s h. h;
    peer_close = λ s h. h;
    set_fragments = λ f s h. h;
    enqueue = λ item s h t. h;
    write = λ bytes s h. h;
    set_pong = λ o s h. h;
    set_token = λ o s h. h;
  }

  note-IsNoted : (s : Socket) → IsNoted (note_heartbeat_inbound config s)
  unfolding note_heartbeat_inbound
  note-IsNoted s = elim (Bool-cases (config.heartbeat && s.hb_armed)) [
    | inl t ↦ rw t (inr refl)
    | inr f ↦ rw f (inl f)
  ]

  note_of_IsNoted : (s : Socket) → IsNoted s → note_heartbeat_inbound config s ≡ s
  unfolding note_heartbeat_inbound
  note_of_IsNoted s (inl e) = rw e refl
  note_of_IsNoted s (inr e) = elim (Bool-cases (config.heartbeat && s.hb_armed)) [
    | inl t ↦ rw t (ap (λ (b : Bool). record s { hb_saw_inbound = b }) (sym e))
    | inr f ↦ rw f refl
  ]

  unfoldable pub then_raised : List ℕ → Option ℕ → Fed → Fed
  unfolding feed_data
  then_raised more (some code) r = record r { buffer = r.buffer ++ more }
  then_raised more none r = feed_data config more r.buffer r.socket

  -- A second call of `feed_data`, if the first has not raised. If it has, the bytes only lie in the
  -- buffer.
  unfoldable pub then_feed : List ℕ → Fed → Fed
  unfolding then_raised
  then_feed more r = then_raised more r.raised r

  raised-then_feed :
      (more : List ℕ) (o : Option ℕ) (r : Fed)
      → IsNoted r.socket
      → is_nil more ≡ false
      → resume_raised more o r ≡ then_raised more o r
  unfolding resume_raised then_raised feed_data
  raised-then_feed more (some code) r n full = refl
  raised-then_feed more none r n full = rw (full, note_of_IsNoted r.socket n) refl

  resume-then_feed :
      (more : List ℕ) (r : Fed)
      → IsNoted r.socket
      → is_nil more ≡ false
      → resume more r ≡ then_feed more r
  unfolding resume then_feed
  resume-then_feed more r n full = raised-then_feed more r.raised r n full

  nothing-then_raised : (o : Option ℕ) (r : Fed) → r.raised ≡ o → then_raised [] o r ≡ r
  unfolding then_raised feed_data
  nothing-then_raised (some code) r e =
      ap (λ (b : List ℕ). record r { buffer = b }) (append-nil r.buffer)
  nothing-then_raised none r e = ap (λ (o : Option ℕ). record r { raised = o }) (sym e)

  -- The transport may cut the bytes anywhere: two calls do what one call with all the bytes does. If
  -- the first raises, the one call raises, too, and leaves the second part in the buffer.
  pub feed_data-append :
      (bytes more buffer : List ℕ) (s : Socket)
      → feed_data config (bytes ++ more) buffer s ≡ then_feed more (feed_data config bytes buffer s)
  unfolding feed_data
  feed_data-append [] more buffer s = unfold feed_data then_feed then_raised in refl
  feed_data-append (b ∷ bytes) [] buffer s =
      ap (λ bs. feed_data config (b ∷ bs) buffer s) (append-nil bytes)
      ∙ sym (
          unfold then_feed in
          nothing-then_raised (feed_data config (b ∷ bytes) buffer s).raised
            (feed_data config (b ∷ bytes) buffer s) refl)
  feed_data-append (b ∷ bytes) (c ∷ more) buffer s =
      let noted = note_heartbeat_inbound config s in
      let first = buffer ++ (b ∷ bytes) in
      let r = feed_frames config (length first) first noted in
      ap (λ bs. feed_frames config (length bs) bs noted)
        (sym (append_assoc buffer (b ∷ bytes) (c ∷ more)))
      ∙ ap (λ n. feed_frames config n (first ++ (c ∷ more)) noted) (length-append first (c ∷ more))
      ∙ feed_frames-append (length first) first (c ∷ more) noted (omega arith)
      ∙ resume-then_feed (c ∷ more) r
          (feed_frames-Kept notedness (length first) first noted (note-IsNoted s)) refl
