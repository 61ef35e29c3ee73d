-- ===== src/WebSocket/Connection/Laws.antt =====
-- Well-formed connections, and `_parse_frame` of src/veloce/websocket.py on them.
use veloce.Prelude.{
  ℕ, ◌≤◌, ◌≡◌, refl, Bool, true, false, List, [], ◌∷◌, ◌++◌, ◌+◌, ◌||◌, nat_beq, ltb, length,
  length-append, arith, Bool-cases, ◌⊎◌, inl, inr,
}
use veloce.WebSocket.Connection.{
  Item, Socket, Config, has_room, put_nowait, or_same, terminate_raw, parse_frame,
}
use veloce.WebSocket.Connection.Kept.{IsKept, parse_frame-Kept}

module _ (config : Config) where
  abbrev pub IsWithinSize : List Item → Type 0
  IsWithinSize queue = (config.queue_size ≡ 0) ⊎ (length queue ≤ config.queue_size)

  -- A connection is open, or it has sent its close frame and dropped its transport; a queue
  -- that is bounded holds at most its size.
  abbrev pub IsValid : Socket → Type 0
  IsValid s =
      ((s.closed ≡ false) ⊎ ((s.close_frame_sent ≡ true) × (s.transport_open ≡ false)))
      × IsWithinSize s.queue

  append-IsWithinSize :
      (item : Item) (queue : List Item)
      → has_room config queue ≡ true
      → IsWithinSize (queue ++ (item ∷ []))
  append-IsWithinSize item queue h =
      rw (length-append queue (item ∷ [])) (room config.queue_size (length queue) h)
    where
      room : (size n : ℕ) → nat_beq size 0 || ltb n size ≡ true → (size ≡ 0) ⊎ (n + 1 ≤ size)
      room size n e = ground arith

  put_nowait-IsWithinSize :
      (item : Item) (queue : List Item)
      → IsWithinSize queue
      → IsWithinSize (or_same config (put_nowait config item queue) queue)
  unfolding put_nowait
  put_nowait-IsWithinSize item queue h = elim (Bool-cases (has_room config queue)) [
    | inl t ↦ rw t (append-IsWithinSize item queue t)
    | inr f ↦ rw f h
  ]

  terminate_raw-IsValid :
      (code : ℕ) (recorded : Bool) (s : Socket)
      → IsWithinSize s.queue
      → IsValid (terminate_raw config code recorded s)
  unfolding terminate_raw
  terminate_raw-IsValid code recorded s h = (inr (refl, refl), put_nowait-IsWithinSize _ s.queue h)

  validity : IsKept config IsValid
  validity = record {
    terminate = λ code recorded s h. terminate_raw-IsValid code recorded s h.1;
    set_reason = λ code reason s h. h;
    peer_close = λ s h. h;
    set_fragments = λ f s h. h;
    enqueue = λ item s h t. (h.0, append-IsWithinSize item s.queue t);
    write = λ bytes s h. h;
    set_pong = λ o s h. h;
    set_token = λ o s h. h;
  }

  -- Whatever bytes arrive, a connection that is open, or has sent its close frame and dropped its
  -- transport, is so after them, and a queue within its size stays within it; a queue of size 0 has no bound.
  pub parse_frame-IsValid :
      (buffer : List ℕ) (s : Socket) → IsValid s → IsValid (parse_frame config buffer s).1
  parse_frame-IsValid buffer s h = parse_frame-Kept validity buffer s h
