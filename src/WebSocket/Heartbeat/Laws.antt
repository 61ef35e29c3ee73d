-- ===== src/WebSocket/Heartbeat/Laws.antt =====
-- Lemmas on the heartbeat of src/veloce/websocket.py.
use veloce.Prelude.{
  ℕ, ◌≡◌, refl, ap, ◌∙◌, Bool, true, false, ◌&&◌, Option, none, some, List, ◌++◌, length,
  if◌then◌else◌, Bool-cases, ◌⊎◌, inl, inr,
}
use veloce.WebSocket.Connection.{Socket, Config, terminate_raw}
use veloce.WebSocket.Connection.Kept.{IsKept}
use veloce.WebSocket.Feed.{is_nil, note_heartbeat_inbound, feed_data}
use veloce.WebSocket.Feed.Loop.{feed_frames-Kept}
use veloce.WebSocket.Heartbeat.{
  disarm, keep_alive, probe, close_heartbeat_timeout, silent_tick, heartbeat_tick,
}

module _ (config : Config) where
  abbrev tick : Socket → Socket
  tick s = heartbeat_tick config s

  -- Taken for dead: closed with 1006, and the transport dropped.
  abbrev pub IsDead : Socket → Type 0
  IsDead s = (s.closed ≡ true) × (s.close_code ≡ some 1006) × (s.transport_open ≡ false)

  tick_closed : (s : Socket) → s.closed ≡ true → tick s ≡ disarm s
  unfolding heartbeat_tick
  tick_closed s h =
      ap
        (λ (b : Bool).
          if b
          then disarm s
          else if s.hb_saw_inbound
          then keep_alive (disarm s)
          else silent_tick config s.hb_token (disarm s))
        h

  tick_open :
      (s : Socket)
      → s.closed ≡ false
      → tick s ≡ (
          if s.hb_saw_inbound
          then keep_alive (disarm s)
          else silent_tick config s.hb_token (disarm s))
  unfolding heartbeat_tick
  tick_open s h =
      ap
        (λ (b : Bool).
          if b
          then disarm s
          else if s.hb_saw_inbound
          then keep_alive (disarm s)
          else silent_tick config s.hb_token (disarm s))
        h

  tick_alive :
      (s : Socket) → s.closed ≡ false → s.hb_saw_inbound ≡ true → tick s ≡ keep_alive (disarm s)
  tick_alive s c w =
      tick_open s c
      ∙ ap
          (λ (b : Bool).
            if b then keep_alive (disarm s) else silent_tick config s.hb_token (disarm s))
          w

  tick_silent :
      (s : Socket) (o : Option ℕ)
      → s.closed ≡ false
      → s.hb_saw_inbound ≡ false
      → s.hb_token ≡ o
      → tick s ≡ silent_tick config o (disarm s)
  tick_silent s o c w t =
      tick_open s c
      ∙ ap
          (λ (b : Bool).
            if b then keep_alive (disarm s) else silent_tick config s.hb_token (disarm s))
          w
      ∙ ap (λ o. silent_tick config o (disarm s)) t

  tick-IsDead : (s : Socket) → IsDead s → IsDead (tick s)
  tick-IsDead s (c, k, t) = rw (tick_closed s c) (c, k, t)

  -- A probe was sent, and not answered.
  silent-IsDead :
      (s : Socket) (token : ℕ)
      → s.closed ≡ false
      → s.hb_saw_inbound ≡ false
      → s.hb_token ≡ some token
      → IsDead (tick s)
  silent-IsDead s token c w t =
      rw (tick_silent s (some token) c w t)
        (unfold silent_tick close_heartbeat_timeout in (refl, refl, refl))

  -- No probe is out: one is sent, and the next tick finds it unanswered.
  quiet-IsDead :
      (s : Socket)
      → s.closed ≡ false
      → s.hb_saw_inbound ≡ false
      → s.hb_token ≡ none
      → IsDead (tick (tick s))
  quiet-IsDead s c w t =
      rw (tick_silent s none c w t)
        (unfold silent_tick in silent-IsDead (probe (disarm s)) s.hb_next_token c w refl)

  unheard-IsDead :
      (s : Socket) (o : Option ℕ)
      → s.closed ≡ false
      → s.hb_saw_inbound ≡ false
      → s.hb_token ≡ o
      → IsDead (tick (tick s))
  unheard-IsDead s none c w t = quiet-IsDead s c w t
  unheard-IsDead s (some token) c w t = tick-IsDead (tick s) (silent-IsDead s token c w t)

  silence-IsDead : (s : Socket) → s.closed ≡ false → IsDead (tick (tick (tick s)))
  silence-IsDead s c = elim (Bool-cases s.hb_saw_inbound) [
    | inl w ↦ rw (tick_alive s c w) (quiet-IsDead (keep_alive (disarm s)) c refl refl)
    | inr w ↦ tick-IsDead (tick (tick s)) (unheard-IsDead s s.hb_token c w refl)
  ]

  -- A peer that sent something is alive, or its connection is closed.
  abbrev IsAlive : Socket → Type 0
  IsAlive s = (s.closed ≡ true) ⊎ (s.hb_saw_inbound ≡ true)

  liveness : IsKept config IsAlive
  liveness = record {
    terminate = λ code recorded s h. unfold terminate_raw in inl refl;
    set_reason = λ code reason s h. h;
    peer_close = λ s h. h;
    set_fragments = λ f s h. h;
    enqueue = λ item s h t. h;
    write = λ bytes s h. h;
    set_pong = λ o s h. h;
    set_token = λ o s h. h;
  }

  open-IsAlive : (s : Socket) → IsAlive s → s.closed ≡ false → (tick s).closed ≡ false
  open-IsAlive s (inl c) f = cc
  open-IsAlive s (inr w) f = rw (tick_alive s f w) f

  feed_data-IsAlive :
      (bytes buffer : List ℕ) (s : Socket)
      → is_nil bytes ≡ false
      → (config.heartbeat && s.hb_armed) ≡ true
      → IsAlive (feed_data config bytes buffer s).socket
  unfolding feed_data
  feed_data-IsAlive bytes buffer s full armed = rw full (
      feed_frames-Kept liveness (length (buffer ++ bytes)) (buffer ++ bytes)
        (note_heartbeat_inbound config s) (unfold note_heartbeat_inbound in rw armed (inr refl)))

  -- Of an open connection whose timer runs: when bytes have come in and left it open, the next tick
  -- leaves it open, too; and when nothing comes in, it is closed with 1006 by the third tick.
  pub heartbeat_tick-IsDead :
      (bytes buffer : List ℕ) (s : Socket)
      → is_nil bytes ≡ false
      → (config.heartbeat && s.hb_armed) ≡ true
      → s.closed ≡ false
      → let fed = (feed_data config bytes buffer s).socket in
        ((fed.closed ≡ true) ⊎ ((tick fed).closed ≡ false)) × IsDead (tick (tick (tick s)))
  heartbeat_tick-IsDead bytes buffer s full armed c =
      let fed = (feed_data config bytes buffer s).socket in
      (
        elim (Bool-cases fed.closed) [
          | inl t ↦ inl t
          | inr f ↦ inr (open-IsAlive fed (feed_data-IsAlive bytes buffer s full armed) f)
        ],
        silence-IsDead s c,
      )
