-- ===== src/Connection/Delivery/Opening.antt =====
-- A session over the plaintext codec from `start` to the device's welcome.
use cpp_esphome_api.Base.{
  ℕ, ◌≤◌, ◌≡◌, refl, sym, ap, ◌∙◌, Bool, true, false, if◌then◌else◌, inl, inr, Bool-cases, none,
  some, List, [], ◌∷◌, ◌++◌, append-nil, arith, length,
}
use cpp_esphome_api.Plaintext.{PlaintextFrameHelper, feed, encode, parse, found, partial}
use cpp_esphome_api.Plaintext
use cpp_esphome_api.Plaintext.Stages.{IsFrame}
use cpp_esphome_api.Plaintext.Helper.{plaintext_codec}
use cpp_esphome_api.Plaintext.Stream.{pending}
use cpp_esphome_api.Connection.State.{
  ConnectionState, hello_sent, connected, is_over, ConnectionOptions, ServerHello, ErrorCode,
  success, ProtoMessage, hello_response, Messages, raw_frame, new, Handlers,
}
use cpp_esphome_api.Connection.Actions.{
  emit, set_state, finish_connect, cancel_connect, start_keepalive, send, send_raw, send_hello,
}
use cpp_esphome_api.Connection.Inbound.{
  hello_refused, accept_hello, on_hello, dispatch, handle_internal, handle_message, handle_frame,
}
use cpp_esphome_api.Connection.Steps.{
  start_called, transport_connected, start, on_ready, on_connected_transport, step, run,
}
use cpp_esphome_api.Connection.Delivery.Log.{heard, outcomes}
use cpp_esphome_api.Connection.Delivery.Loop.{Session}

-- A session that has sent its hello, with a connect pending.
pub record IsGreeting (c : Session) : Type 0 where
  pub state : c.state ≡ hello_sent
  pub any : c.handlers.any_handler ≡ true
  pub connects : c.connect_handler ≡ true
  pub sound : c.frames.consumed ≤ length c.frames.buffer

-- A new connection whose user has set these handlers.
abbrev pub with_handlers : Handlers → Session
with_handlers hs = record (new Plaintext.new) { handlers = hs }

module _ (G : Messages) (o : ConnectionOptions) where
  pub greet :
      (h : Handlers)
      → h.any_handler ≡ true
      → let d =
          run plaintext_codec G o
            (start_called ∷ transport_connected success ∷ [])
            (with_handlers h) in
        IsGreeting d × (pending d.frames ≡ []) × (heard d.log ≡ []) × (outcomes d.log ≡ [])
  unfolding run step start on_connected_transport on_ready set_state send_hello send send_raw new
      Plaintext.new heard outcomes
  greet h any = elim (Bool-cases o.login) [
    | inl e ↦ rw e (
      record {
        state = ground arith;
        any = ground arith;
        connects = ground arith;
        sound = ground arith;
      },
      ground arith,
      ground arith,
      ground arith,
    )
    | inr e ↦ rw e (
      record {
        state = ground arith;
        any = ground arith;
        connects = ground arith;
        sound = ground arith;
      },
      ground arith,
      ground arith,
      ground arith,
    )
  ]

  -- A session in some state, with more messages heard and more outcomes than another.
  pub record After (c d : Session) (s : ConnectionState) (msgs : List ProtoMessage)
      (codes : List ErrorCode) : Type 0 where
    pub state : d.state ≡ s
    pub frames : d.frames ≡ c.frames
    pub handlers : d.handlers ≡ c.handlers
    pub heard_more : heard d.log ≡ heard c.log ++ msgs
    pub succeeded : outcomes d.log ≡ outcomes c.log ++ codes

  accept_hello-After :
      (c : Session)
      → c.state ≡ hello_sent
      → c.connect_handler ≡ true
      → After c (accept_hello plaintext_codec G o c) connected [] (success ∷ [])
  unfolding accept_hello finish_connect start_keepalive set_state cancel_connect heard outcomes
  accept_hello-After c e pending_connect = record {
    state = ground arith;
    frames = ground arith;
    handlers = ground arith;
    heard_more = ground (arith, append-nil (heard c.log));
    succeeded = ground arith;
  }

  dispatch-After :
      (t : ℕ) (msg : ProtoMessage) (c : Session)
      → c.handlers.any_handler ≡ true
      → After c (dispatch plaintext_codec G o t msg c) c.state (msg ∷ []) []
  unfolding dispatch heard outcomes
  dispatch-After t msg c any = record {
    state = ground arith;
    frames = ground arith;
    handlers = ground arith;
    heard_more = ground arith;
    succeeded = ground (arith, append-nil (outcomes c.log));
  }

  raw_frame-After :
      (b : Bool) (t : ℕ) (payload : List ℕ) (c : Session)
      → After c (if b then emit (raw_frame t payload) c else c) c.state [] []
        × ((if b then emit (raw_frame t payload) c else c).connect_handler ≡ c.connect_handler)
  unfolding heard outcomes
  raw_frame-After true t payload c = (
    record {
      state = refl;
      frames = refl;
      handlers = refl;
      heard_more = sym (append-nil (heard c.log));
      succeeded = sym (append-nil (outcomes c.log));
    },
    refl,
  )
  raw_frame-After false t payload c = (
    record {
      state = refl;
      frames = refl;
      handlers = refl;
      heard_more = sym (append-nil (heard c.log));
      succeeded = sym (append-nil (outcomes c.log));
    },
    refl,
  )

  on_hello-accept :
      (h : ServerHello) (c : Session)
      → c.state ≡ hello_sent
      → hello_refused plaintext_codec G o h ≡ none
      → on_hello plaintext_codec G o h c ≡ accept_hello plaintext_codec G o (record c { hello = h })
  unfolding on_hello
  on_hello-accept h c e fine = ground (arith, e, fine)

  handle_message-After :
      (t : ℕ) (h : ServerHello) (c : Session)
      → c.state ≡ hello_sent
      → c.connect_handler ≡ true
      → c.handlers.any_handler ≡ true
      → hello_refused plaintext_codec G o h ≡ none
      → After c
          (handle_message plaintext_codec G o t (hello_response h) c)
          connected
          (hello_response h ∷ [])
          (success ∷ [])
  unfolding handle_message handle_internal
  handle_message-After t h c e pending_connect any fine =
      let b : Session = record c { hello = h } in
      let a = accept_hello-After b e pending_connect in
      let d = accept_hello plaintext_codec G o b in
      let x = dispatch-After t (hello_response h) d (ap (λ k. k.any_handler) a.handlers ∙ any) in
      let on : is_over d.state ≡ false = ap is_over a.state in
      rw (on_hello-accept h c e fine, on)
        (record {
          state = x.state ∙ a.state;
          frames = x.frames ∙ a.frames;
          handlers = x.handlers ∙ a.handlers;
          heard_more =
              x.heard_more
              ∙ ap (λ m. m ++ (hello_response h ∷ [])) (a.heard_more ∙ append-nil (heard c.log));
          succeeded = x.succeeded ∙ append-nil (outcomes d.log) ∙ a.succeeded;
        })

  pub handle_frame-After :
      (t : ℕ) (payload : List ℕ) (h : ServerHello) (c : Session)
      → c.state ≡ hello_sent
      → c.connect_handler ≡ true
      → c.handlers.any_handler ≡ true
      → G.create t ≡ true
      → G.parse_from_array t payload ≡ some (hello_response h)
      → hello_refused plaintext_codec G o h ≡ none
      → After c
          (handle_frame plaintext_codec G o t payload c)
          connected
          (hello_response h ∷ [])
          (success ∷ [])
  unfolding handle_frame
  handle_frame-After t payload h c e pending_connect any known parsed fine =
      let d : Session = if c.handlers.raw_handler then emit (raw_frame t payload) c else c in
      let (q, same) = raw_frame-After c.handlers.raw_handler t payload c in
      let x =
        handle_message-After t h d (q.state ∙ e) (same ∙ pending_connect)
          (ap (λ k. k.any_handler) q.handlers ∙ any) fine in
      rw (known, parsed)
        (record {
          state = x.state;
          frames = x.frames ∙ q.frames;
          handlers = x.handlers ∙ q.handlers;
          heard_more =
              x.heard_more
              ∙ ap (λ m. m ++ (hello_response h ∷ [])) (q.heard_more ∙ append-nil (heard c.log));
          succeeded =
              x.succeeded
              ∙ ap (λ m. m ++ (success ∷ [])) (q.succeeded ∙ append-nil (outcomes c.log));
        })

  -- The device's welcome: its message is read back by its class, fits a frame, and is not refused.
  pub record IsWelcome (h : ServerHello) : Type 0 where
    pub is_known : G.create (G.id_of (hello_response h)) ≡ true
    pub reads_back :
        G.parse_from_array (G.id_of (hello_response h)) (G.serialize (hello_response h))
        ≡ some (hello_response h)
    pub in_frame : IsFrame (G.id_of (hello_response h)) (G.serialize (hello_response h))
    pub accepted : hello_refused plaintext_codec G o h ≡ none
