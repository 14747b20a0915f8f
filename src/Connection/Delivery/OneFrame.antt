-- ===== src/Connection/Delivery/OneFrame.antt =====
-- One frame in a connected session: what it does to the messages heard.
use cpp_esphome_api.Base.{
  All, ℕ, ◌≡◌, refl, sym, leb, ◌==◌, ◌&&◌, ap, ◌∙◌, Bool, true, false, not, Option, none, some,
  List, [], ◌∷◌, ◌++◌, append-nil, arith, if◌then◌else◌, inl, inr, Bool-cases, Option-cases,
}
use cpp_esphome_api.Frame.{status, FrameHelper}
use cpp_esphome_api.Frame
use cpp_esphome_api.Connection.Steps.{Drained, returns, after_round}
use cpp_esphome_api.Connection.Delivery.Log.{heard, outcomes}
use cpp_esphome_api.Connection.State.{
  connected, is_over, ConnectionOptions, ProtoMessage, hello_request, hello_response,
  authentication_request, authentication_response, disconnect_request, disconnect_response,
  ping_request, ping_response, other, Messages, Event, raw_frame, dispatched, dispatched_any,
  Connection,
}
use cpp_esphome_api.Connection.Actions.{emit, cancel_pong, send, send_raw}
use cpp_esphome_api.Connection.Inbound.{
  on_hello, handle_internal, dispatch, handle_message, handle_frame,
}

-- A message that does not end a connected session.
unfoldable pub keeps_open : ProtoMessage → Bool
keeps_open disconnect_request = false
keeps_open disconnect_response = false
keeps_open (authentication_response invalid_password) = not invalid_password
keeps_open _ = true

-- A relation between states of a codec, the earlier one first, that encoding keeps.
pub record Keeps (F : FrameHelper) : Type 1 where
  pub Same : F.State → F.State → Type 0
  pub same : (s : F.State) → Same s s
  pub then_ : {a b c : F.State} → Same a b → Same b c → Same a c
  pub encodes : (t : ℕ) (payload : List ℕ) (s : F.State) → Same s (F.encode t payload s).0

unfoldable pub one : Option ProtoMessage → List ProtoMessage
one none = []
one (some msg) = msg ∷ []

module _ (G : Messages) where
  -- The message that a frame of a known type holds.
  unfoldable pub message_in : ℕ × List ℕ → Option ProtoMessage
  message_in (t, payload) = if G.create t then G.parse_from_array t payload else none

  unfoldable pub messages_in : List (ℕ × List ℕ) → List ProtoMessage
  messages_in [] = []
  messages_in (f ∷ fs) = one (message_in f) ++ messages_in fs

  -- A frame that leaves a connected session open: its type is unknown, or it holds a message that does.
  unfoldable pub leaves_open : ℕ × List ℕ → Bool
  leaves_open (t, payload) =
      if G.create t
      then (elim (G.parse_from_array t payload) [ none ↦ false | some msg ↦ keeps_open msg ])
      else true

  abbrev pub Kept : List (ℕ × List ℕ) → Type 0
  Kept = All (λ f. leaves_open f ≡ true)

module _ (F : FrameHelper) (K : Keeps F) (G : Messages) (o : ConnectionOptions) where
  abbrev Session : Type 0
  Session = Connection F.State

  -- The same session, with other messages heard.
  pub record Goes (c d : Connection F.State) (msgs : List ProtoMessage) : Type 0 where
    pub state : d.state ≡ c.state
    pub frames : K.Same c.frames d.frames
    pub handlers : d.handlers ≡ c.handlers
    pub heard_more : heard d.log ≡ heard c.log ++ msgs
    pub told : outcomes d.log ≡ outcomes c.log

  stays-Goes : (c d : Session) → d ≡ c → Goes c d []
  stays-Goes c d e = rw e (record {
    state = refl;
    frames = K.same c.frames;
    handlers = refl;
    heard_more = sym (append-nil (heard c.log));
    told = refl;
  })

  then-Goes :
      (c d e : Session) (msgs : List ProtoMessage) → Goes c d [] → Goes d e msgs → Goes c e msgs
  then-Goes c d e msgs p q = record {
    state = q.state ∙ p.state;
    frames = K.then_ p.frames q.frames;
    handlers = q.handlers ∙ p.handlers;
    heard_more = q.heard_more ∙ ap (λ h. h ++ msgs) (p.heard_more ∙ append-nil (heard c.log));
    told = q.told ∙ p.told;
  }

  handle_internal-Goes :
      (msg : ProtoMessage) (c : Session)
      → c.state ≡ connected
      → keeps_open msg ≡ true
      → Goes c (handle_internal F G o msg c) []
  unfolding handle_internal on_hello send send_raw cancel_pong heard outcomes keeps_open
  handle_internal-Goes (hello_request i a b) c e k = stays-Goes c c refl
  handle_internal-Goes (hello_response h) c e k = stays-Goes c (on_hello F G o h c) (ground arith)
  handle_internal-Goes (authentication_request p) c e k = stays-Goes c c refl
  handle_internal-Goes (authentication_response true) c e k = cc
  handle_internal-Goes (authentication_response false) c e k = stays-Goes c c refl
  handle_internal-Goes disconnect_request c e k = cc
  handle_internal-Goes disconnect_response c e k = cc
  handle_internal-Goes ping_request c e k = record {
    state = refl;
    frames = K.encodes (G.id_of ping_response) (G.serialize ping_response) c.frames;
    handlers = refl;
    heard_more = sym (append-nil (heard c.log));
    told = refl;
  }
  handle_internal-Goes ping_response c e k = elim (Bool-cases (c.pong_timer == 0)) [
    | inl off ↦ rw off (record {
      state = refl;
      frames = K.same c.frames;
      handlers = refl;
      heard_more = sym (append-nil (heard c.log));
      told = refl;
    })
    | inr on ↦ rw on (record {
      state = refl;
      frames = K.same c.frames;
      handlers = refl;
      heard_more = sym (append-nil (heard c.log));
      told = refl;
    })
  ]
  handle_internal-Goes (other t bs) c e k = stays-Goes c c refl

  emit-Goes :
      (e : Event) (c : Session) (msgs : List ProtoMessage)
      → heard (e ∷ c.log) ≡ heard c.log ++ msgs
      → outcomes (e ∷ c.log) ≡ outcomes c.log
      → Goes c (emit e c) msgs
  emit-Goes e c msgs h same = record {
    state = refl;
    frames = K.same c.frames;
    handlers = refl;
    heard_more = h;
    told = same;
  }

  -- A report that is made, or not, and is no call of the handler of `on_any`.
  report-Goes :
      (b : Bool) (e : Event) (c : Session)
      → heard (e ∷ c.log) ≡ heard c.log
      → outcomes (e ∷ c.log) ≡ outcomes c.log
      → Goes c (if b then emit e c else c) []
  report-Goes true e c h same = emit-Goes e c [] (h ∙ sym (append-nil (heard c.log))) same
  report-Goes false e c h same = stays-Goes c c refl

  call-Goes :
      (b : Bool) (msg : ProtoMessage) (c : Session)
      → b ≡ true
      → Goes c (if b then emit (dispatched_any msg) c else c) (msg ∷ [])
  unfolding heard outcomes
  call-Goes true msg c on = emit-Goes (dispatched_any msg) c (msg ∷ []) refl refl
  call-Goes false msg c on = cc

  dispatch-Goes :
      (t : ℕ) (msg : ProtoMessage) (c : Session)
      → c.handlers.any_handler ≡ true
      → Goes c (dispatch F G o t msg c) (msg ∷ [])
  unfolding dispatch heard outcomes
  dispatch-Goes t msg c any =
      let b = leb t G.message_id_max && c.handlers.on_message t in
      let d : Session = if b then emit (dispatched t msg) c else c in
      then-Goes c d (dispatch F G o t msg c) (msg ∷ [])
        (report-Goes b (dispatched t msg) c refl refl) (call-Goes c.handlers.any_handler msg d any)

  handle_message-Goes :
      (t : ℕ) (msg : ProtoMessage) (c : Session)
      → c.state ≡ connected
      → c.handlers.any_handler ≡ true
      → keeps_open msg ≡ true
      → Goes c (handle_message F G o t msg c) (msg ∷ [])
  unfolding handle_message
  handle_message-Goes t msg c e any k =
      let i = handle_internal-Goes msg c e k in
      let d = handle_internal F G o msg c in
      let goes_on : is_over d.state ≡ false = ap is_over (i.state ∙ e) in
      rw goes_on (
        then-Goes c d (dispatch F G o t msg d) (msg ∷ []) i
          (dispatch-Goes t msg d (ap (λ h. h.any_handler) i.handlers ∙ any)))

  pub handle_frame-Goes :
      (t : ℕ) (payload : List ℕ) (c : Session)
      → c.state ≡ connected
      → c.handlers.any_handler ≡ true
      → leaves_open G (t, payload) ≡ true
      → Goes c (handle_frame F G o t payload c) (one (message_in G (t, payload)))
  unfolding handle_frame leaves_open message_in one heard outcomes
  handle_frame-Goes t payload c e any k =
      let q = report-Goes c.handlers.raw_handler (raw_frame t payload) c refl refl in
      let d : Session = if c.handlers.raw_handler then emit (raw_frame t payload) c else c in
      elim (Bool-cases (G.create t)) [
        | inr unknown ↦ rw unknown q
        | inl known ↦ elim (Option-cases (G.parse_from_array t payload)) [
          | inl bad ↦ absurd (ground (arith, known, bad))
          | inr (msg, good) ↦
              let keeps : keeps_open msg ≡ true = rw (known, good) at k in
              rw (known, good)
                (then-Goes c d (handle_message F G o t msg d) (msg ∷ []) q (
                  handle_message-Goes t msg d (q.state ∙ e)
                    (ap (λ h. h.any_handler) q.handlers ∙ any) keeps))
        ]
      ]

-- The loop goes on behind a frame that left the session open.
pub round_ok :
    (F : FrameHelper) (G : Messages) (o : ConnectionOptions)
    (loop : Connection F.State → Drained F.State) (t : ℕ) (payload : List ℕ)
    (b : Connection F.State)
    → is_over (handle_frame F G o t payload b).state ≡ false
    → after_round F G o loop (status (Frame.FrameStatus.ok t payload)) b
      ≡ loop (handle_frame F G o t payload b)
unfolding after_round
round_ok F G o loop t payload b on =
    let d = handle_frame F G o t payload b in
    ap (λ (over : Bool). elim over as (λ _. Drained F.State) [ true ↦ returns d | false ↦ loop d ])
      on
