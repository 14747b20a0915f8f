-- ===== src/Connection/Rules.antt =====
-- One derivation for every fact about what a received chunk does: a relation between the connection
-- before and after that is kept by each action is kept by the whole of `on_bytes`.
use cpp_esphome_api.Base.{
  ℕ, zero, suc, ◌≡◌, refl, inl, inr, Bool, true, false, ◌&&◌, Option, none, some, List, [], ◌∷◌,
  arith, leb, if◌then◌else◌, Bool-cases,
}
use cpp_esphome_api.Errors.{Exception, What, is_protocol_error, what, handshake_error, text}
use cpp_esphome_api.Frame.{FrameStatus, Round, status, ready, again, handshake_failed, FrameHelper}
use cpp_esphome_api.Frame
use cpp_esphome_api.Connection.State.{
  ConnectionState, hello_sent, closed, ◌is◌, is_over, ConnectionOptions, ServerHello, ErrorCode,
  protocol, ProtoMessage, hello_request, hello_response, authentication_request,
  authentication_response, disconnect_request, disconnect_response, ping_request, ping_response,
  other, Messages, Event, connect_done, raw_frame, dispatched, dispatched_any, transport_closed,
  Connection,
}
use cpp_esphome_api.Connection.Actions.{emit, set_state, cancel_pong, stop_keepalive, fail, send}
use cpp_esphome_api.Connection.Inbound.{
  accept_hello, on_hello, on_disconnect_request, handle_internal, dispatch, handle_message,
  handle_frame, hello_refused,
}
use cpp_esphome_api.Connection.Steps.{
  Drained, returns, escapes, stuck, after, on_ready, on_handshake_error, after_round, drain_frames,
  caught, on_bytes,
}

-- Every event but the end of a connect.
abbrev pub IsQuiet : Event → Type 0
IsQuiet (connect_done ec) = ⊥
IsQuiet _ = Unit {0}

abbrev pub close : {S : Type 0} → Connection S → Connection S
close c = set_state closed (emit transport_closed (stop_keepalive c))

pub is_sound : (s t : ConnectionState) → (s is t) ≡ true → s ≡ t
is_sound s t e = ground arith

module _ (F : FrameHelper) (G : Messages) (o : ConnectionOptions) where
  pub record Rules (R : Connection F.State → Connection F.State → Type 0) : Type 0 where
    pub same : (c : Connection F.State) → R c c
    pub then_ : {c d e : Connection F.State} → R c d → R d e → R c e
    pub logs : (e : Event) (c : Connection F.State) → IsQuiet e → R c (emit e c)
    pub sends : (msg : ProtoMessage) (c : Connection F.State) → R c (send F G msg c)
    pub greets : (h : ServerHello) (c : Connection F.State) → R c (record c { hello = h })
    pub notes : (e : Exception) (c : Connection F.State) → R c (record c { last_error = some e })
    pub fails : (ec : ErrorCode) (w : What) (c : Connection F.State) → R c (fail ec w c)
    pub accepts : (c : Connection F.State) → c.state ≡ hello_sent → R c (accept_hello F G o c)
    pub closes : (c : Connection F.State) → R c (close c)
    pub obeys : (c : Connection F.State) → R c (on_disconnect_request F G o c)
    pub pongs : (c : Connection F.State) → R c (cancel_pong (record c { awaiting_pong = false }))
    pub readies :
        (c : Connection F.State) (s : F.State) → (F.round s).1 ≡ ready → R c (on_ready F G o c)

  module _ {R : Connection F.State → Connection F.State → Type 0} (r : Rules R) where
    branch : (b : Bool) {c x y : Connection F.State} → R c x → R c y → R c (if b then x else y)
    branch true h k = h
    branch false h k = k

    -- `emit` under a test.
    may_log :
        (b : Bool) (e : Event) (c : Connection F.State)
        → IsQuiet e
        → R c (if b then emit e c else c)
    may_log b e c q = branch b (r.logs e c q) (r.same c)

    answer_hello :
        (w : Option What) (c : Connection F.State)
        → c.state ≡ hello_sent
        → R c (elim w [ some x ↦ fail protocol x c | none ↦ accept_hello F G o c ])
    answer_hello none c e = r.accepts c e
    answer_hello (some x) c e = r.fails protocol x c

    on_hello-R : (h : ServerHello) (c : Connection F.State) → R c (on_hello F G o h c)
    unfolding on_hello
    on_hello-R h c = elim (Bool-cases (c.state is hello_sent)) [
      | inl e ↦ rw e (
          r.then_ (r.greets h c) (
            answer_hello (hello_refused F G o h) (record c { hello = h })
              (is_sound c.state hello_sent e)))
      | inr e ↦ rw e (r.same c)
    ]

    handle_internal-R :
        (msg : ProtoMessage) (c : Connection F.State) → R c (handle_internal F G o msg c)
    unfolding handle_internal
    handle_internal-R (hello_response h) c = on_hello-R h c
    handle_internal-R (authentication_response true) c = r.fails _ _ c
    handle_internal-R (authentication_response false) c = r.same c
    handle_internal-R disconnect_request c = r.obeys c
    handle_internal-R disconnect_response c = r.closes c
    handle_internal-R ping_request c = r.sends ping_response c
    handle_internal-R ping_response c = r.pongs c
    handle_internal-R (hello_request i a b) c = r.same c
    handle_internal-R (authentication_request p) c = r.same c
    handle_internal-R (other t b) c = r.same c

    dispatch-R :
        (t : ℕ) (msg : ProtoMessage) (c : Connection F.State) → R c (dispatch F G o t msg c)
    unfolding dispatch
    dispatch-R t msg c =
        let b = leb t G.message_id_max && c.handlers.on_message t in
        let d = if b then emit (dispatched t msg) c else c in
        r.then_ (may_log b (dispatched t msg) c tt)
          (may_log c.handlers.any_handler (dispatched_any msg) d tt)

    handle_message-R :
        (t : ℕ) (msg : ProtoMessage) (c : Connection F.State) → R c (handle_message F G o t msg c)
    unfolding handle_message
    handle_message-R t msg c =
        let d = handle_internal F G o msg c in
        branch (is_over d.state) (handle_internal-R msg c)
          (r.then_ (handle_internal-R msg c) (dispatch-R t msg d))

    decoded :
        (t : ℕ) (m : Option ProtoMessage) (c : Connection F.State)
        → R c (elim m [
          | none ↦ fail protocol (text "failed to parse message payload" ∷ []) c
          | some msg ↦ handle_message F G o t msg c
        ])
    decoded t none c = r.fails _ _ c
    decoded t (some msg) c = handle_message-R t msg c

    pub handle_frame-R :
        (t : ℕ) (payload : List ℕ) (c : Connection F.State) → R c (handle_frame F G o t payload c)
    unfolding handle_frame
    handle_frame-R t payload c =
        let d = if c.handlers.raw_handler then emit (raw_frame t payload) c else c in
        let seen = may_log c.handlers.raw_handler (raw_frame t payload) c tt in
        branch (G.create t) (r.then_ seen (decoded t (G.parse_from_array t payload) d)) seen

    pub on_handshake_error-R :
        (w : What) (c : Connection F.State) → R c (on_handshake_error F G o w c)
    unfolding on_handshake_error
    on_handshake_error-R w c =
        r.then_ (r.notes (handshake_error w) c)
          (r.fails protocol w (record c { last_error = some (handshake_error w) }))

    go_on :
        (loop : Connection F.State → Drained F.State)
        → ((c : Connection F.State) → R c (after (loop c)))
        → (b : Bool) {c : Connection F.State} (d : Connection F.State) → R c d
        → R c (after (elim b [ true ↦ returns d | false ↦ loop d ]))
    go_on loop h true d k = k
    go_on loop h false d k = r.then_ k (h d)

    after_round-R :
        (loop : Connection F.State → Drained F.State)
        → ((c : Connection F.State) → R c (after (loop c)))
        → (x : Round) (s : F.State) (c : Connection F.State) → (F.round s).1 ≡ x
        → R c (after (after_round F G o loop x c))
    unfolding after_round
    after_round-R loop h (status Frame.FrameStatus.need_more) s c e = r.same c
    after_round-R loop h (status (Frame.FrameStatus.throws x)) s c e = r.same c
    after_round-R loop h (status (Frame.FrameStatus.ok t payload)) s c e =
        let d = handle_frame F G o t payload c in
        go_on loop h (is_over d.state) d (handle_frame-R t payload c)
    after_round-R loop h ready s c e = r.then_ (r.readies c s e) (h _)
    after_round-R loop h again s c e = h c
    after_round-R loop h (handshake_failed w) s c e = r.then_ (on_handshake_error-R w c) (h _)

    caught-R : (d : Drained F.State) → R (after d) (after (caught F G o d))
    unfolding caught
    caught-R (returns c) = r.same c
    caught-R (stuck c) = r.same c
    caught-R (escapes e c) = elim (Bool-cases (is_protocol_error e)) [
      | inl p ↦
          rw p
            (r.then_ (r.notes e c) (r.fails protocol (what e) (record c { last_error = some e })))
      | inr p ↦ rw p (r.same c)
    ]

    module _
        (feeds : (bs : List ℕ) (c : Connection F.State)
          → R c (record c { frames = F.feed c.frames bs }))
        (takes : (c : Connection F.State) → R c (record c { frames = (F.round c.frames).0 })) where
      drain_frames-R : (fuel : ℕ) (c : Connection F.State) → R c (after (drain_frames F G o fuel c))
      unfolding drain_frames
      drain_frames-R zero c = r.same c
      drain_frames-R (suc fuel) c = r.then_ (takes c) (
          after_round-R (drain_frames F G o fuel) (drain_frames-R fuel) (F.round c.frames).1
            c.frames (record c { frames = (F.round c.frames).0 }) refl)

      -- Whatever bytes arrive, `on_bytes` keeps the relation.
      pub on_bytes-R : (bs : List ℕ) (c : Connection F.State) → R c (after (on_bytes F G o bs c))
      unfolding on_bytes
      on_bytes-R bs c =
          let d = record c { frames = F.feed c.frames bs } in
          let fuel = suc (F.size (F.feed c.frames bs)) in
          r.then_ (feeds bs c)
            (r.then_ (drain_frames-R fuel d) (caught-R (drain_frames F G o fuel d)))
