-- ===== src/Connection/Delivery/Reading.antt =====
-- Reads of any sizes in a connected session over the plaintext codec, from the device's frames to the
-- messages that the user hears.
use cpp_esphome_api.Base.{
  All-append_parts, ℕ, suc, ◌<◌, ◌≡◌, refl, sym, ap, ◌∙◌, inl, inr, true, some, List, [], ◌∷◌, ◌++◌,
  append-nil, append_assoc, arith, length, take, All, length-append,
}
use mathlib.Core.List.{flatten, map}
use cpp_esphome_api.Plaintext.{feed, encode, parse, partial}
use cpp_esphome_api.Plaintext.Stages.{IsFrame, encode-frame_bytes}
use cpp_esphome_api.Plaintext.RoundTrip.{parse-take_frame}
use cpp_esphome_api.Plaintext.Helper.{plaintext_codec}
use cpp_esphome_api.Plaintext.Stream.{
  pending, pending-feed, waiting, splits, splits-append, continue,
}
use cpp_esphome_api.Plaintext.Stream.Chunks.{
  idle, splits_nil, splits_rest-idle, splits-ne-stuck, Ending-cases, continue_waiting,
  continue_stopped, encode_all, Frames, encode_all-wire, wire, splits-wire,
}
use cpp_esphome_api.Connection.State.{ConnectionOptions, ProtoMessage, Messages}
use cpp_esphome_api.Connection.Steps.{bytes_read, caught, on_bytes, step, run}
use cpp_esphome_api.Connection.Delivery.Log.{heard}
use cpp_esphome_api.Connection.Delivery.OneFrame.{
  one, keeps_open, message_in, messages_in, leaves_open, Kept,
}
use cpp_esphome_api.Connection.Delivery.Loop.{Session, IsOpen, Delivers, drain-Loops}

module _ (G : Messages) where
  pub messages_in-append :
      (fs gs : List (ℕ × List ℕ)) → messages_in G (fs ++ gs) ≡ messages_in G fs ++ messages_in G gs
  unfolding messages_in
  messages_in-append [] gs = refl
  messages_in-append (f ∷ fs) gs = simp (messages_in-append fs gs, append_assoc)

  Delivers-append :
      {c d e : Session} {fs gs : List (ℕ × List ℕ)} {mid rest : List ℕ}
      → Delivers G c d fs mid
      → Delivers G d e gs rest
      → Delivers G c e (fs ++ gs) rest
  Delivers-append {c} {fs = fs} {gs = gs} a b = record {
    open_ = b.open_;
    heard_more =
        b.heard_more
        ∙ ap (λ x. x ++ messages_in G gs) a.heard_more
        ∙ append_assoc (heard c.log) (messages_in G fs) (messages_in G gs)
        ∙ ap (λ x. heard c.log ++ x) (sym (messages_in-append fs gs));
    told = b.told ∙ a.told;
    left = b.left;
  }

  -- The frame that a device makes of a message.
  unfoldable pub frame_of : ProtoMessage → ℕ × List ℕ
  frame_of msg = (G.id_of msg, G.serialize msg)

  -- A message of a known type, that its class reads back and that does not end the session.
  pub record IsRead (msg : ProtoMessage) : Type 0 where
    pub is_known : G.create (G.id_of msg) ≡ true
    pub reads_back : G.parse_from_array (G.id_of msg) (G.serialize msg) ≡ some msg
    pub goes_on : keeps_open msg ≡ true

  -- One that fits a frame of the plaintext codec besides.
  pub record IsSent (msg : ProtoMessage) : Type 0 where
    pub read : IsRead msg
    pub in_frame : IsFrame (G.id_of msg) (G.serialize msg)

  pub IsSent-IsRead : (msgs : List ProtoMessage) → All IsSent msgs → All IsRead msgs
  IsSent-IsRead [] h = tt
  IsSent-IsRead (msg ∷ msgs) (s, more) = (s.read, IsSent-IsRead msgs more)

  pub frame_of-Frames : (msgs : List ProtoMessage) → All IsSent msgs → Frames (map frame_of msgs)
  unfolding frame_of
  frame_of-Frames [] h = tt
  frame_of-Frames (msg ∷ msgs) (s, more) = (s.in_frame, frame_of-Frames msgs more)

  pub frame_of-Kept : (msgs : List ProtoMessage) → All IsRead msgs → Kept G (map frame_of msgs)
  unfolding frame_of leaves_open
  frame_of-Kept [] h = tt
  frame_of-Kept (msg ∷ msgs) (s, more) =
      (rw (s.is_known, s.reads_back) s.goes_on, frame_of-Kept msgs more)

  pub messages_in-frame_of :
      (msgs : List ProtoMessage) → All IsRead msgs → messages_in G (map frame_of msgs) ≡ msgs
  unfolding frame_of messages_in message_in one
  messages_in-frame_of [] h = refl
  messages_in-frame_of (msg ∷ msgs) (s, more) =
      rw (s.is_known, s.reads_back) (ap (◌∷◌ msg) (messages_in-frame_of msgs more))

  module _ (o : ConnectionOptions) where
    -- One read.
    step-Delivers :
        (chunk : List ℕ) (c : Session)
        → IsOpen c
        → (splits (pending c.frames ++ chunk)).ending ≡ waiting
        → Kept G (splits (pending c.frames ++ chunk)).frames
        → Delivers G c
            (step plaintext_codec G o (bytes_read chunk) c)
            (splits (pending c.frames ++ chunk)).frames
            (splits (pending c.frames ++ chunk)).rest
    unfolding step on_bytes caught
    step-Delivers chunk c h w kept =
        let s = feed c.frames chunk in
        let b : Session = record c { frames = s } in
        let fed : pending s ≡ pending c.frames ++ chunk = pending-feed c.frames chunk h.sound in
        let fits : IsOpen b = record {
          state = h.state;
          any = h.any;
          sound = unfold feed in omega (arith, h.sound, length-append c.frames.buffer chunk);
        } in
        let (d, looped, r) =
          drain-Loops G o (suc (length (pending s))) b fits (omega arith) (rw fed w)
            (rw fed kept) in
        rw looped (record {
          open_ = r.open_;
          heard_more = r.heard_more ∙ rw fed refl;
          told = r.told;
          left = r.left ∙ rw fed refl;
        })

    -- Any reads, of bytes that split into frames.
    pub run-Delivers :
        (chunks : List (List ℕ)) (c : Session)
        → IsOpen c
        → splits (pending c.frames) ≡ idle (pending c.frames)
        → (splits (pending c.frames ++ flatten chunks)).ending ≡ waiting
        → Kept G (splits (pending c.frames ++ flatten chunks)).frames
        → Delivers G c
            (run plaintext_codec G o (map bytes_read chunks) c)
            (splits (pending c.frames ++ flatten chunks)).frames
            (splits (pending c.frames ++ flatten chunks)).rest
    unfolding run flatten messages_in
    run-Delivers [] c h e w kept =
        rw (append-nil (pending c.frames), e)
          (record {
            open_ = h;
            heard_more = sym (append-nil (heard c.log));
            told = refl;
            left = refl;
          })
    run-Delivers (chunk ∷ chunks) c h e w kept =
        let q = pending c.frames ++ chunk in
        let more = flatten chunks in
        let whole : splits (pending c.frames ++ (chunk ++ more)) ≡ continue (splits q) more =
          ap splits (sym (append_assoc (pending c.frames) chunk more)) ∙ splits-append q more in
        elim (Ending-cases (splits q).ending (splits-ne-stuck q)) [
          | inr (x, stop) ↦ cc (rw (whole, continue_stopped (splits q) more x stop) at w, stop)
          | inl on ↦
              let all = whole ∙ continue_waiting (splits q) more on in
              let (now, later) =
                All-append_parts (λ f. leaves_open G f ≡ true) (splits q).frames
                  (splits ((splits q).rest ++ more)).frames (rw all at kept) in
              let one = step-Delivers chunk c h on now in
              let d = step plaintext_codec G o (bytes_read chunk) c in
              let rest =
                run-Delivers chunks d one.open_ (rw one.left (splits_rest-idle q on))
                  (rw one.left (rw all at w)) (rw one.left later) in
              rw all (Delivers-append one (rw one.left at rest))
        ]

-- In a connected session over the plaintext codec, with nothing waiting to be read: whatever messages
-- the device sends, each read back by its class, fitting a frame and none ending the session, and one more
-- of which only a proper part of the frame has come: reading the bytes in any chunks calls the handler of `on_any` with
-- exactly those messages, in order, behind the ones before, the session stays connected, and the part
-- waits.
pub run-heard :
    (G : Messages) (o : ConnectionOptions) (msgs : List ProtoMessage) (chunks : List (List ℕ))
    (last : ProtoMessage) (n : ℕ) (c : Session)
    → IsOpen c
    → pending c.frames ≡ []
    → All (IsSent G) msgs
    → IsSent G last
    → n < length (encode (G.id_of last) (G.serialize last) [])
    → flatten chunks
      ≡ encode_all (map (frame_of G) msgs) []
        ++ take n (encode (G.id_of last) (G.serialize last) [])
    → (heard (run plaintext_codec G o (map bytes_read chunks) c).log ≡ heard c.log ++ msgs)
      × IsOpen (run plaintext_codec G o (map bytes_read chunks) c)
      × (pending (run plaintext_codec G o (map bytes_read chunks) c).frames
          ≡ take n (encode (G.id_of last) (G.serialize last) []))
run-heard G o msgs chunks last n c h empty sent cut short e =
    let t = G.id_of last in
    let payload = G.serialize last in
    let fs = map (frame_of G) msgs in
    let tail = take n (encode t payload []) in
    let fits = frame_of-Frames G msgs sent in
    let read = IsSent-IsRead G msgs sent in
    let bytes = encode-frame_bytes t payload [] (omega (arith, cut.in_frame.payload_fits)) in
    let part : parse tail ≡ partial =
      rw bytes (parse-take_frame t n payload cut.in_frame (rw bytes at short)) in
    let whole : pending c.frames ++ flatten chunks ≡ wire fs ++ tail =
      rw empty (e ∙ ap (λ x. x ++ tail) (encode_all-wire fs [] fits)) in
    let all = ap splits whole ∙ splits-wire fs tail fits part in
    let d =
      run-Delivers G o chunks c h (rw empty splits_nil) (rw all refl)
        (rw all (frame_of-Kept G msgs read)) in
    (d.heard_more ∙ rw (all, messages_in-frame_of G msgs read) refl, d.open_, d.left ∙ rw all refl)
