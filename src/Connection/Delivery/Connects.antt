-- ===== src/Connection/Delivery/Connects.antt =====
-- A session over the plaintext codec from `start` to the messages that the user hears.
use cpp_esphome_api.Base.{
  ℕ, ◌<◌, ◌≡◌, arith, ap, ◌∙◌, true, List, [], ◌∷◌, ◌++◌, append_assoc, length, take, All,
}
use mathlib.Core.List.{flatten, map}
use cpp_esphome_api.Plaintext.{encode, parse, partial}
use cpp_esphome_api.Plaintext.Helper.{plaintext_codec}
use cpp_esphome_api.Plaintext.Stages.{encode-frame_bytes, frame_bytes}
use cpp_esphome_api.Plaintext.RoundTrip.{parse-take_frame}
use cpp_esphome_api.Plaintext.Stream.{pending, splits}
use cpp_esphome_api.Plaintext.Stream.Chunks.{encode_all, encode_all-wire, wire, splits-wire}
use cpp_esphome_api.Connection.State.{
  ConnectionOptions, success, ServerHello, ProtoMessage, hello_response, Messages, Handlers,
}
use cpp_esphome_api.Connection.Steps.{Input, start_called, transport_connected, bytes_read, run}
use cpp_esphome_api.Connection.Delivery.Log.{heard, outcomes}
use cpp_esphome_api.Connection.Delivery.OneFrame.{messages_in}
use cpp_esphome_api.Connection.Delivery.Loop.{IsOpen}
use cpp_esphome_api.Connection.Delivery.Reading.{
  IsSent, frame_of, IsSent-IsRead, frame_of-Frames, frame_of-Kept, messages_in-frame_of,
}
use cpp_esphome_api.Connection.Delivery.Opening.{with_handlers, greet, IsWelcome}
use cpp_esphome_api.Connection.Delivery.Welcome.{run-Welcomed}

-- What happens to a session: the call, the transport's answer and the reads.
abbrev pub session : List (List ℕ) → List Input
session chunks = start_called ∷ transport_connected success ∷ map bytes_read chunks

-- A new connection, with a handler for every message, is started, and the transport connects. The device
-- sends its welcome, a HelloResponse that its class reads back, that fits a frame and is not refused, then
-- any messages, each read back by its class, fitting a frame and none ending the session, and one more of
-- which only a proper part of the frame has come. However the reads cut these bytes, the connect handler has been called once, with success, the
-- handler of `on_any` has been called with the welcome and exactly those messages, in order, the session
-- is connected, and the part waits.
pub run-connects :
    (G : Messages) (o : ConnectionOptions) (hs : Handlers) (h : ServerHello)
    (msgs : List ProtoMessage) (chunks : List (List ℕ)) (last : ProtoMessage) (n : ℕ)
    → hs.any_handler ≡ true
    → IsWelcome G o h
    → All (IsSent G) msgs
    → IsSent G last
    → n < length (encode (G.id_of last) (G.serialize last) [])
    → flatten chunks
      ≡ encode_all (map (frame_of G) (hello_response h ∷ msgs)) []
        ++ take n (encode (G.id_of last) (G.serialize last) [])
    → let d = run plaintext_codec G o (session chunks) (with_handlers hs) in
      (outcomes d.log ≡ success ∷ [])
      × (heard d.log ≡ hello_response h ∷ msgs)
      × IsOpen d
      × (pending d.frames ≡ take n (encode (G.id_of last) (G.serialize last) []))
unfolding run frame_of
run-connects G o hs h msgs chunks last n any w sent cut short e =
    let (g, empty, silent, asked) = greet G o hs any in
    let c =
      run plaintext_codec G o (start_called ∷ transport_connected success ∷ [])
        (with_handlers hs) in
    let t = G.id_of last in
    let payload = G.serialize last in
    let F = frame_bytes (G.id_of (hello_response h)) (G.serialize (hello_response h)) in
    let fs = map (frame_of G) msgs in
    let tail = take n (encode t payload []) in
    let fits = frame_of-Frames G msgs sent in
    let read = IsSent-IsRead G msgs sent in
    let bytes = encode-frame_bytes t payload [] (omega (arith, cut.in_frame.payload_fits)) in
    let part : parse tail ≡ partial =
      rw bytes (parse-take_frame t n payload cut.in_frame (rw bytes at short)) in
    let all = splits-wire fs tail fits part in
    let whole : pending c.frames ++ flatten chunks ≡ F ++ (wire fs ++ tail) =
      ap (λ x. x ++ flatten chunks) empty
      ∙ e
      ∙ ap (λ x. x ++ tail)
          (encode_all-wire (map (frame_of G) (hello_response h ∷ msgs)) [] (w.in_frame, fits))
      ∙ append_assoc F (wire fs) tail in
    let some_ : length (pending c.frames) < length F =
      rw empty (unfold frame_bytes in omega arith) in
    let x =
      run-Welcomed G o h w chunks (wire fs ++ tail) c g some_ whole (ap (λ s. s.ending) all)
        (rw all (frame_of-Kept G msgs read)) in
    (
      x.told ∙ ap (λ m. m ++ (success ∷ [])) asked,
      x.heard_more
          ∙ ap (λ m. m ++ (hello_response h ∷ messages_in G (splits (wire fs ++ tail)).frames))
              silent
          ∙ ap (λ s. hello_response h ∷ messages_in G s.frames) all
          ∙ ap (◌∷◌ (hello_response h)) (messages_in-frame_of G msgs read),
      x.open_,
      x.left ∙ ap (λ s. s.rest) all,
    )
