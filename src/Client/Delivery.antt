-- ===== src/Client/Delivery.antt =====
-- From the bytes of a device to what the client knows, over either codec.
use cpp_esphome_api.Base.{ℕ, ◌<◌, ◌≡◌, refl, ap, ◌∙◌, List, [], ◌∷◌, ◌++◌, length, take, All}
use mathlib.Core.List.{flatten, map}
use cpp_esphome_api.Plaintext.{PlaintextFrameHelper, encode}
use cpp_esphome_api.Plaintext.Helper.{plaintext_codec}
use cpp_esphome_api.Plaintext.Stream.{pending}
use cpp_esphome_api.Plaintext.Stream.Chunks.{encode_all}
use cpp_esphome_api.Connection.State.{
  ConnectionOptions, success, ServerHello, ProtoMessage, hello_response, Messages, Handlers,
}
use cpp_esphome_api.Connection.Steps.{Input, bytes_read}
use cpp_esphome_api.Connection.Steps
use cpp_esphome_api.Connection.State
use cpp_esphome_api.Connection.Delivery.Loop.{IsOpen}
use cpp_esphome_api.Connection.Delivery.Reading.{IsSent, frame_of, run-heard}
use cpp_esphome_api.Client.{Casts, Client, new, run}
use cpp_esphome_api.Connection.Delivery.Log.{heard, outcomes}
use cpp_esphome_api.Connection.Delivery.Opening.{IsWelcome}
use cpp_esphome_api.Connection.Delivery.Connects.{session, run-connects}
use cpp_esphome_api.Plaintext
use cpp_esphome_api.Client.Session.{HasTaken, run-Knows, heard-HasTaken}
use cpp_esphome_api.Noise.Primitives.{Detail}
use cpp_esphome_api.NoiseFrame.{NoiseFrameHelper}
use cpp_esphome_api.NoiseFrame.Helper.{noise_codec}
use cpp_esphome_api.NoiseFrame.Frames
use cpp_esphome_api.NoiseFrame.Session.{AllMessages}
use cpp_esphome_api.NoiseFrame.Session
use cpp_esphome_api.Connection.Delivery.Reading.{IsRead}
use cpp_esphome_api.Connection.Delivery.Encrypted.{run-heard_encrypted}
use cpp_esphome_api.Connection.Delivery.Encrypted

-- A client whose session over the plaintext codec is connected and has nothing waiting to be read; a device
-- that sends messages, each read back by its class, fitting a frame and none ending the session, and one
-- more of which only a proper part of the frame has come. Reading the bytes in any chunks, the client then knows of every key what
-- an observer of the messages with that key alone knows, has called each of its handlers with exactly
-- those messages, in order, and answers the last description of the device among them, or the one before.
pub run-sent :
    (G : Messages) (V : Casts) (o : ConnectionOptions) (msgs : List ProtoMessage)
    (chunks : List (List ℕ)) (last : ProtoMessage) (n key : ℕ) (c : Client PlaintextFrameHelper)
    → IsOpen c.connection
    → pending c.connection.frames ≡ []
    → All (IsSent G) msgs
    → IsSent G last
    → n < length (encode (G.id_of last) (G.serialize last) [])
    → flatten chunks
      ≡ encode_all (map (frame_of G) msgs) []
        ++ take n (encode (G.id_of last) (G.serialize last) [])
    → HasTaken G V key msgs c (run plaintext_codec G V o (map bytes_read chunks) c)
run-sent G V o msgs chunks last n key c h empty sent cut short e =
    heard-HasTaken plaintext_codec G V o (map bytes_read chunks) msgs key c
      (run-heard G o msgs chunks last n c.connection h empty sent cut short e).0

-- The same over the encrypted codec: a client whose session is connected, in step with the device and has
-- nothing waiting to be read; a device that sends messages, each read back by its class, fitting a frame
-- and none ending the session. Reading the bytes in any chunks, the client then knows of every key what an
-- observer of the messages with that key alone knows, has called each of its handlers with exactly those
-- messages, in order, and answers the last description of the device among them, or the one before.
pub run-sent_encrypted :
    (P : Detail) (fresh : List ℕ) (G : Messages) (V : Casts) (o : ConnectionOptions)
    (msgs : List ProtoMessage) (chunks : List (List ℕ)) (sender : NoiseFrameHelper) (key : ℕ)
    (c : Client NoiseFrameHelper)
    → Encrypted.Partial.IsOpen sender c.connection
    → Frames.pending c.connection.frames ≡ []
    → All (IsRead G) msgs
    → AllMessages P (map (frame_of G) msgs)
    → flatten chunks ≡ (Session.encode_all P (map (frame_of G) msgs) sender).1
    → HasTaken G V key msgs c (run (noise_codec P fresh) G V o (map bytes_read chunks) c)
run-sent_encrypted P fresh G V o msgs chunks sender key c h empty read fit e =
    heard-HasTaken (noise_codec P fresh) G V o (map bytes_read chunks) msgs key c
      (run-heard_encrypted P fresh G o msgs chunks sender c.connection h empty read fit e).0

-- A new client over the plaintext codec, with any handlers of `on_any` and any store, is asked to connect,
-- and the transport connects. The device sends its welcome, a HelloResponse that its class reads back, that
-- fits a frame and is not refused, then any messages, each read back by its class, fitting a frame and none
-- ending the session, and one more of which only a proper part of the frame has come. However the reads cut these bytes, the client's connection is
-- connected and has called the connect handler once, with success, and the client knows of every key what
-- an observer of the messages with that key alone knows, has called each of its handlers with exactly the
-- welcome and these messages, in order, and answers the last description of the device among them, or the
-- one before.
pub run-fresh :
    (G : Messages) (V : Casts) (o : ConnectionOptions) (h : ServerHello) (msgs : List ProtoMessage)
    (chunks : List (List ℕ)) (last : ProtoMessage) (n key : ℕ) (c : Client PlaintextFrameHelper)
    → c.connection ≡ (new plaintext_codec G V o Plaintext.new).connection
    → IsWelcome G o h
    → All (IsSent G) msgs
    → IsSent G last
    → n < length (encode (G.id_of last) (G.serialize last) [])
    → flatten chunks
      ≡ encode_all (map (frame_of G) (hello_response h ∷ msgs)) []
        ++ take n (encode (G.id_of last) (G.serialize last) [])
    → let d = run plaintext_codec G V o (session chunks) c in
      (outcomes d.connection.log ≡ success ∷ [])
      × IsOpen d.connection
      × HasTaken G V key (hello_response h ∷ msgs) c d
unfolding new Steps.handlers_with heard State.new
run-fresh G V o h msgs chunks last n key c fresh w sent cut short e =
    let hs = (new plaintext_codec G V o Plaintext.new).connection.handlers in
    let (asked, told, on, left) =
      run-connects G o hs h msgs chunks last n refl w sent cut short e in
    let (ms, grown, taken, conn) = run-Knows plaintext_codec G V o (session chunks) c in
    let same = conn ∙ ap (Steps.run plaintext_codec G o (session chunks)) fresh in
    (
      ap (λ k. outcomes k.log) same ∙ asked,
      rw same on,
      heard-HasTaken plaintext_codec G V o (session chunks) (hello_response h ∷ msgs) key c
          (rw fresh told),
    )
