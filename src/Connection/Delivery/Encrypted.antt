-- ===== src/Connection/Delivery/Encrypted.antt =====
-- Reads of any sizes in a connected session over the encrypted codec, from the device's frames to the
-- messages that the user hears.
pub mod Partial
pub mod Loop
use cpp_esphome_api.Base.{
  ℕ, suc, ◌≡◌, refl, sym, ap, ◌∙◌, true, List, [], ◌∷◌, ◌++◌, append-nil, append_assoc, arith,
  length, All, length-append, drop-append_le, All-append_parts,
}
use mathlib.Core.List.{flatten, map}
use cpp_esphome_api.Frame
use cpp_esphome_api.Noise.Primitives.{Detail}
use cpp_esphome_api.NoiseFrame.{NoiseFrameHelper, append_u16, feed, encode}
use cpp_esphome_api.NoiseFrame.Frames.{pending}
use cpp_esphome_api.NoiseFrame.Helper.{noise_codec}
use cpp_esphome_api.NoiseFrame.Session.{encode-sealed, encode_all, AllMessages}
use cpp_esphome_api.Connection.State.{ConnectionOptions, ProtoMessage, Messages}
use cpp_esphome_api.Connection.Steps.{bytes_read, caught, on_bytes, step, run}
use cpp_esphome_api.Connection.Delivery.Reading.{
  IsRead, frame_of, frame_of-Kept, messages_in-frame_of,
}
use cpp_esphome_api.Connection.Delivery.Log.{heard}
use cpp_esphome_api.Connection.Delivery.OneFrame.{one, messages_in, leaves_open, Kept}
use cpp_esphome_api.Connection.Delivery.Encrypted.Partial.{
  Session, IsOpen, IsShort, behind, bytes_of, AllMessages-parts,
}
use cpp_esphome_api.Connection.Delivery.Encrypted.Loop.{Progress, then-Progress, drain-Loops}

module _ (P : Detail) (fresh : List ℕ) (G : Messages) (o : ConnectionOptions) where
  -- One read.
  step-Progress :
      (chunk : List ℕ) (sender : NoiseFrameHelper) (ms : List (ℕ × List ℕ)) (future : List ℕ)
      (c : Session)
      → IsOpen sender c
      → AllMessages P ms
      → Kept G ms
      → pending c.frames ++ (chunk ++ future) ≡ bytes_of P fresh ms sender
      → Progress P fresh G sender ms future c (step (noise_codec P fresh) G o (bytes_read chunk) c)
  unfolding step on_bytes caught feed
  step-Progress chunk sender ms future c h m kept e =
      let s = feed c.frames chunk in
      let b : Session = record c { frames = s } in
      let fed : pending s ≡ pending c.frames ++ chunk =
        drop-append_le c.frames.consumed c.frames.buffer chunk h.sound in
      let open_b : IsOpen sender b = record {
        state = h.state;
        any = h.any;
        sound = omega (arith, h.sound, length-append c.frames.buffer chunk);
        steps = record { state = h.steps.state; cipher = h.steps.cipher };
      } in
      let (d, looped, r) =
        drain-Loops P fresh G o (suc (length (pending s))) sender ms future b open_b m kept
          (ap (λ x. x ++ future) fed ∙ append_assoc (pending c.frames) chunk future ∙ e)
          (omega arith) in
      rw looped (record {
        done = r.done;
        todo = r.todo;
        divided = r.divided;
        open_ = r.open_;
        heard_more = r.heard_more;
        rest = r.rest;
        short = r.short;
      })

  run-Progress :
      (chunks : List (List ℕ)) (sender : NoiseFrameHelper) (ms : List (ℕ × List ℕ))
      (future : List ℕ) (c : Session)
      → IsOpen sender c
      → AllMessages P ms
      → Kept G ms
      → pending c.frames ++ (flatten chunks ++ future) ≡ bytes_of P fresh ms sender
      → IsShort P fresh ms sender (pending c.frames)
      → Progress P fresh G sender ms future c
          (run (noise_codec P fresh) G o (map bytes_read chunks) c)
  unfolding run flatten messages_in
  run-Progress [] sender ms future c h m kept e short = record {
    done = [];
    todo = ms;
    divided = refl;
    open_ = h;
    heard_more = sym (append-nil (heard c.log));
    rest = e;
    short = short;
  }
  run-Progress (chunk ∷ chunks) sender ms future c h m kept e short =
      let more = flatten chunks ++ future in
      let one =
        step-Progress chunk sender ms more c h m kept (
          ap (λ x. pending c.frames ++ x) (sym (append_assoc chunk (flatten chunks) future)) ∙ e) in
      let d = step (noise_codec P fresh) G o (bytes_read chunk) c in
      let (m_done, m_todo) = AllMessages-parts P fresh one.done one.todo (rw one.divided at m) in
      let (k_done, k_todo) =
        All-append_parts (λ f. leaves_open G f ≡ true) one.done one.todo (rw one.divided at kept) in
      let rest =
        run-Progress chunks (behind P fresh one.done sender) one.todo future d one.open_ m_todo
          k_todo one.rest one.short in
      then-Progress P fresh G sender ms more future c d
        (run (noise_codec P fresh) G o (map bytes_read chunks) d) one rest

none-IsShort :
    (P : Detail) (fresh : List ℕ) (ms : List (ℕ × List ℕ)) (sender : NoiseFrameHelper) (p : List ℕ)
    → p ≡ []
    → IsShort P fresh ms sender p
unfolding IsShort
none-IsShort P fresh [] sender p e = e
none-IsShort P fresh ((t, payload) ∷ ms) sender p e =
    let framed = ap length (encode-sealed P t payload sender) in
    let none : length p ≡ 0 = ap length e in unfold append_u16 in omega arith

all_done :
    (P : Detail) (fresh : List ℕ) (done todo all : List (ℕ × List ℕ)) (sender : NoiseFrameHelper)
    (p : List ℕ)
    → all ≡ done ++ todo
    → p ++ [] ≡ (encode_all P todo sender).1
    → IsShort P fresh todo sender p
    → (done ≡ all) × (p ≡ [])
unfolding IsShort
all_done P fresh done [] all sender p parts e short = (sym (append-nil done) ∙ sym parts, short)
all_done P fresh done ((t, payload) ∷ todo) all sender p parts e short =
    let whole = ap length e in
    let front = length-append p [] in
    let back =
      length-append (encode P t payload sender).1
        (encode_all P todo (encode P t payload sender).0).1 in
    absurd (omega arith)

-- In a connected session over the encrypted codec that is in step with the device, with nothing waiting to be
-- read: whatever messages the device sends, each read back by its class, fitting a frame and none ending the
-- session, reading the bytes in any chunks calls the handler of `on_any` with exactly those messages, in
-- order, behind the ones before; the session stays connected and in step, and nothing waits.
pub run-heard_encrypted :
    (P : Detail) (fresh : List ℕ) (G : Messages) (o : ConnectionOptions) (msgs : List ProtoMessage)
    (chunks : List (List ℕ)) (sender : NoiseFrameHelper) (c : Session)
    → IsOpen sender c
    → pending c.frames ≡ []
    → All (IsRead G) msgs
    → AllMessages P (map (frame_of G) msgs)
    → flatten chunks ≡ (encode_all P (map (frame_of G) msgs) sender).1
    → (heard (run (noise_codec P fresh) G o (map bytes_read chunks) c).log ≡ heard c.log ++ msgs)
      × IsOpen
          (encode_all P (map (frame_of G) msgs) sender).0
          (run (noise_codec P fresh) G o (map bytes_read chunks) c)
      × (pending (run (noise_codec P fresh) G o (map bytes_read chunks) c).frames ≡ [])
run-heard_encrypted P fresh G o msgs chunks sender c h empty read fit e =
    let ms = map (frame_of G) msgs in
    let whole : pending c.frames ++ (flatten chunks ++ []) ≡ (encode_all P ms sender).1 =
      rw empty (append-nil (flatten chunks) ∙ e) in
    let r =
      run-Progress P fresh G o chunks sender ms [] c h fit (frame_of-Kept G msgs read) whole
        (none-IsShort P fresh ms sender (pending c.frames) empty) in
    let (same, left) =
      all_done P fresh r.done r.todo ms (encode_all P r.done sender).0 _ r.divided r.rest r.short in
    (
      r.heard_more
          ∙ ap (λ x. heard c.log ++ messages_in G x) same
          ∙ ap (λ x. heard c.log ++ x) (messages_in-frame_of G msgs read),
      rw (← same) r.open_,
      left,
    )
