-- ===== src/Connection/Delivery/Encrypted/Loop.antt =====
-- The read loop in a connected session over the encrypted codec.
use cpp_esphome_api.Base.{
  ℕ, zero, suc, ◌+◌, ◌≤◌, ◌<◌, ◌≡◌, refl, sym, ap, ◌∙◌, true, false, List, [], ◌∷◌, ◌++◌,
  append-nil, append_assoc, arith, length, drop, length-drop,
}
use native.Mathlib.Decide.{dec_lt}
use mathlib.Core.Path.{ap₂}
use cpp_esphome_api.Frame.{Round}
use cpp_esphome_api.Noise.Primitives.{Detail}
use cpp_esphome_api.NoiseFrame.{NoiseFrameHelper, append_u16, round, encode}
use cpp_esphome_api.NoiseFrame.Frames.{pending}
use cpp_esphome_api.NoiseFrame.Helper.{noise_codec}
use cpp_esphome_api.NoiseFrame.Session.{
  IsMessage, round-encode_sound, encode-sealed, round-encode, AllMessages,
}
use cpp_esphome_api.Connection.State.{is_over, ConnectionOptions, Messages}
use cpp_esphome_api.Connection.Inbound.{handle_frame}
use cpp_esphome_api.Connection.Steps.{returns, after_round, drain_frames}
use cpp_esphome_api.Connection.Delivery.Reading.{messages_in-append}
use cpp_esphome_api.Connection.Delivery.Log.{heard}
use cpp_esphome_api.Connection.Delivery.OneFrame.{
  round_ok, one, message_in, messages_in, leaves_open, Kept, handle_frame-Goes,
}
use cpp_esphome_api.Connection.Delivery.Encrypted.Partial.{
  Session, IsOpen, nil_front, split_front, IsShort, noise_keeps, short-partial, round_partial,
  behind, bytes_of, behind-append,
}

module _ (P : Detail) (fresh : List ℕ) where
  module _ (G : Messages) where
    -- How far a session has come with the messages of a device, of whose bytes some are still to come.
    pub record Progress (sender : NoiseFrameHelper) (all : List (ℕ × List ℕ)) (future : List ℕ)
        (c d : Session) : Type 0 where
      pub done : List (ℕ × List ℕ)
      pub todo : List (ℕ × List ℕ)
      pub divided : all ≡ done ++ todo
      pub open_ : IsOpen (behind P fresh done sender) d
      pub heard_more : heard d.log ≡ heard c.log ++ messages_in G done
      pub rest : pending d.frames ++ future ≡ bytes_of P fresh todo (behind P fresh done sender)
      pub short : IsShort P fresh todo (behind P fresh done sender) (pending d.frames)

    pub then-Progress :
        (sender : NoiseFrameHelper) (all : List (ℕ × List ℕ)) (more future : List ℕ)
        (c d e : Session) (p : Progress sender all more c d)
        → Progress (behind P fresh p.done sender) p.todo future d e
        → Progress sender all future c e
    then-Progress sender all more future c d e p q =
        let same = behind-append P fresh p.done q.done sender in
        record {
          done = p.done ++ q.done;
          todo = q.todo;
          divided =
              p.divided ∙ ap (λ x. p.done ++ x) q.divided ∙ sym (append_assoc p.done q.done q.todo);
          open_ = rw same q.open_;
          heard_more =
              q.heard_more
              ∙ ap (λ x. x ++ messages_in G q.done) p.heard_more
              ∙ append_assoc (heard c.log) (messages_in G p.done) (messages_in G q.done)
              ∙ ap (λ x. heard c.log ++ x) (sym (messages_in-append G p.done q.done));
          rest = rw same q.rest;
          short = rw same q.short;
        }

    module _ (o : ConnectionOptions) where
      abbrev pub Loops : ℕ → NoiseFrameHelper → List (ℕ × List ℕ) → List ℕ → Session → Type 0
      Loops fuel sender all future c =
          (d : Session) × (drain_frames (noise_codec P fresh) G o fuel c ≡ returns d)
          × Progress sender all future c d

      drain_round :
          (fuel : ℕ) (c : Session) {h : NoiseFrameHelper} {x : Round}
          → round P c.frames ≡ (h, x)
          → drain_frames (noise_codec P fresh) G o (suc fuel) c
            ≡ after_round
                (noise_codec P fresh)
                G
                o
                (drain_frames (noise_codec P fresh) G o fuel)
                x
                (record c { frames = h })
      unfolding drain_frames
      drain_round fuel c e =
          ap
            (λ (x : NoiseFrameHelper × Round).
              after_round (noise_codec P fresh) G o (drain_frames (noise_codec P fresh) G o fuel)
                x.1 (record c { frames = x.0 }))
            e

      drain_short :
          (fuel : ℕ) (sender : NoiseFrameHelper) (ms : List (ℕ × List ℕ)) (future : List ℕ)
          (c : Session)
          → IsOpen sender c
          → AllMessages P ms
          → pending c.frames ++ future ≡ bytes_of P fresh ms sender
          → IsShort P fresh ms sender (pending c.frames)
          → Loops (suc fuel) sender ms future c
      unfolding after_round messages_in
      drain_short fuel sender ms future c h m e short =
          let part = short-partial P fresh ms sender (pending c.frames) future m e short in
          (
            record c { frames = record c.frames { buffer = pending c.frames; consumed = 0 } },
            drain_round fuel c (round_partial P fresh c.frames part),
            record {
              done = [];
              todo = ms;
              divided = refl;
              open_ = record {
                state = h.state;
                any = h.any;
                sound = omega arith;
                steps = record { state = h.steps.state; cipher = h.steps.cipher };
              };
              heard_more = sym (append-nil (heard c.log));
              rest = e;
              short = short;
            },
          )

      -- A message whose frame is whole, then the rest of the loop.
      drain_whole :
          (fuel t : ℕ) (payload : List ℕ) (sender : NoiseFrameHelper) (ms : List (ℕ × List ℕ))
          (future : List ℕ) (c : Session)
          → IsOpen sender c
          → IsMessage t payload
          → leaves_open G (t, payload) ≡ true
          → pending c.frames ++ future
            ≡ (encode P t payload sender).1 ++ bytes_of P fresh ms (encode P t payload sender).0
          → length (encode P t payload sender).1 ≤ length (pending c.frames)
          → ((d : Session)
              → IsOpen (encode P t payload sender).0 d
              → pending d.frames ++ future ≡ bytes_of P fresh ms (encode P t payload sender).0
              → length (pending d.frames) + 3 ≤ length (pending c.frames)
              → Loops fuel (encode P t payload sender).0 ms future d)
          → Loops (suc fuel) sender ((t, payload) ∷ ms) future c
      unfolding messages_in
      drain_whole fuel t payload sender ms future c h m keep e enough loop =
          let g = (encode P t payload sender).0 in
          let W = (encode P t payload sender).1 in
          let p' = drop (length W) (pending c.frames) in
          let (front, later) =
            split_front (pending c.frames) future W (bytes_of P fresh ms g) e enough in
          let (answer, waits, s') = round-encode P t payload p' sender c.frames m h.steps front in
          let fits = round-encode_sound P t payload p' sender c.frames m h.steps front in
          let x = round P c.frames in
          let b : Session = record c { frames = x.0 } in
          let d = handle_frame (noise_codec P fresh) G o t payload b in
          let k =
            handle_frame-Goes (noise_codec P fresh) (noise_keeps P fresh) G o t payload b h.state
              h.any keep in
          let (same_state, same_cipher, same_buffer, same_cursor) = k.frames in
          let left : pending d.frames ≡ p' = ap₂ drop same_cursor same_buffer ∙ waits in
          let open_d : IsOpen g d = record {
            state = k.state ∙ h.state;
            any = ap (λ x. x.any_handler) k.handlers ∙ h.any;
            sound = rw (same_cursor, same_buffer) fits;
            steps = record { state = same_state ∙ s'.state; cipher = same_cipher ∙ s'.cipher };
          } in
          let framed = ap length (encode-sealed P t payload sender) in
          let header : 3 ≤ length W = rw framed (unfold append_u16 in omega arith) in
          let (last, looped, r) =
            loop d open_d (ap (λ x. x ++ future) left ∙ later)
              (rw left (omega (arith, length-drop (length W) (pending c.frames)))) in
          let on : is_over d.state ≡ false = ap is_over (k.state ∙ h.state) in
          (
            last,
            drain_round fuel c (ap (λ (y : Round). (x.0, y)) answer)
                ∙ round_ok (noise_codec P fresh) G o (drain_frames (noise_codec P fresh) G o fuel) t
                    payload b on
                ∙ looped,
            record {
              done = (t, payload) ∷ r.done;
              todo = r.todo;
              divided = ap (◌∷◌ (t, payload)) r.divided;
              open_ = r.open_;
              heard_more =
                  r.heard_more
                  ∙ ap (λ x. x ++ messages_in G r.done) k.heard_more
                  ∙ append_assoc (heard c.log) (one (message_in G (t, payload)))
                      (messages_in G r.done);
              rest = r.rest;
              short = r.short;
            },
          )

      pub drain-Loops :
          (fuel : ℕ) (sender : NoiseFrameHelper) (ms : List (ℕ × List ℕ)) (future : List ℕ)
          (c : Session)
          → IsOpen sender c
          → AllMessages P ms
          → Kept G ms
          → pending c.frames ++ future ≡ bytes_of P fresh ms sender
          → length (pending c.frames) < fuel
          → Loops fuel sender ms future c
      drain-Loops zero sender ms future c h m kept e lt = absurd (omega arith)
      drain-Loops (suc fuel) sender [] future c h m kept e lt =
          drain_short fuel sender [] future c h m e
            (unfold IsShort in nil_front (pending c.frames) future e)
      drain-Loops (suc fuel) sender ((t, payload) ∷ ms) future c h (m, fit) (keep, kept) e lt =
          let W = (encode P t payload sender).1 in
          elim (dec_lt (length (pending c.frames)) (length W)) [
            | yes few ↦
                drain_short fuel sender ((t, payload) ∷ ms) future c h (m, fit) e
                  (unfold IsShort in few)
            | no enough ↦
                drain_whole fuel t payload sender ms future c h m keep e (omega arith)
                  (λ d open_d later less.
                    drain-Loops fuel (encode P t payload sender).0 ms future d open_d fit kept later
                      (omega arith))
          ]
