-- ===== src/Connection/Delivery/Loop.antt =====
-- The read loop in a connected session over the plaintext codec, on bytes that split into frames.
use cpp_esphome_api.Base.{
  ℕ, zero, suc, ◌≤◌, ◌<◌, ◌≡◌, refl, sym, ap, ◌∙◌, true, false, List, ◌∷◌, ◌++◌, append-nil,
  append_assoc, arith, length, drop, length-drop,
}
use cpp_esphome_api.Frame.{status, ok, need_more}
use cpp_esphome_api.Frame
use cpp_esphome_api.Plaintext.{PlaintextFrameHelper, next, parse, found, partial}
use cpp_esphome_api.Plaintext.Bounds.{is_partial, is_malformed, is_found, outcome}
use cpp_esphome_api.Plaintext.Helper.{plaintext_codec}
use cpp_esphome_api.Plaintext.Stream.{
  pending, waiting, splits, splits_found, splits_malformed, next_partial, next_found,
}
use cpp_esphome_api.Plaintext.Stream.Chunks.{splits_partial}
use cpp_esphome_api.Connection.State.{Connection, connected, is_over, ConnectionOptions, Messages}
use cpp_esphome_api.Connection.Inbound.{handle_frame}
use cpp_esphome_api.Connection.Steps.{returns, after_round, drain_frames}
use cpp_esphome_api.Connection.Delivery.Log.{heard, outcomes}
use cpp_esphome_api.Connection.Delivery.OneFrame.{
  Keeps, round_ok, one, message_in, messages_in, leaves_open, Kept, handle_frame-Goes,
}

abbrev pub Session : Type 0
Session = Connection PlaintextFrameHelper

-- Encoding leaves the plaintext codec as it is.
abbrev plaintext_keeps : Keeps plaintext_codec
plaintext_keeps = record {
  Same = λ a b. b ≡ a;
  same = λ s. refl;
  then_ = λ p q. q ∙ p;
  encodes = λ t payload s. refl;
}

-- A connected session that has a handler for every message, with its cursor inside the buffer.
pub record IsOpen (c : Session) : Type 0 where
  pub state : c.state ≡ connected
  pub any : c.handlers.any_handler ≡ true
  pub sound : c.frames.consumed ≤ length c.frames.buffer

-- The session has gone on over some frames, and some bytes wait.
pub record Delivers (G : Messages) (c d : Session) (fs : List (ℕ × List ℕ)) (rest : List ℕ)
    : Type 0 where
  pub open_ : IsOpen d
  pub heard_more : heard d.log ≡ heard c.log ++ messages_in G fs
  pub told : outcomes d.log ≡ outcomes c.log
  pub left : pending d.frames ≡ rest

abbrev pub at : List ℕ → ℕ → PlaintextFrameHelper
at p used = record { buffer = p; consumed = used }

module _ (G : Messages) (o : ConnectionOptions) where
  -- A round of the loop, by what `next` answers.
  pub drain_round :
      (fuel : ℕ) (c : Session) {h : PlaintextFrameHelper} {st : Frame.FrameStatus}
      → next c.frames ≡ (h, st)
      → drain_frames plaintext_codec G o (suc fuel) c
        ≡ after_round plaintext_codec G o
            (drain_frames plaintext_codec G o fuel)
            (status st)
            (record c { frames = h })
  unfolding drain_frames
  drain_round fuel c e =
      ap
        (λ (x : PlaintextFrameHelper × Frame.FrameStatus).
          after_round plaintext_codec G o (drain_frames plaintext_codec G o fuel) (status x.1)
            (record c { frames = x.0 }))
        e

  abbrev pub Loops : ℕ → Session → Type 0
  Loops fuel c =
      (d : Session) × (drain_frames plaintext_codec G o fuel c ≡ returns d)
      × Delivers G c d (splits (pending c.frames)).frames (splits (pending c.frames)).rest

  drain_partial :
      (fuel : ℕ) (c : Session) → IsOpen c → parse (pending c.frames) ≡ partial → Loops (suc fuel) c
  unfolding after_round messages_in
  drain_partial fuel c h e = (
    record c { frames = at (pending c.frames) 0 },
    drain_round fuel c (next_partial c.frames e),
    rw (splits_partial (pending c.frames) e) (record {
      open_ = record { state = h.state; any = h.any; sound = omega arith };
      heard_more = sym (append-nil (heard c.log));
      told = refl;
      left = refl;
    }),
  )

  -- A frame that keeps the session open, then the rest of the loop.
  drain_found :
      (fuel : ℕ) (c : Session) {t used : ℕ} {payload : List ℕ}
      → IsOpen c
      → parse (pending c.frames) ≡ found t payload used
      → used ≤ length (pending c.frames)
      → leaves_open G (t, payload) ≡ true
      → splits (pending c.frames) ≡ (
          let s = splits (drop used (pending c.frames)) in
          record s { frames = (t, payload) ∷ s.frames })
      → ((d : Session) → IsOpen d → pending d.frames ≡ drop used (pending c.frames) → Loops fuel d)
      → Loops (suc fuel) c
  unfolding messages_in
  drain_found fuel c {t} {used} {payload} h e within kept split_off loop =
      let p = pending c.frames in
      let b : Session = record c { frames = at p used } in
      let d = handle_frame plaintext_codec G o t payload b in
      let g =
        handle_frame-Goes plaintext_codec plaintext_keeps G o t payload b h.state h.any kept in
      let same : pending d.frames ≡ drop used p = ap pending g.frames in
      let fits : d.frames.consumed ≤ length d.frames.buffer = rw g.frames within in
      let open_d : IsOpen d = record {
        state = g.state ∙ h.state;
        any = ap (λ x. x.any_handler) g.handlers ∙ h.any;
        sound = fits;
      } in
      let (last, looped, more) = loop d open_d same in
      let on : is_over d.state ≡ false = ap is_over (g.state ∙ h.state) in
      (
        last,
        drain_round fuel c (next_found c.frames e)
            ∙ round_ok plaintext_codec G o (drain_frames plaintext_codec G o fuel) t payload b on
            ∙ looped,
        rw split_off (record {
          open_ = more.open_;
          heard_more =
              more.heard_more
              ∙ ap (λ x. x ++ messages_in G (splits (pending d.frames)).frames) g.heard_more
              ∙ append_assoc (heard c.log) (one (message_in G (t, payload)))
                  (messages_in G (splits (pending d.frames)).frames)
              ∙ ap
                  (λ q.
                    heard c.log
                    ++ (one (message_in G (t, payload)) ++ messages_in G (splits q).frames))
                  same;
          told = more.told ∙ g.told;
          left = more.left ∙ ap (λ q. (splits q).rest) same;
        }),
      )

  pub drain-Loops :
      (fuel : ℕ) (c : Session)
      → IsOpen c
      → length (pending c.frames) < fuel
      → (splits (pending c.frames)).ending ≡ waiting
      → Kept G (splits (pending c.frames)).frames
      → Loops fuel c
  drain-Loops zero c h lt w kept = absurd (omega arith)
  drain-Loops (suc fuel) c h lt w kept = elim (outcome (pending c.frames)) [
    | is_partial e ↦ drain_partial fuel c h e
    | is_malformed x e ↦ cc (rw (splits_malformed (pending c.frames) e) at w)
    | is_found t used payload e l ↦
        let off = splits_found (pending c.frames) e l in
        let (first, later) = rw off at kept in
        drain_found fuel c h e l.within first off (λ d open_d same.
          drain-Loops fuel d open_d
            (rw same (omega (arith, l.within, l.header, length-drop used (pending c.frames))))
            (rw same (rw off at w)) (rw same later))
  ]
