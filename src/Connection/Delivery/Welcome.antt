-- ===== src/Connection/Delivery/Welcome.antt =====
-- The device's welcome over the plaintext codec, however the reads cut it.
use cpp_esphome_api.Base.{
  ℕ, ◌≤◌, ◌<◌, ◌≡◌, refl, sym, ap, ◌∙◌, true, inl, inr, ◌+◌, List, [], ◌∷◌, ◌++◌, append_assoc,
  arith, length, take, drop, All-append_parts, length-append, take-append, take-append_le,
  drop-append, drop-append_le, take-append-drop,
}
use mathlib.Core.List.{flatten, map}
use native.Mathlib.Decide.{dec_lt}
use cpp_esphome_api.Plaintext.{feed, parse, found, partial}
use cpp_esphome_api.Plaintext.Stages.{frame_bytes}
use cpp_esphome_api.Plaintext.RoundTrip.{parse-frame_bytes, parse-take_frame}
use cpp_esphome_api.Plaintext.Helper.{plaintext_codec}
use cpp_esphome_api.Plaintext.Stream.{
  pending, pending-feed, next_partial, next_found, waiting, splits, splits-append, continue,
}
use cpp_esphome_api.Plaintext.Stream.Chunks.{
  splits_rest-idle, splits-ne-stuck, Ending-cases, continue_waiting, continue_stopped,
}
use cpp_esphome_api.Connection.State.{
  is_over, ConnectionOptions, ServerHello, success, hello_response, Messages,
}
use cpp_esphome_api.Connection.Inbound.{handle_frame}
use cpp_esphome_api.Connection.Steps.{
  bytes_read, on_bytes, caught, drain_frames, after_round, step, run,
}
use cpp_esphome_api.Connection.Delivery.Log.{heard, outcomes}
use cpp_esphome_api.Connection.Delivery.OneFrame.{round_ok, messages_in, leaves_open, Kept}
use cpp_esphome_api.Connection.Delivery.Loop.{
  Session, IsOpen, Delivers, at, drain_round, drain-Loops,
}
use cpp_esphome_api.Connection.Delivery.Reading.{messages_in-append, run-Delivers}
use cpp_esphome_api.Connection.Delivery.Opening.{IsGreeting, IsWelcome, handle_frame-After}

-- Two cuts of the same bytes, the first one later.
later_cut :
    (q more F rest : List ℕ)
    → q ++ more ≡ F ++ rest
    → length F ≤ length q
    → (q ≡ F ++ drop (length F) q) × (rest ≡ drop (length F) q ++ more)
later_cut q more F rest e le =
    let front : take (length F) q ≡ F =
      sym (take-append_le (length F) q more le) ∙ ap (take (length F)) e ∙ take-append F rest in
    let back : drop (length F) q ++ more ≡ rest =
      sym (drop-append_le (length F) q more le) ∙ ap (drop (length F)) e ∙ drop-append F rest in
    (sym (take-append-drop (length F) q) ∙ ap (λ x. x ++ drop (length F) q) front, sym back)

module _ (G : Messages) (o : ConnectionOptions) (h : ServerHello) (w : IsWelcome G o h) where
  abbrev F : List ℕ
  F = frame_bytes (G.id_of (hello_response h)) (G.serialize (hello_response h))

  -- A session has been welcomed, has gone on over some frames, and some bytes wait.
  pub record Welcomed (c d : Session) (fs : List (ℕ × List ℕ)) (rest : List ℕ) : Type 0 where
    pub open_ : IsOpen d
    pub heard_more : heard d.log ≡ heard c.log ++ (hello_response h ∷ messages_in G fs)
    pub told : outcomes d.log ≡ outcomes c.log ++ (success ∷ [])
    pub left : pending d.frames ≡ rest

  then-Welcomed :
      {c d e : Session} {fs gs : List (ℕ × List ℕ)} {mid rest : List ℕ}
      → Welcomed c d fs mid
      → Delivers G d e gs rest
      → Welcomed c e (fs ++ gs) rest
  then-Welcomed {c} {fs = fs} {gs = gs} a b = record {
    open_ = b.open_;
    heard_more =
        b.heard_more
        ∙ ap (λ x. x ++ messages_in G gs) a.heard_more
        ∙ append_assoc (heard c.log) (hello_response h ∷ messages_in G fs) (messages_in G gs)
        ∙ ap (λ x. heard c.log ++ (hello_response h ∷ x)) (sym (messages_in-append G fs gs));
    told = b.told ∙ a.told;
    left = b.left;
  }

  -- A read that leaves the welcome incomplete.
  step-waits :
      (chunk : List ℕ) (c : Session)
      → IsGreeting c
      → parse (pending c.frames ++ chunk) ≡ partial
      → let d = step plaintext_codec G o (bytes_read chunk) c in
        IsGreeting d
        × (pending d.frames ≡ pending c.frames ++ chunk)
        × (heard d.log ≡ heard c.log)
        × (outcomes d.log ≡ outcomes c.log)
  unfolding step on_bytes caught after_round
  step-waits chunk c g e =
      let s = feed c.frames chunk in
      let fed : pending s ≡ pending c.frames ++ chunk = pending-feed c.frames chunk g.sound in
      rw
        (drain_round G o (length (pending s)) (record c { frames = s })
          (next_partial s (ap parse fed ∙ e)))
        (
          record { state = g.state; any = g.any; connects = g.connects; sound = omega arith },
          fed,
          refl,
          refl,
        )

  -- A read that completes it, and may bring more.
  step-Welcomed :
      (chunk rest : List ℕ) (c : Session)
      → IsGreeting c
      → pending c.frames ++ chunk ≡ F ++ rest
      → (splits rest).ending ≡ waiting
      → Kept G (splits rest).frames
      → Welcomed c
          (step plaintext_codec G o (bytes_read chunk) c)
          (splits rest).frames
          (splits rest).rest
  unfolding step on_bytes caught
  step-Welcomed chunk rest c g whole on kept =
      let t = G.id_of (hello_response h) in
      let payload = G.serialize (hello_response h) in
      let s = feed c.frames chunk in
      let fed : pending s ≡ F ++ rest = pending-feed c.frames chunk g.sound ∙ whole in
      let found_ : parse (pending s) ≡ found t payload (length F) =
        ap parse fed ∙ parse-frame_bytes t payload rest w.in_frame in
      let b : Session = record c { frames = at (pending s) (length F) } in
      let a =
        handle_frame-After G o t payload h b g.state g.connects g.any w.is_known w.reads_back
          w.accepted in
      let d = handle_frame plaintext_codec G o t payload b in
      let behind : pending d.frames ≡ rest =
        ap pending a.frames ∙ ap (drop (length F)) fed ∙ drop-append F rest in
      let size : length (pending s) ≡ length F + length rest =
        ap length fed ∙ length-append F rest in
      let some_ : 0 < length F = unfold frame_bytes in omega arith in
      let open_d : IsOpen d = record {
        state = a.state;
        any = ap (λ k. k.any_handler) a.handlers ∙ g.any;
        sound = rw a.frames (omega (arith, size));
      } in
      let (e, looped, r) =
        drain-Loops G o (length (pending s)) d open_d (rw behind (omega (arith, size, some_)))
          (rw behind on) (rw behind kept) in
      let first =
        drain_round G o (length (pending s)) (record c { frames = s }) (next_found s found_)
        ∙ round_ok plaintext_codec G o (drain_frames plaintext_codec G o (length (pending s))) t
            payload b (ap is_over a.state)
        ∙ looped in
      rw first (record {
        open_ = r.open_;
        heard_more =
            r.heard_more
            ∙ ap (λ x. x ++ messages_in G (splits (pending d.frames)).frames) a.heard_more
            ∙ append_assoc (heard c.log) (hello_response h ∷ [])
                (messages_in G (splits (pending d.frames)).frames)
            ∙ ap (λ q. heard c.log ++ (hello_response h ∷ messages_in G (splits q).frames)) behind;
        told = r.told ∙ a.succeeded;
        left = r.left ∙ ap (λ x. (splits x).rest) behind;
      })

  -- Reads of any sizes, of the welcome and what follows.
  pub run-Welcomed :
      (chunks : List (List ℕ)) (rest : List ℕ) (c : Session)
      → IsGreeting c
      → length (pending c.frames) < length F
      → pending c.frames ++ flatten chunks ≡ F ++ rest
      → (splits rest).ending ≡ waiting
      → Kept G (splits rest).frames
      → Welcomed c
          (run plaintext_codec G o (map bytes_read chunks) c)
          (splits rest).frames
          (splits rest).rest
  unfolding run flatten
  run-Welcomed [] rest c g short whole on kept = absurd (
      omega
        (arith, short, ap length whole, length-append (pending c.frames) [], length-append F rest))
  run-Welcomed (chunk ∷ chunks) rest c g short whole on kept =
      let q = pending c.frames ++ chunk in
      let more = flatten chunks in
      let cut : q ++ more ≡ F ++ rest = append_assoc (pending c.frames) chunk more ∙ whole in
      let d = step plaintext_codec G o (bytes_read chunk) c in
      elim (dec_lt (length q) (length F)) [
        | yes lt ↦
            let part : q ≡ take (length q) F =
              sym (take-append q more)
              ∙ ap (take (length q)) cut
              ∙ take-append_le (length q) F rest (omega arith) in
            let idle_ : parse q ≡ partial =
              ap parse part
              ∙ parse-take_frame (G.id_of (hello_response h)) (length q)
                  (G.serialize (hello_response h)) w.in_frame lt in
            let (g', left, same, asked) = step-waits chunk c g idle_ in
            let x = run-Welcomed chunks rest d g' (rw left lt) (rw left cut) on kept in
            record {
              open_ = x.open_;
              heard_more =
                  x.heard_more
                  ∙ ap (λ m. m ++ (hello_response h ∷ messages_in G (splits rest).frames)) same;
              told = x.told ∙ ap (λ m. m ++ (success ∷ [])) asked;
              left = x.left;
            }
        | no ge ↦
            let r = drop (length F) q in
            let (front, back) = later_cut q more F rest cut (omega arith) in
            let all : splits rest ≡ continue (splits r) more =
              ap splits back ∙ splits-append r more in
            elim (Ending-cases (splits r).ending (splits-ne-stuck r)) [
              | inr (x, stop) ↦ cc (rw (all, continue_stopped (splits r) more x stop) at on, stop)
              | inl go_on ↦
                  let both = all ∙ continue_waiting (splits r) more go_on in
                  let (now, later) =
                    All-append_parts (λ f. leaves_open G f ≡ true) (splits r).frames
                      (splits ((splits r).rest ++ more)).frames (rw both at kept) in
                  let x = step-Welcomed chunk r c g front go_on now in
                  let y =
                    run-Delivers G o chunks d x.open_ (rw x.left (splits_rest-idle r go_on))
                      (rw x.left (rw both at on)) (rw x.left later) in
                  rw both (then-Welcomed x (rw x.left at y))
            ]
      ]
