-- ===== src/Plaintext/Helper.antt =====
-- The plaintext codec as the connection sees it: the overrides of `FrameHelper`, with the defaults of
-- the handshake hooks.
use cpp_esphome_api.Base.{
  ℕ, ◌<◌, ◌≡◌, refl, ap, ◌∙◌, ◌⊎◌, inl, inr, false, List, [], arith, length, take, length-take,
  length-append,
}
use cpp_esphome_api.Errors.{Exception}
use cpp_esphome_api.Frame.{FrameStatus, ok, need_more, throws, status, FrameHelper}
use cpp_esphome_api.Plaintext.{PlaintextFrameHelper, encode, feed, next}
use cpp_esphome_api.Plaintext.Stream.{pending, Consumes, next-Consumes}

-- Every call of `next` that delivers a frame takes bytes off the front.
answer_shrinks :
    (p : List ℕ) (h : PlaintextFrameHelper) (st : FrameStatus)
    → Consumes p (h, st)
    → (status st ≡ status need_more)
      ⊎ ((e : Exception) × (status st ≡ status (throws e)))
      ⊎ (length (pending h) < length p)
answer_shrinks p h (ok t payload) (l, e) =
    let whole = ap length e ∙ length-append (take h.consumed p) (pending h) in
    let front = length-take h.consumed p l.within in
    let some_bytes = l.header in inr (inr (omega arith))
answer_shrinks p h need_more e = inl refl
answer_shrinks p h (throws x) e = inr (inl (x, refl))

pub instance_size :
    (h : PlaintextFrameHelper)
    → (status (next h).1 ≡ status need_more)
      ⊎ ((e : Exception) × (status (next h).1 ≡ status (throws e)))
      ⊎ (length (pending (next h).0) < length (pending h))
instance_size h = answer_shrinks (pending h) (next h).0 (next h).1 (next-Consumes h).0

abbrev pub plaintext_codec : FrameHelper
plaintext_codec = record {
  State = PlaintextFrameHelper;
  encode = λ t payload h. (h, encode t payload []);
  feed = feed;
  round = λ h. ((next h).0, status (next h).1);
  needs_handshake = false;
  connect_bytes = λ h. (h, []);
  size = λ h. length (pending h);
  size-encode = λ t payload h. refl;
  size-round = instance_size;
  handshake_only = λ e h. ((next h).1, refl);
}
