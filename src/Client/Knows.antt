-- ===== src/Client/Knows.antt =====
-- What the messages that a client takes in leave it with.
use cpp_esphome_api.Base.{
  ℕ, ◌≡◌, refl, sym, ap, ◌∙◌, inl, inr, Bool, Option, none, some, List, [], ◌∷◌, ◌++◌, append-nil,
  append_assoc, arith, ◌==◌, if◌then◌else◌, Bool-cases,
}
use mathlib.Core.List.{map, map-append}
use cpp_esphome_api.Entities.Classes
use cpp_esphome_api.Connection.State.{ProtoMessage, Messages}
use cpp_esphome_api.EntityType.{EntityType}
use cpp_esphome_api.EntityStore.{EntityStore, ingest}
use cpp_esphome_api.EntityStore.Latest.{Seen, view, about, see_all, find-run}
use cpp_esphome_api.EntityStore.Latest
use cpp_esphome_api.DeviceInfo.{DeviceInfo, from_proto}
use cpp_esphome_api.Client.{
  Casts, device_info_response, Client, call_all, take_in, learn, fan_out, deliver,
}

-- A call of every handler for every message, message by message.
unfoldable pub calls_of : List ℕ → List ProtoMessage → List (ℕ × ProtoMessage)
calls_of hs [] = []
calls_of hs (msg ∷ msgs) = map (λ h. (h, msg)) hs ++ calls_of hs msgs

-- The last description among some messages.
unfoldable pub last_info : Messages → Casts → List ProtoMessage → Option DeviceInfo
last_info G V [] = none
last_info G V (msg ∷ msgs) = elim (last_info G V msgs) [
  | some info ↦ some info
  | none ↦
      if G.id_of msg == device_info_response then some (from_proto (V.to_device_info msg)) else none
]

abbrev pub or_else : {A : Type 0} → Option A → Option A → Option A
or_else (some x) y = some x
or_else none y = y

calls_of-append :
    (hs : List ℕ) (ms ns : List ProtoMessage)
    → calls_of hs (ms ++ ns) ≡ calls_of hs ms ++ calls_of hs ns
unfolding calls_of
calls_of-append hs [] ns = refl
calls_of-append hs (m ∷ ms) ns = simp (calls_of-append hs ms ns, append_assoc)

run-append :
    (ms ns : List Classes.ProtoMessage) (s : EntityStore)
    → Latest.run (ms ++ ns) s ≡ Latest.run ns (Latest.run ms s)
unfolding Latest.run
run-append [] ns s = refl
run-append (m ∷ ms) ns s = run-append ms ns (ingest m s).0

module _ (G : Messages) (V : Casts) where
  last_info-append :
      (ms ns : List ProtoMessage) (k : Option DeviceInfo)
      → or_else (last_info G V (ms ++ ns)) k
        ≡ or_else (last_info G V ns) (or_else (last_info G V ms) k)
  unfolding last_info
  last_info-append [] ns k = refl
  last_info-append (m ∷ ms) ns k =
      ground (arith, last_info-append ms ns none, last_info-append ms ns k)

module _ {S : Type 0} where
  -- What the client answers of the device.
  unfoldable pub known : Client S → Option DeviceInfo
  known c = if c.device_info_loaded then some c.device_info else none

  -- What a client knows, against what it knew before some messages.
  pub record Knows (G : Messages) (V : Casts) (c d : Client S) (msgs : List ProtoMessage)
      : Type 0 where
    pub store : d.store ≡ Latest.run (map V.to_entity msgs) c.store
    pub handlers : d.any_handlers ≡ c.any_handlers
    pub calls : d.calls ≡ c.calls ++ calls_of c.any_handlers msgs
    pub info : known d ≡ or_else (last_info G V msgs) (known c)

  pub then-Knows :
      (G : Messages) (V : Casts) (c d e : Client S) (ms ns : List ProtoMessage)
      → Knows G V c d ms
      → Knows G V d e ns
      → Knows G V c e (ms ++ ns)
  then-Knows G V c d e ms ns a b = record {
    store =
        b.store
        ∙ ap (Latest.run (map V.to_entity ns)) a.store
        ∙ sym (run-append (map V.to_entity ms) (map V.to_entity ns) c.store)
        ∙ ap (λ x. Latest.run x c.store) (sym (map-append V.to_entity ms ns));
    handlers = b.handlers ∙ a.handlers;
    calls =
        b.calls
        ∙ ap (λ x. x ++ calls_of d.any_handlers ns) a.calls
        ∙ append_assoc c.calls (calls_of c.any_handlers ms) (calls_of d.any_handlers ns)
        ∙ ap (λ hs. c.calls ++ (calls_of c.any_handlers ms ++ calls_of hs ns)) a.handlers
        ∙ ap (λ x. c.calls ++ x) (sym (calls_of-append c.any_handlers ms ns));
    info =
        b.info
        ∙ ap (or_else (last_info G V ns)) a.info
        ∙ sym (last_info-append G V ms ns (known c));
  }

  calls-call_all :
      (msg : ProtoMessage) (hs : List ℕ) (c : Client S)
      → call_all msg hs c ≡ record c { calls = c.calls ++ map (λ h. (h, msg)) hs }
  unfolding call_all
  calls-call_all msg [] c = rw append-nil refl
  calls-call_all msg (h ∷ hs) c =
      calls-call_all msg hs (record c { calls = c.calls ++ ((h, msg) ∷ []) }) ∙ rw append_assoc refl

  learn_kept :
      (G : Messages) (V : Casts) (msg : ProtoMessage) (c : Client S)
      → ((learn G V msg c).connection ≡ c.connection)
        × ((learn G V msg c).store ≡ c.store)
        × ((learn G V msg c).any_handlers ≡ c.any_handlers)
        × ((learn G V msg c).calls ≡ c.calls)
        × (known (learn G V msg c) ≡ or_else (last_info G V (msg ∷ [])) (known c))
  unfolding learn known last_info
  learn_kept G V msg c = elim (Bool-cases (G.id_of msg == device_info_response)) [
    | inl e ↦ rw e (refl, refl, refl, refl, refl)
    | inr e ↦ rw e (refl, refl, refl, refl, refl)
  ]

  take_in_kept :
      (x : EntityStore × Bool × Option (EntityType × ℕ)) (c : Client S)
      → ((take_in x c).connection ≡ c.connection)
        × ((take_in x c).store ≡ x.0)
        × ((take_in x c).any_handlers ≡ c.any_handlers)
        × ((take_in x c).calls ≡ c.calls)
        × (known (take_in x c) ≡ known c)
  unfolding take_in known
  take_in_kept (s, k, none) c = (refl, refl, refl, refl, refl)
  take_in_kept (s, k, some x) c = (refl, refl, refl, refl, refl)

  fan_out-Knows :
      (G : Messages) (V : Casts) (msg : ProtoMessage) (c : Client S)
      → Knows G V c (fan_out G V msg c) (msg ∷ []) × ((fan_out G V msg c).connection ≡ c.connection)
  unfolding fan_out Latest.run calls_of
  fan_out-Knows G V msg c =
      let t = take_in (ingest (V.to_entity msg) c.store) c in
      let (conn, store, hs, calls, info) = take_in_kept (ingest (V.to_entity msg) c.store) c in
      let (conn', store', hs', calls', info') = learn_kept G V msg t in
      let d = learn G V msg t in
      let same : d.any_handlers ≡ c.any_handlers = hs' ∙ hs in
      rw (calls-call_all msg d.any_handlers d) (
        record {
          store = store' ∙ store;
          handlers = same;
          calls =
              ap (λ x. x ++ map (λ h. (h, msg)) d.any_handlers) (calls' ∙ calls)
              ∙ ap (λ hs. c.calls ++ map (λ h. (h, msg)) hs) same
              ∙ ap (λ x. c.calls ++ x) (sym (append-nil (map (λ h. (h, msg)) c.any_handlers)));
          info = unfold known in (info' ∙ ap (or_else (last_info G V (msg ∷ []))) info);
        },
        conn' ∙ conn,
      )

  -- The messages delivered, in their order.
  pub deliver-Knows :
      (G : Messages) (V : Casts) (msgs : List ProtoMessage) (c : Client S)
      → Knows G V c (deliver G V msgs c) msgs × ((deliver G V msgs c).connection ≡ c.connection)
  unfolding deliver Latest.run calls_of last_info
  deliver-Knows G V [] c = (
    record { store = refl; handlers = refl; calls = sym (append-nil c.calls); info = refl },
    refl,
  )
  deliver-Knows G V (msg ∷ msgs) c =
      let d = fan_out G V msg c in
      let (a, conn) = fan_out-Knows G V msg c in
      let (b, conn') = deliver-Knows G V msgs d in
      (then-Knows G V c d (deliver G V msgs d) (msg ∷ []) msgs a b, conn' ∙ conn)
