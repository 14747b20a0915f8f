-- ===== src/Connection/Delivery/Log.antt =====
-- What the log of a connection says of the calls of its user's handlers.
use cpp_esphome_api.Base.{List, [], ◌∷◌, ◌++◌}
use cpp_esphome_api.Connection.State.{
  ErrorCode, ProtoMessage, Event, state_changed, connect_done, error_reported, raw_frame,
  dispatched, dispatched_any, connect_requested, read_started, written, transport_closed,
}

-- The messages that the handler of `on_any` was called with, the first one first.
unfoldable pub heard : List Event → List ProtoMessage
heard [] = []
heard (dispatched_any msg ∷ log) = heard log ++ (msg ∷ [])
heard (state_changed s ∷ log) = heard log
heard (connect_done ec ∷ log) = heard log
heard (error_reported ec w ∷ log) = heard log
heard (raw_frame t payload ∷ log) = heard log
heard (dispatched t msg ∷ log) = heard log
heard (connect_requested ∷ log) = heard log
heard (read_started ∷ log) = heard log
heard (written bs ∷ log) = heard log
heard (transport_closed ∷ log) = heard log

-- The codes that the connect handler was called with, the first one first.
unfoldable pub outcomes : List Event → List ErrorCode
outcomes [] = []
outcomes (connect_done ec ∷ log) = outcomes log ++ (ec ∷ [])
outcomes (state_changed s ∷ log) = outcomes log
outcomes (error_reported ec w ∷ log) = outcomes log
outcomes (raw_frame t payload ∷ log) = outcomes log
outcomes (dispatched t msg ∷ log) = outcomes log
outcomes (dispatched_any msg ∷ log) = outcomes log
outcomes (connect_requested ∷ log) = outcomes log
outcomes (read_started ∷ log) = outcomes log
outcomes (written bs ∷ log) = outcomes log
outcomes (transport_closed ∷ log) = outcomes log
