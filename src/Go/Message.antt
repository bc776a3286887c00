-- ===== src/Go/Message.antt =====
-- `%v` on an error: its text. An error that wraps a sentinel is made by `"%w: text"`, any other by
-- `"text: %w"`.
use Prim.Native.String
use io_t_fleet_management.Prelude.{String}
use io_t_fleet_management.Go.Outcome.{
  Error, plain, sentinel, external, wrap, restated, Sentinel, invalid_event, invalid_topic,
  invalid_envelope, invalid_payload,
}

abbrev pub sentinel_text : Sentinel → String
sentinel_text invalid_event = "invalid event"
sentinel_text invalid_topic = "invalid topic"
sentinel_text invalid_envelope = "invalid envelope"
sentinel_text invalid_payload = "invalid payload"

unfoldable pub message : Error → String
message (plain text) = text
message (sentinel s) = sentinel_text s
message (external text) = text
message (wrap text (sentinel s)) = String.◌++◌ (sentinel_text s) (String.◌++◌ ": " text)
message (wrap text cause) = String.◌++◌ text (String.◌++◌ ": " (message cause))
message (restated text cause) = String.◌++◌ text (String.◌++◌ ": " (message cause))
