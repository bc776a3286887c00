-- ===== src/Ingestion/Logging.antt =====
-- backend/internal/ingestion/handler.go: `logValidationError`, what is logged for an event that is
-- rejected.
use io_t_fleet_management.Prelude.{String, if◌then◌else◌, ◌||◌, Option, some, none}
use io_t_fleet_management.Go.Outcome.{
  Error, Sentinel, is, invalid_event, invalid_topic, invalid_envelope, invalid_payload,
}

pub data Level : Type 0 where
  warn error : Level

-- A call of the logger, less the text of the error, which every line has. `device_id` is there where
-- the call gives it.
pub record LogLine : Type 0 where
  pub level : Level
  pub message : String
  pub device_id : Option String
  pub cause : Error

unfoldable pub log_validation_error : Error → String → LogLine
log_validation_error e device_id =
    if is e invalid_event || is e invalid_envelope
    then record { level = warn; message = "invalid message envelope"; device_id = none; cause = e }
    else if is e invalid_payload
    then record { level = warn; message = "invalid payload"; device_id = some device_id; cause = e }
    else if is e invalid_topic
    then record { level = warn; message = "invalid topic"; device_id = none; cause = e }
    else record {
      level = error;
      message = "unexpected validation error";
      device_id = none;
      cause = e;
    }

-- The line for each sentinel.
abbrev pub line_for : Sentinel → Error → String → LogLine
line_for invalid_payload e device_id = record {
  level = warn;
  message = "invalid payload";
  device_id = some device_id;
  cause = e;
}
line_for invalid_topic e device_id = record {
  level = warn;
  message = "invalid topic";
  device_id = none;
  cause = e;
}
line_for _ e device_id = record {
  level = warn;
  message = "invalid message envelope";
  device_id = none;
  cause = e;
}
