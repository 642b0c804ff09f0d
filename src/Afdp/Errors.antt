-- ===== src/Afdp/Errors.antt =====
-- The error values of internal/afdp/protocol_control.go. `transient` carries the text that wraps
-- ErrTransient; `failure` is an error made by errors.New alone.
use asterferry.Base.{String}

pub data Error : Type 0 where
  invalid_version malformed_frame frame_too_large unauthorized_agent : Error
  protocol_violation unauthorized_open : Error → Error
  transient failure : String → Error
