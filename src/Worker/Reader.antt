-- ===== src/Worker/Reader.antt =====
-- What one pass of a consumer's reading loop meets.
use ticketer.Base.{String, Bool}

-- The context has ended before the read; the read gives a message; or it fails, with the context
-- ended or not. kafka-go commits the offset of a message as it is read.
pub data Read : Type 0 where
  cancelled : Read
  message : String → Read
  failed : Bool → Read
