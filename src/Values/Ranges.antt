-- ===== src/Values/Ranges.antt =====
-- Numbers outside the range of what the conversions return.
use easy_http.Bytes.{Bytes}
use easy_http.Outcome.{Outcome}
