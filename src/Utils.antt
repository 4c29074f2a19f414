-- ===== src/Utils.antt =====
-- src/utils.cpp: `open_file`, and `str2time`, which nothing calls.
pub mod Files
use easy_http.Prelude.{if◌then◌else◌}
use easy_http.Prelude.Int.{ℤ, pos, negsuc, ltb_ℤ}
use easy_http.Bytes.{Bytes, c_str}
use easy_http.World.{World, M, ◌>>=◌, ◌>>◌, pure, ask, emit, call_int}
use easy_http.World.Calls.{open_read, fstat, close}
use easy_http.World.External.{Platform}

module _ (pf : Platform) where
  -- The descriptor and `size`, which stays 0 where the source does not set it.
  unfoldable pub open_file : Bytes → M (ℤ × ℤ)
  open_file path = do
    fd ← call_int pf (open_read (c_str path))
    if ltb_ℤ fd (pos 0) then pure (fd, pos 0) else do
      r ← call_int pf (fstat fd)
      if ltb_ℤ r (pos 0)
          then emit (close fd) >> pure (negsuc 0, pos 0)
          else do size ← ask (λ h. pf.file_size h fd); pure (fd, size)

-- `struct tm`
pub record Tm : Type 0 where
  pub sec : ℤ
  pub min : ℤ
  pub hour : ℤ
  pub mday : ℤ
  pub mon : ℤ
  pub year : ℤ
  pub wday : ℤ
  pub yday : ℤ
  pub isdst : ℤ

-- What the C++ library does with times: std::get_time(tm, format) on a stream of a text, which sets
-- the members that the format names, and mktime, which reads all but `wday` and `yday`.
pub record Calendar : Type 0 where
  pub get_time : Bytes → Bytes → Tm → Tm
  pub mktime : Tm → ℤ

-- `date_tm` is not initialised: what it holds before get_time is an argument here.
unfoldable pub str2time : Calendar → Tm → Bytes → Bytes → ℤ
str2time calendar date_tm date_str date_format =
    calendar.mktime (calendar.get_time date_str (c_str date_format) date_tm)
