-- ===== src/RateLimiter/Tests.antt =====
-- The rate limiter of framework/RESTAPI_RateLimiter.h at a concrete run.
use wlan_cloud_ucentralgw.Base.{some}
use wlan_cloud_ucentralgw.RateLimiter.{Kept}

abbrev keeps : Kept
keeps e = some e
