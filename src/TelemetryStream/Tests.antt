-- ===== src/TelemetryStream/Tests.antt =====
-- Telemetry streams of two devices, TelemetryStream.cpp.
use wlan_cloud_ucentralgw.Base.{◌≡◌, true, some, List, [], ◌∷◌}
use wlan_cloud_ucentralgw.Base.Table.{same}
use wlan_cloud_ucentralgw.TelemetryStream.{is_valid_end_point}
use wlan_cloud_ucentralgw.TelemetryStream.Subscribed.{
  Call, creates, joins, tells, leaves, run, streams_step, streams_run, no_streams,
  run-is_valid_end_point,
}

-- The UUID 7 is created and joins for device 1, 8 for device 2; then 7 leaves.
abbrev calls : List Call
calls =
    creates 1 (7 ∷ [])
    ∷ joins 1 (7 ∷ []) (some 3)
    ∷ creates 2 (8 ∷ [])
    ∷ tells 1 []
    ∷ leaves (7 ∷ [])
    ∷ []

run-is_valid_end_point_example : is_valid_end_point 2 (8 ∷ []) (run calls no_streams) ≡ true
unfolding streams_run streams_step same
run-is_valid_end_point_example = run-is_valid_end_point calls 2 (8 ∷ [])
