-- ===== src/Progress/Tests.antt =====
-- Evidence with a small arithmetic, in which every sum and distance is zero.
use project_progress_registe.Base.{none}
use project_progress_registe.Schema.{ReportedLocation, GeofenceSnapshot}
use project_progress_registe.Progress.Evidence.{Floats}

abbrev pub flat : Floats
flat = record {
  plus = λ a b. 0;
  minus = λ a b. 0;
  times = λ a b. 0;
  divided = λ a b. 0;
  sin = λ a. 0;
  cos = λ a. 0;
  sqrt = λ a. 0;
  atan2 = λ a b. 0;
}

abbrev here : ReportedLocation
here = record {
  latitude = 0;
  longitude = 0;
  accuracy_metres = 0x3ff0000000000000;
  browser_observed_at = none;
}

abbrev yard : GeofenceSnapshot
yard = record {
  id = 1;
  version = 1;
  latitude = 0;
  longitude = 0;
  radius_metres = 0x4059000000000000;
  max_accuracy_metres = 0x4034000000000000;
}
