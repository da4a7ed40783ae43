-- ===== src/Progress/Trust.antt =====
-- When an attachment is verified.
use project_progress_registe.Base.{◌≡◌, false, Option, some}
use project_progress_registe.Text.{Text}
use project_progress_registe.Double.{is_less}
use project_progress_registe.Schema.{ReportedLocation, GeofenceSnapshot}
use project_progress_registe.Progress.Evidence.{Floats, distance_to}

-- The location is reported well enough, and its circle of uncertainty is inside the geofence.
pub record IsInside (f : Floats) (location : Option ReportedLocation)
    (fence : Option GeofenceSnapshot) : Type 0 where
  pub reported : ReportedLocation
  pub current : GeofenceSnapshot
  pub supplied : location ≡ some reported
  pub fenced : fence ≡ some current
  pub precise : is_less current.max_accuracy_metres reported.accuracy_metres ≡ false
  pub inside :
      is_less current.radius_metres
        (f.plus (distance_to f current reported) reported.accuracy_metres)
      ≡ false
