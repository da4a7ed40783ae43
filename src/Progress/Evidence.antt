-- ===== src/Progress/Evidence.antt =====
-- internal/progress/evidence.go. The arithmetic of doubles and the functions of `math` are parameters.
use project_progress_registe.Base.{Bool, true, false, not, Option, none, some, if◌then◌else◌}
use project_progress_registe.Text.{Text}
use project_progress_registe.Schema.{
  Double, ReportedLocation, GeofenceSnapshot, Evidence, LocationStatus, not_supplied,
  unverified_unavailable, unverified_no_geofence, unverified_accuracy, unverified_outside, verified,
  Verification, verified_media, not_media, not_camera, location_not_verified, MediaKind, image,
  video, Source, camera, upload,
}
use project_progress_registe.Double.{is_less}

pub record Floats : Type 0 where
  pub plus : Double → Double → Double
  pub minus : Double → Double → Double
  pub times : Double → Double → Double
  pub divided : Double → Double → Double
  pub sin : Double → Double
  pub cos : Double → Double
  pub sqrt : Double → Double
  pub atan2 : Double → Double → Double

-- `math.Pi`, 180, 2, 1 and 6371008.8.
abbrev pi : Double
pi = 0x400921fb54442d18

abbrev degrees_of_half_turn : Double
degrees_of_half_turn = 0x4066800000000000

abbrev two : Double
two = 0x4000000000000000

abbrev one : Double
one = 0x3ff0000000000000

abbrev pub earth_radius_metres : Double
earth_radius_metres = 0x41584db033333333

abbrev pub is_camera_media : MediaKind → Bool
is_camera_media image = true
is_camera_media video = true
is_camera_media _ = false

abbrev pub is_camera : Source → Bool
is_camera camera = true
is_camera upload = false

abbrev pub is_verified : LocationStatus → Bool
is_verified verified = true
is_verified _ = false

unfoldable pub attachment_verification : MediaKind → Source → LocationStatus → Verification
attachment_verification kind source status =
    if not (is_camera_media kind)
    then not_media
    else if not (is_camera source)
    then not_camera
    else if not (is_verified status)
    then location_not_verified status
    else verified_media

module _ (f : Floats) where
  abbrev pub to_radians : Double → Double
  to_radians value = f.divided (f.times value pi) degrees_of_half_turn

  unfoldable pub haversine_metres : Double → Double → Double → Double → Double
  haversine_metres latitude_a longitude_a latitude_b longitude_b =
      let lat_a = to_radians latitude_a in
      let lat_b = to_radians latitude_b in
      let delta_lat = to_radians (f.minus latitude_b latitude_a) in
      let delta_lon = to_radians (f.minus longitude_b longitude_a) in
      let sin_lat = f.sin (f.divided delta_lat two) in
      let sin_lon = f.sin (f.divided delta_lon two) in
      let a =
        f.plus (f.times sin_lat sin_lat)
          (f.times (f.times (f.times (f.cos lat_a) (f.cos lat_b)) sin_lon) sin_lon) in
      f.times (f.times earth_radius_metres two) (f.atan2 (f.sqrt a) (f.sqrt (f.minus one a)))

  abbrev pub distance_to : GeofenceSnapshot → ReportedLocation → Double
  distance_to fence location =
      haversine_metres location.latitude location.longitude fence.latitude fence.longitude

  -- The status once a location and a geofence are there.
  unfoldable pub judge : GeofenceSnapshot → ReportedLocation → LocationStatus
  unfolding is_less
  judge fence location =
      if is_less fence.max_accuracy_metres location.accuracy_metres
      then unverified_accuracy
      else if is_less fence.radius_metres
          (f.plus (distance_to fence location) location.accuracy_metres)
      then unverified_outside
      else verified

  unfoldable pub evaluate_evidence :
      Option ReportedLocation → Option Text → Option GeofenceSnapshot → Evidence
  unfolding judge
  evaluate_evidence none none fence = record {
    location_status = not_supplied;
    reported_location = none;
    location_unavailable_reason = none;
    geofence = none;
    computed_distance_metres = none;
  }
  evaluate_evidence none (some reason) fence = record {
    location_status = unverified_unavailable;
    reported_location = none;
    location_unavailable_reason = some reason;
    geofence = none;
    computed_distance_metres = none;
  }
  evaluate_evidence (some location) reason none = record {
    location_status = unverified_no_geofence;
    reported_location = some location;
    location_unavailable_reason = none;
    geofence = none;
    computed_distance_metres = none;
  }
  evaluate_evidence (some location) reason (some fence) = record {
    location_status = judge fence location;
    reported_location = some location;
    location_unavailable_reason = none;
    geofence = some fence;
    computed_distance_metres = some (distance_to fence location);
  }
