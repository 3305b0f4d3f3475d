-- ===== src/Tests/Names.antt =====
-- Link types and service names at concrete inputs.
use netprobe_cpp.Base.{◌≡◌, refl, true, codes, to_lower, text_eq}
use netprobe_cpp.Protocol.Service.{identify_service, contains, starts_with, first_match}
use netprobe_cpp.Protocol.Service.Catalog.{catalog}
use netprobe_cpp.Protocol.Service.Order.{
  labels_until, is_one_of, is_covered, identify_service_until,
}

-- A host of Xbox is given the label of the earlier needle `x.com`.
identify_service_xbox : identify_service (codes "www.xbox.com") ≡ codes "X (Twitter)"
unfolding identify_service first_match contains starts_with catalog codes to_lower text_eq
identify_service_xbox = refl

identify_service_until_example :
    is_one_of (identify_service (codes "Meet.Google.com")) (labels_until (codes "google.") catalog)
    ≡ true
unfolding is_covered contains starts_with catalog codes to_lower text_eq
identify_service_until_example =
    identify_service_until (codes "google.") (codes "Meet.Google.com") refl refl
