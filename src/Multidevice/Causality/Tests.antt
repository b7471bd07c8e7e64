-- ===== src/Multidevice/Causality/Tests.antt =====
-- internal/core/multidevice/causality.go: the theorems at clocks of two devices.
use aps.Base.{◌≡◌, refl, [], ◌∷◌, lookup}
use aps.Multidevice.Causality.{
  VectorClock, get, increment, merge, before, concurrent, compare_clocks,
}
use aps.Multidevice.Causality.Order.{
  Below, Means, compare_clocks-Means, compare-increment, merge_least,
}

abbrev phone : VectorClock
phone = ("phone", 2) ∷ ("desk", 1) ∷ []

abbrev desk : VectorClock
desk = ("desk", 3) ∷ []

apart : compare_clocks phone desk ≡ concurrent
unfolding compare_clocks get lookup
apart = refl

compare_clocks-Means_example : Means (compare_clocks phone desk) phone desk
compare_clocks-Means_example = compare_clocks-Means phone desk

compare-increment_at : compare_clocks phone (increment phone "desk") ≡ before
compare-increment_at = compare-increment phone "desk"

merge_least_example :
    Below phone (merge phone desk)
    × Below desk (merge phone desk)
    × ((c : VectorClock) → Below phone c → Below desk c → Below (merge phone desk) c)
merge_least_example = merge_least phone desk (refl, tt)
