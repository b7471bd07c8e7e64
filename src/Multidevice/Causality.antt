-- ===== src/Multidevice/Causality.antt =====
-- internal/core/multidevice/causality.go: vector clocks. Counters are `int64` in the source and only count
-- up from 0; here they are natural numbers, so an overflow at 2^63 is not modelled.
pub mod Order
pub mod Tests
use aps.Base.{
  ℕ, ◌+◌, String, Bool, true, false, ◌&&◌, Option, none, some, List, [], ◌∷◌, ◌++◌, Dict, lookup,
  insert, ltb, leb, nat_eq, if◌then◌else◌,
}

-- `VectorClock.Clocks`
abbrev pub VectorClock : Type 0
VectorClock = Dict ℕ

abbrev pub or_zero : Option ℕ → ℕ
or_zero none = 0
or_zero (some n) = n

-- `Get`, and a read `vc.Clocks[deviceID]`
unfoldable pub get : VectorClock → String → ℕ
get vc device_id = or_zero (lookup device_id vc)

-- `Set`
unfoldable pub set : VectorClock → String → ℕ → VectorClock
set vc device_id ts = insert device_id ts vc

-- `Increment`
unfoldable pub increment : VectorClock → String → VectorClock
unfolding get
increment vc device_id = insert device_id (get vc device_id + 1) vc

-- `Merge`: the loop over the other clock's entries.
unfoldable pub merge : VectorClock → VectorClock → VectorClock
merge vc [] = vc
merge vc (entry ∷ others) =
    merge (if ltb (get vc entry.0) entry.1 then insert entry.0 entry.1 vc else vc) others

pub data Relation : Type 0 where
  equal before after concurrent : Relation

-- The keys of both maps.
abbrev pub devices : VectorClock → List String
devices [] = []
devices (entry ∷ rest) = entry.0 ∷ devices rest

-- The three flags of `Compare`, after the loop over the devices.
pub record Flags : Type 0 where
  pub a_before_b : Bool
  pub b_before_a : Bool
  pub same : Bool

unfoldable pub scan : VectorClock → VectorClock → List String → Flags
scan a b [] = record { a_before_b = true; b_before_a = true; same = true }
scan a b (d ∷ ds) =
    let flags = scan a b ds in
    record {
      a_before_b = leb (get a d) (get b d) && flags.a_before_b;
      b_before_a = leb (get b d) (get a d) && flags.b_before_a;
      same = nat_eq (get a d) (get b d) && flags.same;
    }

abbrev verdict : Flags → Relation
verdict flags =
    if flags.same
    then equal
    else if flags.a_before_b
    then before
    else if flags.b_before_a
    then after
    else concurrent

-- `Compare` on two clocks that are not nil. The order in which the loop takes the devices, and a device
-- that both clocks hold, make no difference to the flags.
unfoldable pub compare_clocks : VectorClock → VectorClock → Relation
unfolding scan
compare_clocks a b = verdict (scan a b (devices a ++ devices b))
