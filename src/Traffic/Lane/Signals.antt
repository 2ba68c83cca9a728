-- ===== src/Traffic/Lane/Signals.antt =====
-- `pthread_cond_signal`: whom it wakes, and that this thread has something left to do.
use csc369_operating_systems.Base.{◌≡◌, ◌≢◌, refl, List, [], ◌⊎◌, inl, inr}
use csc369_operating_systems.Traffic.Lane.{
  signal, looping, waiting, woken, passing, returned, Place, Car, Monitor,
}
use csc369_operating_systems.Traffic.Lane.Order.{IsOrdered}

pub signal_waits : (p : Place) → signal p ≢ waiting
unfolding signal
signal_waits looping e = cc
signal_waits waiting e = cc
signal_waits woken e = cc
signal_waits passing e = cc
signal_waits returned e = cc

signal_wakes : (p : Place) → signal p ≡ woken → (p ≡ waiting) ⊎ (p ≡ woken)
unfolding signal
signal_wakes looping e = cc
signal_wakes waiting e = inl refl
signal_wakes woken e = inr refl
signal_wakes passing e = cc
signal_wakes returned e = cc

pub signal_returned : (p : Place) → signal p ≡ returned → p ≡ returned
unfolding signal
signal_returned looping e = cc
signal_returned waiting e = cc
signal_returned woken e = cc
signal_returned passing e = cc
signal_returned returned e = refl

pub signal_passing : (p : Place) → signal p ≡ passing → p ≡ passing
unfolding signal
signal_passing looping e = cc
signal_passing waiting e = cc
signal_passing woken e = cc
signal_passing passing e = refl
signal_passing returned e = cc

-- A thread that is woken, or was awake, has something left to do.
pub arrive_signalled :
    (start : List Car) (m : Monitor)
    → IsOrdered start m
    → signal m.arriving ≡ woken
    → m.lane.in_cars ≢ []
arrive_signalled start m v e = elim (signal_wakes m.arriving e) [
  | inl p ↦ (v.arrive_waiting p).0
  | inr p ↦ v.arrive_woken p
]

pub cross_signalled :
    (start : List Car) (m : Monitor)
    → IsOrdered start m
    → signal m.crossing ≡ woken
    → m.lane.inc ≢ 0
cross_signalled start m v e = elim (signal_wakes m.crossing e) [
  | inl p ↦ (v.cross_waiting p).0
  | inr p ↦ v.cross_woken p
]
