-- ===== src/Reservations/History.antt =====
-- reservations.py: histories of operations as a step relation on the stored data.
use clab_manager.Prelude.{ℕ, Option, List, Text}
use clab_manager.Prelude.Int.{ℤ}
use clab_manager.Reservations.Data.{Stamp, Reservations}
use clab_manager.Reservations.Queries.{
  get_reservation, list_scheduled_reservations, cancel_scheduled_reservation, release_lab,
  attach_reservations,
}
use clab_manager.Reservations.Booking.{Request, after, reserve_lab, update_scheduled_reservation}
use clab_manager.Reservations.Exclusive.{IsExclusive, reserve_lab-IsExclusive}
use clab_manager.Reservations.Exclusive.Moves.{
  get_reservation-IsExclusive, list_scheduled-IsExclusive, cancel-IsExclusive, release-IsExclusive,
  update-IsExclusive, attach-IsExclusive,
}

-- One call of an operation other than `extend_reservation`, at the time `now`, whatever its arguments.
pub data Step : Reservations → Reservations → Type 0 where
  reserves :
      {d : Reservations} (r : Request) (id : Text) (now : ℕ)
      → Step d (after d (reserve_lab r id now d))
  moves :
      {d : Reservations} (fresh : ℕ → Text) (now : ℕ) (vm_id lab_name reservation_id : Text)
      (starts_at : Option Stamp) (duration_hours : Option ℤ)
      → Step d (
          after d (
            update_scheduled_reservation fresh now d vm_id lab_name reservation_id starts_at
              duration_hours))
  cancels :
      {d : Reservations} (fresh : ℕ → Text) (now : ℕ) (vm_id lab_name reservation_id : Text)
      → Step d (after d (cancel_scheduled_reservation fresh now d vm_id lab_name reservation_id))
  releases :
      {d : Reservations} (now : ℕ) (vm_id lab_name : Text)
      → Step d (after d (release_lab now d vm_id lab_name))
  reads :
      {d : Reservations} (fresh : ℕ → Text) (now : ℕ) (vm_id lab_name : Text)
      → Step d (after d (get_reservation fresh now d vm_id lab_name))
  lists :
      {d : Reservations} (fresh : ℕ → Text) (now : ℕ) (vm_id lab_name : Text)
      → Step d (after d (list_scheduled_reservations fresh now d vm_id lab_name))
  attaches :
      {d : Reservations} (now : ℕ) (items : List (Text × List Text))
      → Step d (after d (attach_reservations now d items))

-- A history of calls.
pub data History : Reservations → Reservations → Type 0 where
  empty : {d : Reservations} → History d d
  next : {d e f : Reservations} → Step d e → History e f → History d f

Step-IsExclusive : {d e : Reservations} → Step d e → IsExclusive d → IsExclusive e
Step-IsExclusive {d} (Step.reserves r id now) h = reserve_lab-IsExclusive r id now d h
Step-IsExclusive {d} (Step.moves fresh now v l i s k) h = update-IsExclusive fresh now d v l i s k h
Step-IsExclusive {d} (Step.cancels fresh now v l i) h = cancel-IsExclusive fresh now d v l i h
Step-IsExclusive {d} (Step.releases now v l) h = release-IsExclusive now d v l h
Step-IsExclusive {d} (Step.reads fresh now v l) h = get_reservation-IsExclusive fresh now d h v l
Step-IsExclusive {d} (Step.lists fresh now v l) h = list_scheduled-IsExclusive fresh now d h v l
Step-IsExclusive {d} (Step.attaches now items) h = attach-IsExclusive now d items h

-- Where under every key any two bookings have one owner or share no time, it is so after every
-- history of bookings, moves, cancellations, releases, readings and listings, whatever each asks
-- for and whether it succeeds; extensions are left out.
pub History-IsExclusive : {d e : Reservations} → History d e → IsExclusive d → IsExclusive e
History-IsExclusive History.empty h = h
History-IsExclusive (History.next s rest) h = History-IsExclusive rest (Step-IsExclusive s h)
