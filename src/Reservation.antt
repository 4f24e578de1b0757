-- ===== src/Reservation.antt =====
-- src/lib/reservation/ResourceReservationManager.ts. Ids are numbers; the random id of a new
-- reservation is an argument, and so is the time. The overcommit ratio is a fraction. A node has less than
-- nothing left where more is reserved than it has, which the code's comparisons with a request then
-- refuse: `fits` writes that out, since numbers are natural. Callbacks and logging are left out.
pub mod Node
pub mod Manager
pub mod Bounds
pub mod Requests
pub mod Run
pub mod Cancellation
mod Examples
