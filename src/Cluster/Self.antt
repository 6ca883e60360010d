-- ===== src/Cluster/Self.antt =====
-- What the controllers ask of the API for the `Cryostat` object itself: its status, and events about
-- it. Events are sent without an answer.
use cryostat_operator.Prelude.{◌≡◌, String}
use cryostat_operator.Cluster.Monad.{ok, M}

pub record Event : Type 0 where
  pub reason : String
  pub message : String

pub record Self (S : Type 0) (Status : Type 0) : Type 0 where
  -- The status that the API server holds.
  pub read_status : S → Status
  -- `Status().Update`
  pub update_status : Status → M S (Unit {0})
  -- `EventRecorder.Event`, for a warning.
  pub warn : Event → S → S

pub record IsSelf {S : Type 0} {Status : Type 0} (C : Self S Status) : Type 0 where
  pub update_status_ok :
      (st : Status) (s : S)
      → (C.update_status st s).0 ≡ ok tt
      → C.read_status (C.update_status st s).1 ≡ st
  pub warn_status : (e : Event) (s : S) → C.read_status (C.warn e s) ≡ C.read_status s

-- Neither the status nor the events are part of what is read of `view`.
pub record IsBeside {S Status X : Type 0} (view : S → X) (C : Self S Status) : Type 0 where
  pub status_keeps : (st : Status) (s : S) → view (C.update_status st s).1 ≡ view s
  pub warn_keeps : (e : Event) (s : S) → view (C.warn e s) ≡ view s
