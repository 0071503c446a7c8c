-- ===== src/Retry.antt =====
-- internal/retry/retry.go: an operation that is retried at an interval. The state of the world has
-- the operation's own state, the clock and the context. A channel of the context or of the ticker is
-- seen by what a select finds in it.
pub mod Deadlines
use contrast.Prelude.{Bool, true, false, Option, none, some, ℕ, zero, suc}

pub record World (W E : Type 0) : Type 0 where
  -- One call of the Doer: an error, or none.
  pub do_once : W → Option E × W
  -- Whether the context has expired.
  pub is_done : W → Bool
  -- The select that waits: true if it was left because the context has expired.
  pub wait : W → Bool × W
  -- IntervalRetrier.retriable
  pub retriable : E → Bool

-- nil; an error that is not retriable; a context that expired, with the last error.
pub data Outcome (E : Type 0) : Type 0 where
  succeeded : Outcome E
  permanent : E → Outcome E
  expired : E → Outcome E

module _ {W E : Type 0} (world : World W E) where
  abbrev pub last_interesting : Option E → E → E
  last_interesting none e = e
  last_interesting (some last) e = last

  -- The second select, with the rest of the loop where the ticker has ticked.
  abbrev pub waited : E → Bool × W → (W → Option (Outcome E × W)) → Option (Outcome E × W)
  waited e (true, w) rest = some (expired e, w)
  waited e (false, w) rest = rest w

  -- The first select.
  abbrev pub select_done :
      Bool → Option E → E → W → (W → Option (Outcome E × W)) → Option (Outcome E × W)
  select_done true last e w rest = some (expired (last_interesting last e), w)
  select_done false last e w rest = waited e (world.wait w) rest

  abbrev pub if_retriable :
      Bool → Option E → E → W → (W → Option (Outcome E × W)) → Option (Outcome E × W)
  if_retriable false last e w rest = some (permanent e, w)
  if_retriable true last e w rest = select_done (world.is_done w) last e w rest

  abbrev pub attempted :
      Option E × W → Option E → (E → W → Option (Outcome E × W)) → Option (Outcome E × W)
  attempted (none, w) last rest = some (succeeded, w)
  attempted (some e, w) last rest = if_retriable (world.retriable e) last e w (rest e)

  -- The loop of IntervalRetrier.Do, with fuel for its turns, from the last error that was noted.
  unfoldable pub do_from : ℕ → Option E → W → Option (Outcome E × W)
  do_from zero last w = none
  do_from (suc fuel) last w = attempted (world.do_once w) last (λ e w. do_from fuel (some e) w)
