-- ===== src/Retry/Deadlines.antt =====
-- internal/retry/retry.go: the loop ends, and how.
use contrast.Prelude.{
  Bool, true, false, Option, none, some, ℕ, zero, suc, ◌<◌, ◌≤◌, ◌≡◌, refl, sym, ap, subst, arith,
}
use contrast.Retry.{
  World, Outcome, succeeded, permanent, expired, last_interesting, waited, select_done,
  if_retriable, attempted, do_from,
}

module _ {W E : Type 0} (world : World W E) where
  -- A context with a deadline: the turns that are left become fewer with each one that is waited for.
  pub record HasDeadline (left : W → ℕ) : Type 0 where
    pub attempts : (w : W) → left (world.do_once w).1 ≤ left w
    pub waits : (w : W) → (world.wait w).0 ≡ false → left (world.wait w).1 < left w

  -- An error that a call returned, and that may be retried.
  pub record IsTransient (e : E) : Type 0 where
    pub state : W
    pub returned : (world.do_once state).0 ≡ some e
    pub allowed : world.retriable e ≡ true

  -- What an outcome says of the last state: the last call succeeded, or failed for good; or calls
  -- failed with errors that may be retried, until the context had expired after a call, or expired
  -- while the loop waited.
  pub data IsEnd : Outcome E → W → Type 0 where
    by_success : (w : W) → (world.do_once w).0 ≡ none → IsEnd succeeded (world.do_once w).1
    by_error :
        (w : W) (e : E)
        → (world.do_once w).0 ≡ some e
        → world.retriable e ≡ false
        → IsEnd (permanent e) (world.do_once w).1
    by_deadline : (w : W) (e : E) → IsTransient e → world.is_done w ≡ true → IsEnd (expired e) w
    while_waiting :
        (w : W) (e : E)
        → IsTransient e
        → (world.wait w).0 ≡ true
        → IsEnd (expired e) (world.wait w).1

  abbrev pub Ends : Option (Outcome E × W) → Type 0
  Ends o = (end : Outcome E) × (w : W) × (o ≡ some (end, w)) × IsEnd end w

  abbrev Noted : Option E → Type 0
  Noted none = Unit {0}
  Noted (some e) = IsTransient e

  last_interesting-IsTransient :
      (last : Option E) (e : E)
      → Noted last
      → IsTransient e
      → IsTransient (last_interesting world last e)
  last_interesting-IsTransient none e n t = t
  last_interesting-IsTransient (some l) e n t = n

  waited-Ends :
      (e : E) (w : W) (rest : W → Option (Outcome E × W))
      → IsTransient e
      → ((world.wait w).0 ≡ false → Ends (rest (world.wait w).1))
      → Ends (waited world e (world.wait w) rest)
  waited-Ends e w rest t ih = left_by (world.wait w).0 refl
    where
      left_by : (b : Bool) → (world.wait w).0 ≡ b → Ends (waited world e (world.wait w) rest)
      left_by true p = (
        expired e,
        (world.wait w).1,
        ap (λ b. waited world e (b, (world.wait w).1) rest) p,
        while_waiting w e t p,
      )
      left_by false p =
          subst Ends (sym (ap (λ b. waited world e (b, (world.wait w).1) rest) p)) (ih p)

  select-Ends :
      (last : Option E) (e : E) (w : W) (rest : W → Option (Outcome E × W))
      → Noted last
      → IsTransient e
      → ((world.wait w).0 ≡ false → Ends (rest (world.wait w).1))
      → Ends (select_done world (world.is_done w) last e w rest)
  select-Ends last e w rest n t ih = found (world.is_done w) refl
    where
      found :
          (b : Bool)
          → world.is_done w ≡ b
          → Ends (select_done world (world.is_done w) last e w rest)
      found true p = (
        expired (last_interesting world last e),
        w,
        ap (λ b. select_done world b last e w rest) p,
        by_deadline w (last_interesting world last e) (last_interesting-IsTransient last e n t) p,
      )
      found false p =
          subst Ends (sym (ap (λ b. select_done world b last e w rest) p))
            (waited-Ends e w rest t ih)

  attempted-Ends :
      (last : Option E) (w : W) (rest : E → W → Option (Outcome E × W))
      → Noted last
      → ((e : E)
          → IsTransient e
          → (world.wait (world.do_once w).1).0 ≡ false
          → Ends (rest e (world.wait (world.do_once w).1).1))
      → Ends (attempted world (world.do_once w) last rest)
  attempted-Ends last w rest n ih = returned (world.do_once w).0 refl
    where
      retried :
          (e : E) (b : Bool)
          → (world.do_once w).0 ≡ some e
          → world.retriable e ≡ b
          → Ends (if_retriable world b last e (world.do_once w).1 (rest e))
      retried e true p r =
          let t : IsTransient e = record { state = w; returned = p; allowed = r } in
          select-Ends last e (world.do_once w).1 (rest e) n t (ih e t)
      retried e false p r = (permanent e, (world.do_once w).1, refl, by_error w e p r)

      returned :
          (o : Option E)
          → (world.do_once w).0 ≡ o
          → Ends (attempted world (world.do_once w) last rest)
      returned none p = (
        succeeded,
        (world.do_once w).1,
        ap (λ o. attempted world (o, (world.do_once w).1) last rest) p,
        by_success w p,
      )
      returned (some e) p =
          subst Ends (sym (ap (λ o. attempted world (o, (world.do_once w).1) last rest) p))
            (retried e (world.retriable e) p refl)

  module _ (left : W → ℕ) (deadline : HasDeadline left) where
    -- Where a context has a deadline, more turns than are left before it are enough for the loop to
    -- end, and it ends as it says: with nil after a call that succeeded, with an error that may not
    -- be retried after a call that returned it, and else with an error that a call returned and that
    -- may be retried, once the context has expired.
    pub do_from-Ends :
        (fuel : ℕ) (last : Option E) (w : W)
        → left w < fuel
        → Noted last
        → Ends (do_from world fuel last w)
    unfolding do_from
    do_from-Ends zero last w h n = absurd (omega arith)
    do_from-Ends (suc fuel) last w h n =
        attempted-Ends last w (λ e w. do_from world fuel (some e) w) n
          (λ e t p.
            do_from-Ends fuel (some e) (world.wait (world.do_once w).1).1
              (omega (arith, deadline.attempts w, deadline.waits (world.do_once w).1 p)) t)
