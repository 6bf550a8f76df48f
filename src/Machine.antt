-- ===== src/Machine.antt =====
-- What the program uses of the package `transitions` (0.6.9, constraints.txt), whose code is not
-- part of the repository. A machine is a table of rows, each from one `add_transition`, and a
-- trigger is a method of the model. `RunsTable` is the documented behaviour of a trigger, as the
-- hypothesis on the function that stands for it: the rows with that trigger and the present state
-- are tried in the order in which they were added; a row whose conditions hold calls its `before`
-- callbacks, sets the state and calls its `after` callbacks, and the trigger returns True; when all
-- of them are refused by a condition it returns False; when there is none it raises MachineError.
use raidex.Prelude.{◌≡◌, Bool, true, false, Option, none, some, List, [], ◌∷◌, ◌&&◌, if◌then◌else◌}
use raidex.Exec.{Exec, Result, ok, raised, machine_error, pure, raise, modify, ◌>>◌}

pub record Row (State Trigger Event Model : Type 0) : Type 0 where
  pub trigger : Trigger
  pub source : State
  pub dest : Option State  -- `none` is the destination '=', the source itself
  pub conditions : List (Event → Model → Result Bool)
  pub unless : List (Event → Model → Result Bool)
  pub before : List (State → Event → Exec Model (Unit {0}))
  pub after : List (State → Event → Exec Model (Unit {0}))

module _ {State Trigger Event Model : Type 0} (same_state : State → State → Bool)
    (same_trigger : Trigger → Trigger → Bool) (trigger_of : Event → Trigger)
    (state_of : Model → State) (set_state : State → Model → Model) where
  unfoldable pub candidates :
      Trigger → State → List (Row State Trigger Event Model) → List (Row State Trigger Event Model)
  candidates t s [] = []
  candidates t s (r ∷ rs) =
      let rest = candidates t s rs in
      if same_trigger r.trigger t && same_state r.source s then r ∷ rest else rest

  -- Every test of the list gives `want`; the tests after the first that does not are not made.
  unfoldable pub all_give : Bool → List (Event → Model → Result Bool) → Event → Model → Result Bool
  all_give want [] e m = ok true
  all_give want (c ∷ cs) e m =
      let rest = all_give want cs e m in
      elim (c e m) [
        | raised x ↦ raised x
        | ok true ↦ if want then rest else ok false
        | ok false ↦ if want then ok false else rest
      ]

  unfoldable pub enabled : Row State Trigger Event Model → Event → Model → Result Bool
  unfolding all_give
  enabled r e m = elim (all_give true r.conditions e m) [
    | ok true ↦ all_give false r.unless e m
    | other ↦ other
  ]

  unfoldable pub call_all :
      List (State → Event → Exec Model (Unit {0})) → State → Event → Exec Model (Unit {0})
  call_all [] s e = pure tt
  call_all (f ∷ fs) s e = f s e >> call_all fs s e

  unfoldable pub enter : Option State → Model → Model
  enter none m = m
  enter (some s) m = set_state s m

  unfoldable pub execute : Row State Trigger Event Model → Event → Exec Model Bool
  unfolding call_all enter
  execute r e = do
    call_all r.before r.source e
    modify (enter r.dest)
    call_all r.after r.source e
    pure true

  unfoldable pub try_rows : List (Row State Trigger Event Model) → Event → Exec Model Bool
  unfolding enabled execute
  try_rows [] e m = (ok false, m)
  try_rows (r ∷ rs) e m =
      let rest = try_rows rs e m in
      elim (enabled r e m) [ raised x ↦ (raised x, m) | ok true ↦ execute r e m | ok false ↦ rest ]

  unfoldable pub run_candidates : List (Row State Trigger Event Model) → Event → Exec Model Bool
  unfolding try_rows
  run_candidates [] e = raise machine_error
  run_candidates (r ∷ rs) e = try_rows (r ∷ rs) e

  -- The documented behaviour of the triggers of a machine with the given table.
  pub record RunsTable (rows : List (Row State Trigger Event Model))
      (fire : Event → Exec Model Bool) : Type 0 where
    pub fires :
        (e : Event) (m : Model)
        → fire e m ≡ run_candidates (candidates (trigger_of e) (state_of m) rows) e m
