-- ===== src/Position/Entries.antt =====
-- What `openManagedPosition` (positions/open.ts) has done when it reports a position as opened.
use arivion.Prelude.{
  ◌+◌, ◌*◌, String, ◌≡◌, ◌≢◌, refl, ap, ◌∙◌, true, false, not, Option, none, some, [], ◌∷◌, ◌++◌,
  eq_of_some-eq, str_eq_refl, Option-cases, inl, inr, if-case, true_of_not,
}
use arivion.Exit.Real.{Real}
use mathlib.Core.Option
use arivion.Exit.Policy.{validate_exit_policy}
use arivion.Exit.Evaluate.{init_runtime, base_stop_price}
use arivion.Guard.Plan.{AutonomyLevel}
use arivion.Risk.Status.{get_risk_state, is_normal}
use arivion.Run.Store.{RunStatus, RunDb, is_done, create_run}
use arivion.Run.Runner.{RunOutcome, execute_plan}
use arivion.Run.Cleared.{completed_calls_all}
use arivion.Position.Plans.{spec_step, open_step, build_open_position_plan, or_l2}
use arivion.Position.Store.{PositionIntent, IntentState, open_intent}
use arivion.Position.Open.{
  OpenManagedInput, OpenStatus, was_opened, OpenManagedResult, OpenWorld, OpenEnv, is_l2,
  open_options, or_long, bind, after_entry, enter, open_managed_position,
}

l2_level : (level : Option AutonomyLevel) → is_l2 level ≡ true → or_l2 level ≡ AutonomyLevel.l2
l2_level none h = refl
l2_level (some AutonomyLevel.l2) h = refl
l2_level (some AutonomyLevel.l0) h = cc
l2_level (some AutonomyLevel.l1) h = cc
l2_level (some AutonomyLevel.l1_5_shadow) h = cc
l2_level (some AutonomyLevel.l3) h = cc

none_not_some : {A : Type 0} {x : A} → none ≢ some x
none_not_some h = cc

module _ (R : Real) where
  open R use {Num}

  refused_not_opened :
      {A : Type 0} (r refusal : OpenManagedResult Num)
      → refusal.status ≡ OpenStatus.blocked
      → some refusal ≡ some r
      → r.status ≡ was_opened
      → A
  refused_not_opened r refusal blocked e opened = cc

  module _ (env : OpenEnv Num) (input : OpenManagedInput Num) where
    -- The position is open, as it was asked for: its exit policy is that of the input, its stop is the
    -- initial stop of that policy, no tier is cleared, and it ends after the time that the policy sets.
    pub record IsManaged (i : PositionIntent Num) : Type 0 where
      pub state : i.state ≡ IntentState.opened
      pub owner : i.owner_id ≡ input.owner_id
      pub symbol : i.symbol ≡ input.symbol
      pub side : i.side ≡ or_long R input.side
      pub entry_price : i.entry_price ≡ input.entry_price
      pub policy : i.exit_policy ≡ input.exit_policy
      pub stop :
          i.runtime.current_stop_price
          ≡ some (
              base_stop_price R
                (or_long R input.side)
                input.entry_price
                input.exit_policy.stop_loss
                input.atr)
      pub no_tiers : i.runtime.cleared_tiers ≡ []
      pub time_limit :
          i.time_exit_at ≡ Option.map (λ s. env.now + s * 1000) input.exit_policy.max_hold_seconds
      pub run : i.run_id ≡ some env.fresh_id

    -- the session was opened by the plan's two steps, and the monitor owns the position
    pub record IsBound (w w' : OpenWorld Num) : Type 0 where
      pub calls : w'.runs.calls ≡ w.runs.calls ++ spec_step ∷ open_step false ∷ []
      pub position : PositionIntent Num
      pub row : w'.positions.row env.position_id ≡ some position
      pub managed : IsManaged position

    -- no row of the run is there yet
    abbrev IsNew : RunDb → Type 0
    IsNew db = (id : String) → is_done input.owner_id env.fresh_id db.steps id ≡ false

    entry_calls :
        (db : RunDb)
        → is_l2 input.autonomy ≡ true
        → IsNew db
        → (execute_plan R (open_options R env input) db).0.status ≡ RunStatus.completed
        → (execute_plan R (open_options R env input) db).1.calls
          ≡ db.calls ++ spec_step ∷ open_step false ∷ []
    unfolding build_open_position_plan
    entry_calls db l2 new done =
        completed_calls_all R (open_options R env input) db done
        ∙ ap (λ xs. db.calls ++ xs)
            (rw (l2_level input.autonomy l2, new "s1_spec", new "s2_open") refl)

    after_entry-IsBound :
        (out : RunOutcome Num) (before w : OpenWorld Num) (status : RunStatus)
        → (after_entry R env input out w status).0.status ≡ was_opened
        → (status ≡ RunStatus.completed
            → w.runs.calls ≡ before.runs.calls ++ spec_step ∷ open_step false ∷ [])
        → IsBound before (after_entry R env input out w status).1
    unfolding after_entry open_intent init_runtime
    after_entry-IsBound out before w RunStatus.completed opened calls = record {
      calls = calls refl;
      position = (bind R env input w.positions).0;
      row = rw (str_eq_refl env.position_id) refl;
      managed = record {
        state = refl;
        owner = refl;
        symbol = refl;
        side = refl;
        entry_price = refl;
        policy = refl;
        stop = refl;
        no_tiers = refl;
        time_limit = refl;
        run = refl;
      };
    }
    after_entry-IsBound out before w RunStatus.running opened calls = cc
    after_entry-IsBound out before w RunStatus.proposed opened calls = cc
    after_entry-IsBound out before w RunStatus.blocked opened calls = cc
    after_entry-IsBound out before w RunStatus.awaiting_approval opened calls = cc
    after_entry-IsBound out before w RunStatus.error opened calls = cc

    enter-IsBound :
        (w : OpenWorld Num) (r : OpenManagedResult Num)
        → is_l2 input.autonomy ≡ true
        → IsNew w.runs
        → (enter R env input w).0 ≡ some r
        → r.status ≡ was_opened
        → IsBound w (enter R env input w).1
    unfolding enter create_run
    enter-IsBound w r l2 new =
        let runs =
          create_run env.fresh_id input.owner_id input.thread_id (some "open_managed_position")
            w.runs in
        let (out, runs') = execute_plan R (open_options R env input) runs in
        if-case {A = Option (OpenManagedResult Num) × OpenWorld Num}
          (λ z. z.0 ≡ some r → r.status ≡ was_opened → IsBound w z.1) env.connects _ _
          (λ up e opened.
            after_entry-IsBound out w (record w { runs = runs' }) out.status
              (ap (λ r. r.status) (eq_of_some-eq e) ∙ opened) (entry_calls runs l2 new))
          (λ thrown e. absurd (none_not_some e))

    -- what a position that is reported as opened has passed
    pub record IsCleared (w w' : OpenWorld Num) : Type 0 where
      pub l2 : is_l2 input.autonomy ≡ true
      pub calm : is_normal (get_risk_state env.now input.owner_id w.settings).0.state ≡ true
      pub valid : validate_exit_policy R input.exit_policy ≡ none
      pub bound : IsBound w w'

    -- what a result of the whole function says, if it reports `r` as opened
    abbrev Opens :
        OpenWorld Num
        → OpenManagedResult Num
        → Option (OpenManagedResult Num) × OpenWorld Num
        → Type 0
    Opens w r z = z.0 ≡ some r → r.status ≡ was_opened → IsCleared w z.1

    -- If `openManagedPosition` reports a position as opened, then the autonomy is L2, the owner's risk
    -- state is normal and the exit policy is valid, the two steps of the entry plan were called and
    -- nothing else, and the table has the position, open, for the owner, symbol, side and price of the
    -- input, with its policy, the initial stop and the time limit of that policy and no cleared tier: no
    -- entry is naked. Condition: the run's id has no rows before.
    pub opened_position-IsCleared :
        (w : OpenWorld Num) (r : OpenManagedResult Num)
        → IsNew w.runs
        → (open_managed_position R env input w).0 ≡ some r
        → r.status ≡ was_opened
        → IsCleared w (open_managed_position R env input w).1
    unfolding open_managed_position
    opened_position-IsCleared w r new =
        let (status, settings) = get_risk_state env.now input.owner_id w.settings in
        if-case {A = Option (OpenManagedResult Num) × OpenWorld Num} (Opens w r)
          (not (is_l2 input.autonomy)) _ _ (λ low e opened. refused_not_opened r _ refl e opened)
          (λ high.
            if-case {A = Option (OpenManagedResult Num) × OpenWorld Num} (Opens w r)
              (not (is_normal status.state)) _ _
              (λ averse e opened. refused_not_opened r _ refl e opened)
              (λ calm. elim (Option-cases (validate_exit_policy R input.exit_policy)) [
                | inr (fault, bad) ↦ rw bad (λ e opened. refused_not_opened r _ refl e opened)
                | inl valid ↦ rw valid (λ e opened.
                    let b =
                      enter-IsBound (record w { settings = settings }) r (true_of_not _ high) new e
                        opened in
                    record {
                      l2 = true_of_not _ high;
                      calm = true_of_not _ calm;
                      valid = valid;
                      bound = record {
                        calls = b.calls;
                        position = b.position;
                        row = b.row;
                        managed = b.managed;
                      };
                    })
              ]))
