-- ===== src/Trigger/Fires.antt =====
-- What fires in `evaluateEvent` (triggers/evaluator.ts), and under which rails.
use mathlib.Core.Path.{subst}
use mathlib.Core.Bool.{false≢true}
use arivion.Prelude.{
  ℕ, suc, ◌≤◌, String, ◌≡◌, ◌≢◌, refl, sym, ap, ◌∙◌, Bool, true, false, ◌&&◌, some, List, [], ◌∷◌,
  any, count, str_eq, eq_iff, leb, ◌==◌, if◌then◌else◌, if-case, and_true, or_false, All,
  All-get_elem?, get_elem?, Bool-cases, Option-cases, eq_of_some-eq, inl, inr, arith,
}
use arivion.Exit.Real.{Real}
use arivion.Guard.Plan.{AutonomyLevel}
use arivion.Risk.Status.{get_risk_state}
use arivion.Budget.{check_budget, run}
use arivion.Trigger.Conditions.{MarketEvent, Candidate, evaluate_conditions}
use arivion.Trigger.Rails.{
  OwnerSettings, twice_rank, skipped, shadow, live, TriggerConfig, TriggerRow, Fired, TriggerWorld,
  TriggerEnv, is_dup, last_fire, in_cooldown, cooldown_of, is_ok, skip_with, cooldown,
}
use arivion.Trigger.Evaluate.{
  armed_rows, config_of, dedupe_key, row_of, can_live, fire, consider, consider_all, threshold_of,
  rails_off, evaluate_event,
}

shadow_not_live : shadow ≢ live
shadow_not_live h = cc

eq_of : (a b : ℕ) → (a == b) ≡ true → a ≡ b
eq_of a b h = ground arith

count-none : {A : Type 0} (p : A → Bool) (xs : List A) → any p xs ≡ false → count p xs ≡ 0
count-none p [] h = refl
count-none p (x ∷ xs) h =
    let (this, rest) = or_false (p x) (any p xs) h in rw this (omega (arith, count-none p xs rest))

-- a new row under a key that no row has
one_row :
    (owner : ℕ) (key : String) (row : TriggerRow) (rows : List TriggerRow)
    → row.owner_id ≡ owner
    → row.dedupe_key ≡ key
    → any (is_dup owner key) rows ≡ false
    → (o : ℕ) (k : String) → count (is_dup o k) rows ≤ 1
    → count (is_dup o k) (row ∷ rows) ≤ 1
one_row owner key row rows of_owner of_key new o k u = elim (Bool-cases (is_dup o k row)) [
  | inr other ↦ rw other (omega (arith, u))
  | inl same ↦
      let (same_owner, same_key) = and_true (row.owner_id == o) (str_eq row.dedupe_key k) same in
      let none_else =
        subst (λ o. count (is_dup o k) rows ≡ 0) (sym of_owner ∙ eq_of row.owner_id o same_owner)
          (subst (λ k. count (is_dup owner k) rows ≡ 0)
            (sym of_key ∙ (eq_iff row.dedupe_key k).0 same_key)
            (count-none (is_dup owner key) rows new)) in
      rw same (omega (arith, none_else))
]

module _ {N : Type 0} (env : TriggerEnv N) (owner : ℕ) (settings : OwnerSettings)
    (ev : MarketEvent N) where
  -- the owner's rails that do not depend on the trigger
  abbrev may_act : Bool
  may_act =
      leb (twice_rank AutonomyLevel.l2) (twice_rank settings.autonomy_level)
      && is_ok (check_budget env.budget_config env.now owner env.spent run env.budget)

  can_live-may_act :
      (c : Candidate) (w : TriggerWorld N)
      → can_live env owner settings c w.rows (get_risk_state env.now owner w.settings).0.state
        ≡ true
      → (may_act ≡ true) × (leb 70 c.confidence ≡ true)
  can_live-may_act c w h = ground arith

  -- what holds of a trigger that fires live
  pub record IsAllowed (cfgs : List (TriggerConfig N)) (f : Fired) : Type 0 where
    pub config : TriggerConfig N
    pub armed : config_of cfgs f.trigger_type ≡ some config
    pub configured : config.default_live ≡ true
    pub awake : any (λ h. h == env.hour) config.quiet_hours ≡ false
    pub acts : may_act ≡ true

  is_live_of :
      (cfg : TriggerConfig N) (c : Candidate) (w : TriggerWorld N)
      → (cfg.default_live
          && can_live env owner settings c w.rows (get_risk_state env.now owner w.settings).0.state)
        ≡ true
      → (cfg.default_live ≡ true) × (may_act ≡ true)
  is_live_of cfg c w h =
      let (configured, able) = and_true cfg.default_live _ h in
      (configured, (can_live-may_act c w able).0)

  -- what a pass of the loop leaves
  record Pass (cfg : TriggerConfig N) (c : Candidate) (w : TriggerWorld N)
      (z : Fired × TriggerWorld N) : Type 0 where
    pub type : z.0.trigger_type ≡ c.trigger_type
    pub allowed : z.0.mode ≡ live → (cfg.default_live ≡ true) × (may_act ≡ true)
    pub quiet : z.0.mode ≡ live → any (λ h. h == env.hour) cfg.quiet_hours ≡ false
    pub launches : may_act ≡ false → z.1.launched ≡ w.launched
    pub unique :
        (o : ℕ) (k : String) → count (is_dup o k) w.rows ≤ 1 → count (is_dup o k) z.1.rows ≤ 1

  skipped-Pass :
      (cfg : TriggerConfig N) (c : Candidate) (w : TriggerWorld N) (f : Fired)
      → f.trigger_type ≡ c.trigger_type
      → f.mode ≡ skipped
      → Pass cfg c w (f, w)
  skipped-Pass cfg c w f type e = record {
    type = type;
    allowed = λ l. cc;
    quiet = λ l. cc;
    launches = λ h. refl;
    unique = λ o k u. u;
  }

  fire-Pass :
      (cfg : TriggerConfig N) (c : Candidate) (i : ℕ) (w : TriggerWorld N)
      → any (λ h. h == env.hour) cfg.quiet_hours ≡ false
      → any (is_dup owner (dedupe_key env owner c.trigger_type ev)) w.rows ≡ false
      → Pass cfg c w (fire env owner settings ev cfg c i w)
  unfolding fire
  fire-Pass cfg c i w awake new =
      let is_live =
        cfg.default_live
        && can_live env owner settings c w.rows (get_risk_state env.now owner w.settings).0.state in
      let row = row_of env owner ev c i (if is_live then live else shadow) in
      elim (Bool-cases is_live) [
        | inl l ↦ record {
          type = refl;
          allowed = λ _. is_live_of cfg c w l;
          quiet = λ l. awake;
          launches = λ h. absurd (false≢true (sym h ∙ (is_live_of cfg c w l).1));
          unique = one_row owner (dedupe_key env owner c.trigger_type ev) row w.rows refl refl new;
        }
        | inr dark ↦ record {
          type = refl;
          allowed = λ l. absurd (shadow_not_live (rw dark at l));
          quiet = λ l. awake;
          launches = λ h. rw dark refl;
          unique = one_row owner (dedupe_key env owner c.trigger_type ev) row w.rows refl refl new;
        }
      ]

  consider-Pass :
      (cfg : TriggerConfig N) (c : Candidate) (i : ℕ) (w : TriggerWorld N)
      → Pass cfg c w (consider env owner settings ev cfg c i w)
  unfolding consider
  consider-Pass cfg c i w =
      if-case (Pass cfg c w) _ _ _ (λ quiet. skipped-Pass cfg c w _ refl refl)
        (λ awake.
          if-case (Pass cfg c w) _ _ _ (λ dup. skipped-Pass cfg c w _ refl refl)
            (λ new.
              if-case (Pass cfg c w)
                (in_cooldown env.now (last_fire owner c.trigger_type ev.symbol w.rows)
                  (cooldown_of cfg.cooldown_seconds env.trigger_cooldown_seconds))
                (skip_with c cooldown, w) _
                (λ cool. skipped-Pass cfg c w (skip_with c cooldown) refl refl)
                (λ warm. fire-Pass cfg c i w awake new)))

  -- what the loop leaves
  record Loop (cfgs : List (TriggerConfig N)) (w : TriggerWorld N) (z : List Fired × TriggerWorld N)
      : Type 0 where
    pub allowed : All (λ f. f.mode ≡ live → IsAllowed cfgs f) z.0
    pub launches : may_act ≡ false → z.1.launched ≡ w.launched
    pub unique :
        (o : ℕ) (k : String) → count (is_dup o k) w.rows ≤ 1 → count (is_dup o k) z.1.rows ≤ 1

  consider_all-Loop :
      (cfgs : List (TriggerConfig N)) (cs : List Candidate) (i : ℕ) (w : TriggerWorld N)
      → Loop cfgs w (consider_all env owner settings ev cfgs cs i w)
  unfolding consider_all
  consider_all-Loop cfgs [] i w = record { allowed = tt; launches = λ h. refl; unique = λ o k u. u }
  consider_all-Loop cfgs (c ∷ cs) i w = elim (Option-cases (config_of cfgs c.trigger_type)) [
    | inl unarmed ↦ rw (unarmed, consider_all) (consider_all-Loop cfgs cs (suc i) w)
    | inr (cfg, at) ↦
        let p = consider-Pass cfg c i w in
        let rest = consider_all-Loop cfgs cs (suc i) (consider env owner settings ev cfg c i w).1 in
        rw (at, consider_all)
          (record {
            allowed = (
              λ l. record {
                config = cfg;
                armed = ap (config_of cfgs) p.type ∙ at;
                configured = (p.allowed l).0;
                awake = p.quiet l;
                acts = (p.allowed l).1;
              },
              rest.allowed,
            );
            launches = λ h. rest.launches h ∙ p.launches h;
            unique = λ o k u. rest.unique o k (p.unique o k u);
          })
  ]

config_of-armed :
    {N : Type 0} (owner : ℕ) (cfgs : List (TriggerConfig N)) (type : String) (cfg : TriggerConfig N)
    → config_of (armed_rows owner cfgs) type ≡ some cfg
    → (cfg.owner_id ≡ owner) × (cfg.armed ≡ true)
unfolding config_of
config_of-armed owner [] type cfg e = cc
config_of-armed owner (c ∷ cs) type cfg e = elim (Bool-cases (c.owner_id == owner && c.armed)) [
  | inr out ↦ config_of-armed owner cs type cfg (rw out at e)
  | inl kept ↦ elim (Bool-cases (str_eq c.trigger_type type)) [
    | inr other ↦ config_of-armed owner cs type cfg (rw (kept, other) at e)
    | inl same ↦
        let here : c ≡ cfg = eq_of_some-eq (rw (kept, same) at e) in
        let (owned, armed) = and_true (c.owner_id == owner) c.armed kept in
        subst (λ c. (c.owner_id ≡ owner) × (c.armed ≡ true)) here
          (eq_of c.owner_id owner owned, armed)
  ]
]

module _ (R : Real) where
  open R use {Num}

  module _ (env : TriggerEnv Num) (owner : ℕ) (settings : OwnerSettings)
      (cfgs : List (TriggerConfig Num)) (ev : MarketEvent Num) (w : TriggerWorld Num) where
    fire-IsAllowed :
        (k : ℕ) (f : Fired)
        → get_elem? (evaluate_event R env owner settings cfgs ev w).0 k ≡ some f
        → f.mode ≡ live
        → (rails_off env settings ≡ false)
          × (IsAllowed env owner settings ev (armed_rows owner cfgs) f)
    unfolding evaluate_event
    fire-IsAllowed k f =
        if-case {A = List Fired × TriggerWorld Num}
          (λ z.
            get_elem? z.0 k ≡ some f
            → f.mode ≡ live
            → (rails_off env settings ≡ false)
              × (IsAllowed env owner settings ev (armed_rows owner cfgs) f))
          (rails_off env settings) _ _ (λ off at. cc)
          (λ on at l. (
            on,
            All-get_elem?
                (λ f. f.mode ≡ live → IsAllowed env owner settings ev (armed_rows owner cfgs) f) _ k
                f
                (consider_all-Loop env owner settings ev (armed_rows owner cfgs)
                  (evaluate_conditions R env.defaults ev (threshold_of (armed_rows owner cfgs))) 0
                  w).allowed
                at l,
          ))

    -- A trigger fires live only if no kill switch is on, the owner has an armed row for its type that
    -- is configured live, the hour is not quiet, the owner's autonomy is L2 or above and the daily
    -- budget is not used up.
    pub live_fire-IsAllowed :
        (k : ℕ) (f : Fired)
        → get_elem? (evaluate_event R env owner settings cfgs ev w).0 k ≡ some f
        → f.mode ≡ live
        → (rails_off env settings ≡ false)
          × ((a : IsAllowed env owner settings ev (armed_rows owner cfgs) f) × (a.config.owner_id
                ≡ owner)
              × (a.config.armed ≡ true))
    live_fire-IsAllowed k f at l =
        let (on, allowed) = fire-IsAllowed k f at l in
        let (owned, armed) =
          config_of-armed owner cfgs f.trigger_type allowed.config allowed.armed in
        (on, (allowed, owned, armed))

    -- If the owner's autonomy is below L2 or the daily budget is used up, an event of the market
    -- starts no plan, whatever triggers are armed and configured.
    nothing_launched :
        may_act env owner settings ev ≡ false
        → (evaluate_event R env owner settings cfgs ev w).1.launched ≡ w.launched
    unfolding evaluate_event
    nothing_launched h =
        if-case {A = List Fired × TriggerWorld Num} (λ z. z.1.launched ≡ w.launched)
          (rails_off env settings) _ _ (λ off. refl)
          (λ on.
            (consider_all-Loop env owner settings ev (armed_rows owner cfgs)
                (evaluate_conditions R env.defaults ev (threshold_of (armed_rows owner cfgs))) 0
                w).launches
              h)

    evaluation-keeps_one :
        (o : ℕ) (key : String)
        → count (is_dup o key) w.rows ≤ 1
        → count (is_dup o key) (evaluate_event R env owner settings cfgs ev w).1.rows ≤ 1
    unfolding evaluate_event
    evaluation-keeps_one o key u =
        if-case {A = List Fired × TriggerWorld Num} (λ z. count (is_dup o key) z.1.rows ≤ 1)
          (rails_off env settings) _ _ (λ off. u)
          (λ on.
            (consider_all-Loop env owner settings ev (armed_rows owner cfgs)
                (evaluate_conditions R env.defaults ev (threshold_of (armed_rows owner cfgs))) 0
                w).unique
              o key u)

  -- an event that is evaluated for an owner, with what the evaluation reads
  pub record Evaluation : Type 0 where
    pub env : TriggerEnv Num
    pub owner : ℕ
    pub settings : OwnerSettings
    pub configs : List (TriggerConfig Num)
    pub event : MarketEvent Num

  -- evaluations of which each ends before the next one begins
  abbrev pub evaluate_in_turn : List Evaluation → TriggerWorld Num → TriggerWorld Num
  evaluate_in_turn [] w = w
  evaluate_in_turn (e ∷ es) w =
      evaluate_in_turn es (evaluate_event R e.env e.owner e.settings e.configs e.event w).1

  -- However many events are evaluated, for whatever owners, an owner keeps one row at most under each
  -- dedupe key: the same event, however often it comes, fires a trigger once at most. Conditions: each
  -- evaluation ends before the next one begins, and it is so before the first.
  pub fires_once :
      (evaluations : List Evaluation) (w : TriggerWorld Num) (o : ℕ) (key : String)
      → count (is_dup o key) w.rows ≤ 1
      → count (is_dup o key) (evaluate_in_turn evaluations w).rows ≤ 1
  fires_once [] w o key u = u
  fires_once (e ∷ es) w o key u =
      fires_once es _ o key
        (evaluation-keeps_one e.env e.owner e.settings e.configs e.event w o key u)
