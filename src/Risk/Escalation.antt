-- ===== src/Risk/Escalation.antt =====
-- risk/index.ts: a refresh only escalates, an escalation holds through its cooldown and ends with
-- it, and the breakers are monotone.
use arivion.Prelude.{
  ℕ, ◌+◌, ◌*◌, ◌≤◌, ◌<◌, ◌≡◌, ◌≢◌, refl, ap, ◌∙◌, ◌⊎◌, max, Bool, true, false, not, ◌&&◌, Option,
  none, some, List, ◌==◌, ltb, arith, Bool-cases, Option-cases, inl, inr, if◌then◌else◌,
}
use arivion.Exit.Real.{Real}
use arivion.Risk.Breakers.{
  RiskState, normal, risk_averse, halted, rank, Reason, RiskConfig, BreakerInputs,
  evaluate_breakers,
}
use arivion.Risk.Status.{
  RiskStatus, Settings, calm, put, expired, is_normal, read_row, get_risk_state, set_risk_state,
  verdict_of, refresh_risk_state,
}

get_risk_state-other :
    (now owner o : ℕ) (settings : Settings)
    → o ≢ owner
    → (get_risk_state now owner settings).1 o ≡ settings o
unfolding get_risk_state read_row
get_risk_state-other now owner o settings other = elim (Option-cases (settings owner)) [
  | inl missing ↦ rw (missing, get_risk_state) refl
  | inr (row, e) ↦
      rw (e, get_risk_state)
        (elim (Bool-cases (expired row now)) [
          | inl over ↦ rw over (ground arith)
          | inr open_row ↦ rw open_row refl
        ])
]

-- the state in an owner's row, normal where there is none
abbrev pub stored_state : Option RiskStatus → RiskState
stored_state none = normal
stored_state (some row) = row.state

-- What a read returns is what it leaves in the table.
get_risk_state-stored :
    (now owner : ℕ) (settings : Settings)
    → stored_state ((get_risk_state now owner settings).1 owner)
      ≡ (get_risk_state now owner settings).0.state
unfolding get_risk_state read_row
get_risk_state-stored now owner settings = elim (Option-cases (settings owner)) [
  | inl missing ↦ rw (missing, get_risk_state) (rw missing refl)
  | inr (row, e) ↦
      let self : owner == owner ≡ true = ground arith in
      rw (e, get_risk_state)
        (elim (Bool-cases (expired row now)) [
          | inl over ↦ rw (over, self) refl
          | inr open_row ↦ rw (open_row, e) refl
        ])
]

-- A row that has not expired is read back as it was put.
get_risk_state-put :
    (now owner : ℕ) (row : RiskStatus) (settings : Settings)
    → expired row now ≡ false
    → get_risk_state now owner (put owner row settings) ≡ (row, put owner row settings)
unfolding get_risk_state read_row
get_risk_state-put now owner row settings open_row =
    let self : owner == owner ≡ true = ground arith in rw (self, get_risk_state) (rw open_row refl)

get_risk_state-expired :
    (now owner : ℕ) (row : RiskStatus) (settings : Settings)
    → expired row now ≡ true
    → get_risk_state now owner (put owner row settings)
      ≡ (calm, put owner calm (put owner row settings))
unfolding get_risk_state read_row
get_risk_state-expired now owner row settings over =
    let self : owner == owner ≡ true = ground arith in rw (self, get_risk_state) (rw over refl)

normal_never_expires : (row : RiskStatus) (now : ℕ) → row.state ≡ normal → expired row now ≡ false
normal_never_expires row now n = elim (Option-cases row.cooldown_until) [
  | inl e ↦ rw e refl
  | inr (until, e) ↦ rw (e, n) refl
]

reads_normal :
    (owner t later : ℕ) (row : RiskStatus) (settings : Settings)
    → (row.state ≡ normal) ⊎ (expired row t ≡ true)
    → let (first, cleared) = get_risk_state t owner (put owner row settings) in
      (first.state ≡ normal) × ((get_risk_state later owner cleared).0.state ≡ normal)
reads_normal owner t later row settings (inl n) =
    let kept = normal_never_expires row in
    rw (get_risk_state-put t owner row settings (kept t n))
      (n, ap (λ p. p.0.state) (get_risk_state-put later owner row settings (kept later n)) ∙ n)
reads_normal owner t later row settings (inr over) =
    rw (get_risk_state-expired t owner row settings over) (
      refl,
      ap (λ p. p.0.state) (get_risk_state-put later owner calm (put owner row settings) refl),
    )

module _ (write_at owner seconds : ℕ) (state : RiskState) (reason : Option Reason)
    (settings : Settings) where
  get-set_risk_state :
      (t : ℕ)
      → t < write_at + seconds * 1000
      → let settings' = set_risk_state write_at owner state reason seconds settings in
        ((get_risk_state t owner settings').0.state ≡ state)
        × ((get_risk_state t owner settings').1 ≡ settings')
  unfolding set_risk_state
  get-set_risk_state t early =
      let back = get_risk_state-put t owner _ settings (not_expired t (seconds == 0) state early) in
      (ap (λ p. p.0.state) back, ap (λ p. p.1) back)
    where
      not_expired :
          (t : ℕ) (free : Bool) (s : RiskState)
          → t < write_at + seconds * 1000
          → expired
              (record {
                state = s;
                reason = reason;
                cooldown_until =
                    if not (is_normal s) && not free
                    then some (write_at + seconds * 1000)
                    else none;
              })
              t
            ≡ false
      not_expired t true normal h = refl
      not_expired t true risk_averse h = refl
      not_expired t true halted h = refl
      not_expired t false normal h = refl
      not_expired t false risk_averse h = ground arith
      not_expired t false halted h = ground arith

  -- A state that is set with a cooldown is over once the cooldown has passed: the first read
  -- from then on gives the normal state and clears the row, and every later read gives it too.
  -- Condition: the cooldown is not zero.
  cooldown_ends :
      (t later : ℕ)
      → 0 < seconds
      → write_at + seconds * 1000 ≤ t
      → let settings' = set_risk_state write_at owner state reason seconds settings in
        let (first, cleared) = get_risk_state t owner settings' in
        (first.state ≡ normal) × ((get_risk_state later owner cleared).0.state ≡ normal)
  unfolding set_risk_state
  cooldown_ends t later lasts over =
      reads_normal owner t later _ settings (is_over (seconds == 0) state (ground arith))
    where
      is_over :
          (free : Bool) (s : RiskState)
          → free ≡ false
          → let row : RiskStatus = record {
            state = s;
            reason = reason;
            cooldown_until =
                if not (is_normal s) && not free then some (write_at + seconds * 1000) else none;
          } in
            (s ≡ normal) ⊎ (expired row t ≡ true)
      is_over free normal h = inl refl
      is_over true risk_averse h = cc
      is_over true halted h = cc
      is_over false risk_averse h = inr (ground arith)
      is_over false halted h = inr (ground arith)

module _ (R : Real) where
  open R use {Num, le, le_trans}

  -- With at least as many consecutive losses and at least as deep a drawdown, over the same
  -- returns, the breakers give at least as severe a state.
  breakers_monotone :
      (config : RiskConfig Num) (inp worse : BreakerInputs Num)
      → inp.consecutive_losses ≤ worse.consecutive_losses
      → le inp.worst_drawdown worse.worst_drawdown ≡ true
      → worse.recent_returns ≡ inp.recent_returns
      → rank (evaluate_breakers R config inp).state ≤ rank (evaluate_breakers R config worse).state
  unfolding evaluate_breakers
  breakers_monotone config inp worse more deeper same =
      rw same
        (ground (arith, le_trans config.halt_drawdown_pct inp.worst_drawdown worse.worst_drawdown))

  module _ (config : RiskConfig Num) (closed : List Num) (read_at write_at return_at owner : ℕ)
      (settings : Settings) where
    -- The state that a refresh returns, and that it leaves in the owner's row, is the more severe one
    -- of the state before, an expired cooldown taken into account, and the state that the breakers
    -- give. Another owner's row is unchanged.
    pub refresh_escalates :
        (o : ℕ)
        → o ≢ owner
        → let (status, settings') =
            refresh_risk_state R config closed read_at write_at return_at owner settings in
          (rank status.state
            ≡ max
                (rank (get_risk_state read_at owner settings).0.state)
                (rank (verdict_of R config closed).state))
          × (stored_state (settings' owner) ≡ status.state)
          × (settings' o ≡ settings o)
    unfolding refresh_risk_state set_risk_state
    refresh_escalates o other =
        let current = (get_risk_state read_at owner settings).0.state in
        let kept = get_risk_state-other read_at owner o settings other in
        elim (Bool-cases (ltb (rank current) (rank (verdict_of R config closed).state))) [
          | inl up ↦
              let self : owner == owner ≡ true = ground arith in
              rw (up, refresh_risk_state) (ground arith, rw self refl, ground (arith, kept))
          | inr level ↦
              rw (level, refresh_risk_state)
                (ground arith, get_risk_state-stored read_at owner settings, kept)
        ]

    -- A state to which a refresh escalates is read back at any time before the cooldown has passed,
    -- and the read changes nothing. Condition: the cooldown is not zero.
    escalation_holds :
        (t : ℕ)
        → rank (get_risk_state read_at owner settings).0.state
          < rank (verdict_of R config closed).state
        → t < write_at + config.cooldown_seconds * 1000
        → let settings' =
            (refresh_risk_state R config closed read_at write_at return_at owner settings).1 in
          ((get_risk_state t owner settings').0.state ≡ (verdict_of R config closed).state)
          × ((get_risk_state t owner settings').1 ≡ settings')
    unfolding refresh_risk_state
    escalation_holds t up early =
        let goes_up : ltb (rank (get_risk_state read_at owner settings).0.state)
              (rank (verdict_of R config closed).state)
            ≡ true =
          ground arith in
        rw (goes_up, refresh_risk_state)
          (get-set_risk_state write_at owner config.cooldown_seconds _ _ _ t early)
