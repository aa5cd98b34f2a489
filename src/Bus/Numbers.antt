-- ===== src/Bus/Numbers.antt =====
-- The numbers of the events that chat/bus.ts buffers.
use arivion.Prelude.{
  ℕ, suc, ◌+◌, String, ◌≡◌, refl, sym, ap, List, [], ◌∷◌, ◌++◌, length, str_eq, eq_iff, Bool-cases,
  inl, inr, arith,
}
use mathlib.Core.Path.{subst}
use arivion.Bus.{
  RunEvent, BusState, publish, subscribe, unsubscribe, expire, BusAction, do_publish, do_subscribe,
  do_unsubscribe, do_expire, act, act_all,
}

-- The events of the run, numbered from `n + 1`.
abbrev pub AreNumbered : String → ℕ → List RunEvent → Type 0
AreNumbered run n [] = Unit
AreNumbered run n (ev ∷ evs) = (ev.run_id ≡ run) × (ev.seq ≡ suc n) × AreNumbered run (suc n) evs

AreNumbered-snoc :
    (run : String) (n : ℕ) (evs : List RunEvent) (ev : RunEvent)
    → AreNumbered run n evs
    → ev.run_id ≡ run
    → ev.seq ≡ suc (n + length evs)
    → AreNumbered run n (evs ++ ev ∷ [])
AreNumbered-snoc run n [] ev all same e = (same, omega arith, tt)
AreNumbered-snoc run n (x ∷ evs) ev (r, q, all) same e =
    (r, q, AreNumbered-snoc run (suc n) evs ev all same (omega arith))

-- The buffer of the run is numbered from 1, and the counter is its length.
abbrev pub Counts : String → BusState → Type 0
Counts run s = (s.seqs run ≡ length (s.buffers run)) × AreNumbered run 0 (s.buffers run)

length-snoc : (evs : List RunEvent) (ev : RunEvent) → length (evs ++ ev ∷ []) ≡ suc (length evs)
length-snoc [] ev = refl
length-snoc (x ∷ evs) ev = ap suc (length-snoc evs ev)

pub act-Counts : (run : String) (a : BusAction) (s : BusState) → Counts run s → Counts run (act a s)
unfolding publish subscribe unsubscribe expire
act-Counts run (do_publish other type stored) s (e, all) = elim (Bool-cases (str_eq other run)) [
  | inl same ↦
      let eq = (eq_iff other run).0 same in
      let ev : RunEvent = record { type = type; run_id = other; seq = suc (s.seqs other) } in
      let (counted, numbered) = subst (λ r. Counts r s) (sym eq) (e, all) in
      rw same (
        omega (arith, length-snoc (s.buffers other) ev),
        subst (λ r. AreNumbered r 0 (s.buffers other ++ ev ∷ [])) eq
            (AreNumbered-snoc other 0 (s.buffers other) ev numbered refl (omega arith)),
      )
  | inr different ↦ rw different (e, all)
]
act-Counts run (do_subscribe other n) s h = h
act-Counts run (do_unsubscribe other n) s h = h
act-Counts run (do_expire other) s (e, all) = elim (Bool-cases (str_eq other run)) [
  | inl same ↦ rw same (refl, tt)
  | inr different ↦ rw different (e, all)
]

pub act_all-Counts :
    (run : String) (actions : List BusAction) (s : BusState)
    → Counts run s
    → Counts run (act_all actions s)
unfolding act_all
act_all-Counts run [] s h = h
act_all-Counts run (a ∷ rest) s h = act_all-Counts run rest (act a s) (act-Counts run a s h)
