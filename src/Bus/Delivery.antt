-- ===== src/Bus/Delivery.antt =====
-- What the subscribers of chat/bus.ts are sent, over any sequence of actions.
use arivion.Prelude.{
  ℕ, suc, String, ◌≡◌, ◌≢◌, refl, sym, ap, ◌∙◌, Bool, true, false, not, ◌&&◌, ◌||◌, List, [], ◌∷◌,
  ◌++◌, any, All, str_eq, eq_iff, ◌==◌, Bool-cases, if-case, or_false, inl, inr, str_eq_refl, arith,
}
use mathlib.Core.Path.{subst}
use arivion.Bus.{
  RunEvent, Listener, BusState, empty_bus, hears, publish, replay, subscribe, without, unsubscribe,
  expire, BusAction, do_publish, do_subscribe, do_unsubscribe, do_expire, act, act_all,
}
use arivion.Bus.Numbers.{AreNumbered, act-Counts, act_all-Counts}

-- a listener of the subscriber on another run
abbrev strays : String → ℕ → Listener → Bool
strays run subscriber l = l.subscriber == subscriber && not (str_eq l.run_id run)

-- The subscriber listens to the run only, and was sent what the buffer holds.
abbrev IsServed : String → ℕ → BusState → Type 0
IsServed run subscriber s =
    (s.received subscriber ≡ s.buffers run)
    × (any (hears run subscriber) s.listeners ≡ true)
    × (any (strays run subscriber) s.listeners ≡ false)

-- what leaves a subscriber of the run alone
abbrev pub Keeps : String → ℕ → BusAction → Type 0
Keeps run subscriber (do_publish other type stored) = Unit
Keeps run subscriber (do_subscribe other n) = n ≢ subscriber
Keeps run subscriber (do_unsubscribe other n) = n ≢ subscriber
Keeps run subscriber (do_expire other) = other ≢ run

deaf :
    (run other : String) (subscriber : ℕ) (ls : List Listener)
    → str_eq other run ≡ false
    → any (strays run subscriber) ls ≡ false
    → any (hears other subscriber) ls ≡ false
deaf run other subscriber [] different h = refl
deaf run other subscriber (l ∷ ls) different h = ground (
  arith,
  eq_iff l.run_id other,
  eq_iff l.run_id run,
  eq_iff other run,
  deaf run other subscriber ls,
)

number_apart : (n m : ℕ) → n ≢ m → (n == m) ≡ false
number_apart n m h = ground arith

and_false : (b : Bool) → (b && false) ≡ false
and_false true = refl
and_false false = refl

apart_from :
    (run other : String) (n subscriber : ℕ) (l : Listener)
    → hears other n l ≡ true
    → n ≢ subscriber
    → (hears run subscriber l ≡ false) × (strays run subscriber l ≡ false)
apart_from run other n subscriber l gone apart = (ground arith, ground arith)

hears-without :
    (run other : String) (n subscriber : ℕ) (ls : List Listener)
    → n ≢ subscriber
    → (any (hears run subscriber) (without other n ls) ≡ any (hears run subscriber) ls)
      × (any (strays run subscriber) (without other n ls) ≡ any (strays run subscriber) ls)
hears-without run other n subscriber [] apart = (refl, refl)
hears-without run other n subscriber (l ∷ ls) apart = elim (Bool-cases (hears other n l)) [
  | inl gone ↦
      let (unheard, unstray) = apart_from run other n subscriber l gone apart in
      let (hear, stray) = hears-without run other n subscriber ls apart in
      rw (gone, unheard, unstray) (hear, stray)
  | inr kept ↦
      let (hear, stray) = hears-without run other n subscriber ls apart in
      rw kept
        (ap (λ c. hears run subscriber l || c) hear, ap (λ c. strays run subscriber l || c) stray)
]

act-IsServed :
    (run : String) (subscriber : ℕ) (a : BusAction) (s : BusState)
    → Keeps run subscriber a
    → IsServed run subscriber s
    → IsServed run subscriber (act a s)
unfolding publish subscribe unsubscribe expire
act-IsServed run subscriber (do_publish other type stored) s keeps (got, on, only) =
    elim (Bool-cases (str_eq other run)) [
      | inl same ↦
          let eq = (eq_iff other run).0 same in
          let heard : any (hears other subscriber) s.listeners ≡ true =
            subst (λ r. any (hears r subscriber) s.listeners ≡ true) (sym eq) on in
          let ev : RunEvent = record { type = type; run_id = other; seq = suc (s.seqs other) } in
          rw (same, heard) (ap (λ evs. evs ++ ev ∷ []) (got ∙ ap s.buffers (sym eq)), on, only)
      | inr different ↦
          rw (different, deaf run other subscriber s.listeners different only) (got, on, only)
    ]
act-IsServed run subscriber (do_subscribe other n) s keeps (got, on, only) =
    rw
      (
        number_apart subscriber n (λ e. keeps (sym e)),
        number_apart n subscriber keeps,
        and_false (str_eq other run),
      )
      (got, on, only)
act-IsServed run subscriber (do_unsubscribe other n) s keeps (got, on, only) =
    let (hear, stray) = hears-without run other n subscriber s.listeners keeps in
    (got, hear ∙ on, stray ∙ only)
act-IsServed run subscriber (do_expire other) s keeps (got, on, only) =
    elim (Bool-cases (str_eq other run)) [
      | inl same ↦ absurd (keeps ((eq_iff other run).0 same))
      | inr different ↦ rw different (got, on, only)
    ]

act_all-IsServed :
    (run : String) (subscriber : ℕ) (actions : List BusAction) (s : BusState)
    → All (Keeps run subscriber) actions
    → IsServed run subscriber s
    → IsServed run subscriber (act_all actions s)
unfolding act_all
act_all-IsServed run subscriber [] s keeps h = h
act_all-IsServed run subscriber (a ∷ rest) s (first, keeps) h =
    act_all-IsServed run subscriber rest (act a s) keeps (act-IsServed run subscriber a s first h)

-- Nobody has that number, and so nothing was sent to it.
abbrev IsFree : ℕ → BusState → Type 0
IsFree subscriber s =
    (s.received subscriber ≡ []) × (any (λ l. l.subscriber == subscriber) s.listeners ≡ false)

abbrev IsOther : ℕ → BusAction → Type 0
IsOther subscriber (do_publish run type stored) = Unit
IsOther subscriber (do_subscribe run n) = n ≢ subscriber
IsOther subscriber (do_unsubscribe run n) = n ≢ subscriber
IsOther subscriber (do_expire run) = Unit

unheard :
    (run : String) (subscriber : ℕ) (ls : List Listener)
    → any (λ l. l.subscriber == subscriber) ls ≡ false
    → (any (hears run subscriber) ls ≡ false) × (any (strays run subscriber) ls ≡ false)
unheard run subscriber [] h = (refl, refl)
unheard run subscriber (l ∷ ls) h =
    let (number, rest) = or_false (l.subscriber == subscriber) _ h in
    let (hear, stray) = unheard run subscriber ls rest in
    rw (number, and_false (str_eq l.run_id run)) (hear, stray)

free-without :
    (run : String) (n subscriber : ℕ) (ls : List Listener)
    → any (λ l. l.subscriber == subscriber) ls ≡ false
    → any (λ l. l.subscriber == subscriber) (without run n ls) ≡ false
free-without run n subscriber [] h = refl
free-without run n subscriber (l ∷ ls) h =
    let (number, rest) = or_false (l.subscriber == subscriber) _ h in
    if-case {A = List Listener} (λ xs. any (λ l. l.subscriber == subscriber) xs ≡ false)
      (hears run n l) _ _ (λ gone. free-without run n subscriber ls rest)
      (λ kept. rw number (free-without run n subscriber ls rest))

act-IsFree :
    (subscriber : ℕ) (a : BusAction) (s : BusState)
    → IsOther subscriber a
    → IsFree subscriber s
    → IsFree subscriber (act a s)
unfolding publish subscribe unsubscribe expire
act-IsFree subscriber (do_publish run type stored) s other (got, free) =
    rw (unheard run subscriber s.listeners free).0 (got, free)
act-IsFree subscriber (do_subscribe run n) s other (got, free) =
    rw (number_apart subscriber n (λ e. other (sym e)), number_apart n subscriber other) (got, free)
act-IsFree subscriber (do_unsubscribe run n) s other (got, free) =
    (got, free-without run n subscriber s.listeners free)
act-IsFree subscriber (do_expire run) s other h = h

act_all-IsFree :
    (subscriber : ℕ) (actions : List BusAction) (s : BusState)
    → All (IsOther subscriber) actions
    → IsFree subscriber s
    → IsFree subscriber (act_all actions s)
unfolding act_all
act_all-IsFree subscriber [] s others h = h
act_all-IsFree subscriber (a ∷ rest) s (first, others) h =
    act_all-IsFree subscriber rest (act a s) others (act-IsFree subscriber a s first h)

number_same : (n : ℕ) → (n == n) ≡ true
number_same n = ground arith

subscribe-IsServed :
    (run : String) (subscriber : ℕ) (s : BusState)
    → IsFree subscriber s
    → IsServed run subscriber (subscribe run subscriber s)
unfolding subscribe
subscribe-IsServed run subscriber s (got, free) =
    rw (number_same subscriber, str_eq_refl run)
      (ap (λ evs. evs ++ s.buffers run) got, refl, (unheard run subscriber s.listeners free).1)

-- However late a new subscriber of a run comes, and whatever else happens to the bus, it has been
-- sent exactly the events in the buffer of the run, each once and in order, numbered from 1 without
-- a gap. Conditions: nobody else has the subscriber's number, and since it came it has not
-- unsubscribed and the buffer of the run has not been dropped.
pub subscriber_in_order :
    (run : String) (subscriber : ℕ) (earlier later : List BusAction)
    → All (IsOther subscriber) earlier
    → All (Keeps run subscriber) later
    → let s =
        act_all later (act_all (do_subscribe run subscriber ∷ []) (act_all earlier empty_bus)) in
      (s.received subscriber ≡ replay run s) × AreNumbered run 0 (s.received subscriber)
unfolding act_all
subscriber_in_order run subscriber earlier later others keeps =
    let joined = subscribe run subscriber (act_all earlier empty_bus) in
    let s = act_all later joined in
    let (got, on, only) = act_all-IsServed run subscriber later joined keeps (
      subscribe-IsServed run subscriber (act_all earlier empty_bus)
        (act_all-IsFree subscriber earlier empty_bus others (refl, refl))) in
    let counts = act_all-Counts run later joined (
      act-Counts run (do_subscribe run subscriber) (act_all earlier empty_bus)
        (act_all-Counts run earlier empty_bus (refl, tt))) in
    (got, subst (AreNumbered run 0) (sym got) counts.1)
