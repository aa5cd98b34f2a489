-- ===== src/Bus.antt =====
-- chat/bus.ts: the events of runs, with the buffer that a late subscriber is sent. Subscribers of a
-- run are numbered, and what each was sent is kept. `agent_run_events` is the table of what is
-- persisted; the payloads and times of events are left out. A timer that fires is `expire`: which
-- timers are set is kept, and the actions below let one fire at any time.
pub mod Numbers
pub mod Delivery
use arivion.Prelude.{
  ℕ, zero, suc, ◌+◌, ◌≤◌, ◌<◌, String, ◌≡◌, ◌≢◌, refl, sym, ap, ◌∙◌, Bool, true, false, not, ◌&&◌,
  ◌||◌, Option, none, some, List, [], ◌∷◌, ◌++◌, any, map, length, str_eq, eq_iff, ◌==◌,
  if◌then◌else◌, Bool-cases, inl, inr, str_eq_refl, arith,
}

pub data EventType : Type 0 where
  run_started run_step message cost approval_required truth_card : EventType
  widget question run_done run_error : EventType

pub record RunEvent : Type 0 where
  pub type : EventType
  pub run_id : String
  pub seq : ℕ

abbrev ends : EventType → Bool
ends run_done = true
ends run_error = true
ends run_started = false
ends run_step = false
ends message = false
ends cost = false
ends approval_required = false
ends truth_card = false
ends widget = false
ends question = false

unfoldable is_terminal : RunEvent → Bool
is_terminal ev = ends ev.type

-- a listener that is registered: the run and the number of the subscriber
pub record Listener : Type 0 where
  pub run_id : String
  pub subscriber : ℕ

pub record BusState : Type 0 where
  -- `buffers.get(runId) ?? []` and `seqs.get(runId) ?? 0`
  pub buffers : String → List RunEvent
  pub seqs : String → ℕ
  pub listeners : List Listener
  -- what `onEvent` of each subscriber was called with
  pub received : ℕ → List RunEvent
  -- the runs whose buffer a timer will drop
  pub timers : List String
  -- `agent_run_events`
  pub rows : List RunEvent

abbrev pub empty_bus : BusState
empty_bus = record {
  buffers = λ run. [];
  seqs = λ run. 0;
  listeners = [];
  received = λ subscriber. [];
  timers = [];
  rows = [];
}

-- `map.set(runId, v)`
abbrev pub update {ℓ} : {A : Type ℓ} → (String → A) → String → A → String → A
update f run v other = if str_eq run other then v else f other

abbrev is_same_row : RunEvent → RunEvent → Bool
is_same_row ev row = str_eq ev.run_id row.run_id && ev.seq == row.seq

-- `persistEvent`: the run has a row, and the (run_id, seq) is new
unfoldable persist_event : Bool → RunEvent → List RunEvent → List RunEvent
persist_event stored ev rows = if stored && not (any (is_same_row ev) rows) then ev ∷ rows else rows

abbrev pub hears : String → ℕ → Listener → Bool
hears run subscriber l = str_eq l.run_id run && l.subscriber == subscriber

-- `emitter.emit`
abbrev emit : RunEvent → BusState → ℕ → List RunEvent
emit ev s subscriber =
    if any (hears ev.run_id subscriber) s.listeners
    then s.received subscriber ++ ev ∷ []
    else s.received subscriber

-- `publish`; `stored` says whether the run has a row and the table can be reached
unfoldable pub publish : String → EventType → Bool → BusState → BusState
unfolding persist_event is_terminal
publish run type stored s =
    let seq = suc (s.seqs run) in
    let ev : RunEvent = record { type = type; run_id = run; seq = seq } in
    record {
      buffers = update s.buffers run (s.buffers run ++ ev ∷ []);
      seqs = update s.seqs run seq;
      listeners = s.listeners;
      received = emit ev s;
      timers = if is_terminal ev then run ∷ s.timers else s.timers;
      rows = persist_event stored ev s.rows;
    }

-- `replay`
abbrev pub replay : String → BusState → List RunEvent
replay run s = s.buffers run

-- `subscribe`, by a new subscriber
unfoldable pub subscribe : String → ℕ → BusState → BusState
subscribe run subscriber s = record s {
  listeners = record { run_id = run; subscriber = subscriber } ∷ s.listeners;
  received =
      λ other. if other == subscriber then s.received other ++ replay run s else s.received other;
}

abbrev pub without : String → ℕ → List Listener → List Listener
without run subscriber [] = []
without run subscriber (l ∷ ls) =
    if hears run subscriber l then without run subscriber ls else l ∷ without run subscriber ls

-- the function that `subscribe` returns
unfoldable pub unsubscribe : String → ℕ → BusState → BusState
unsubscribe run subscriber s = record s { listeners = without run subscriber s.listeners }

-- the timer of a terminal event
unfoldable pub expire : String → BusState → BusState
expire run s = record s { buffers = update s.buffers run []; seqs = update s.seqs run 0 }

pub data BusAction : Type 0 where
  do_publish : String → EventType → Bool → BusAction
  do_subscribe : String → ℕ → BusAction
  do_unsubscribe : String → ℕ → BusAction
  do_expire : String → BusAction

abbrev pub act : BusAction → BusState → BusState
act (do_publish run type stored) s = publish run type stored s
act (do_subscribe run subscriber) s = subscribe run subscriber s
act (do_unsubscribe run subscriber) s = unsubscribe run subscriber s
act (do_expire run) s = expire run s

unfoldable pub act_all : List BusAction → BusState → BusState
unfolding publish subscribe unsubscribe expire
act_all [] s = s
act_all (a ∷ rest) s = act_all rest (act a s)
