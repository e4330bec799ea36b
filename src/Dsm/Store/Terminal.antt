-- ===== src/Dsm/Store/Terminal.antt =====
-- The terminal task state is the value of the greatest event, not of the last one: it is
-- absorbing where the keys of the events ascend, and not otherwise.
use text.Mathlib.TextEquality.{eq_iff}
use mathlib.Core.Option
use residual_agent_harness.Prelude.{
  ℕ, String, true, false, ◌≡◌, refl, Option, none, some, List, [], ◌∷◌, ◌++◌, map-append, arith,
  contains, ◌==◌, string_eq, Bool-cases, Option-cases, inl, inr, select, select-append,
}
use residual_agent_harness.Prelude.Result.{ok, err}
use residual_agent_harness.Dsm.Errors.{illegal_transition}
use residual_agent_harness.Dsm.Journal
use residual_agent_harness.Dsm.Journal.{Codec, Record}
use residual_agent_harness.Dsm.Ownership.{terminal_states, terminal_transitions}
use residual_agent_harness.Dsm.Store.{
  Event, DistributedStateStore, accepted_events, current_value, value_of_winner, winner, key_lt,
  check_terminal, Proposal, Ack, accepted, required_fields, submit,
}
use residual_agent_harness.Dsm.Store.Order.{better}
use residual_agent_harness.Dsm.Store.Admission.{written, submit-accepted}
use residual_agent_harness.Dsm.Store.Recovery.{transition_records-append}

winner-snoc :
    (es : List Event) (best e : Event) → winner best (es ++ e ∷ []) ≡ better (winner best es) e
unfolding winner
winner-snoc [] best e = refl
winner-snoc (x ∷ es) best e = winner-snoc es (better best x) e

abbrev pub winner_of : List Event → Option Event
winner_of [] = none
winner_of (e ∷ es) = some (winner e es)

value_of_winner-winner_of :
    (l : List Event) → value_of_winner l ≡ Option.map (λ e. e.value) (winner_of l)
unfolding value_of_winner
value_of_winner-winner_of [] = refl
value_of_winner-winner_of (e ∷ es) = refl

winner_of-snoc :
    (l : List Event) (w e : Event)
    → winner_of l ≡ some w
    → winner_of (l ++ e ∷ []) ≡ some (better w e)
winner_of-snoc [] w e h = cc
winner_of-snoc (x ∷ es) w e h = cc (winner-snoc es x e)

winner_of-snoc_none :
    (l : List Event) (e : Event) → winner_of l ≡ none → winner_of (l ++ e ∷ []) ≡ some e
unfolding winner
winner_of-snoc_none [] e h = refl
winner_of-snoc_none (x ∷ es) e h = cc

-- The greatest accepted event of a task, which is the one that counts.
abbrev pub deciding : DistributedStateStore → String → Option Event
deciding s entity = winner_of (accepted_events s.journal "task.terminal" entity)

pub current_value-deciding :
    (s : DistributedStateStore) (entity : String)
    → current_value s.journal "task.terminal" entity ≡ Option.map (λ e. e.value) (deciding s entity)
unfolding current_value
current_value-deciding s entity = value_of_winner-winner_of _

-- The transitions out of "running" are those into a terminal state, and there are none out of
-- any other state.
legal_running :
    (value : String)
    → contains value terminal_states ≡ true
    → contains value (terminal_transitions (some "running")) ≡ true
unfolding contains terminal_transitions
legal_running value h = h

legal_terminal :
    (current value : String)
    → contains current terminal_states ≡ true
    → contains value (terminal_transitions (some current)) ≡ false
unfolding contains terminal_transitions
legal_terminal current value h = elim (Bool-cases (current == "running")) [
  | inl running ↦
      let same : current ≡ "running" = (eq_iff current "running").0 running in
      let never : contains {A = String} "running" terminal_states ≡ true = rw same at h in cc
  | inr ended ↦ rw ended
]

-- A task that has ended by the deciding event is left by no transition.
pub check_terminal-ended :
    (s : DistributedStateStore) (e e' : Event)
    → deciding s e.entity ≡ some e
    → contains e.value terminal_states ≡ true
    → e'.domain ≡ "task.terminal"
    → e'.entity ≡ e.entity
    → check_terminal s.journal e' ≡ err illegal_transition
unfolding check_terminal
check_terminal-ended s e e' decided ends d' same =
    let current : current_value s.journal "task.terminal" e'.entity ≡ some e.value =
      rw (current_value-deciding s e'.entity, same, decided) in
    rw (d', current, legal_terminal e.value e'.value ends)

module _ (codec : Codec Event) where
  accepted_events-written :
      (s : DistributedStateStore) (e : Event) (time_ns : ℕ)
      → e.domain ≡ "task.terminal"
      → accepted_events (written codec s e time_ns).journal "task.terminal" e.entity
        ≡ accepted_events s.journal "task.terminal" e.entity ++ e ∷ []
  unfolding accepted_events Journal.next_record select
  accepted_events-written s e time_ns d =
      rw (transition_records-append codec s e time_ns, map-append, select-append)
        (ground (arith, eq_iff e.domain "task.terminal", eq_iff e.entity e.entity))

  module _ (s s' : DistributedStateStore) (p : Proposal) (e : Event) (time_ns : ℕ) (ack : Ack)
      (fields : required_fields p ≡ ok e) (answered : submit codec s p false time_ns ≡ (s', ok ack))
      (is_accepted : ack.disposition ≡ accepted) (terminal : e.domain ≡ "task.terminal") where
    after : s' ≡ written codec s e time_ns
    after =
        let (e', fields', a, same, got) =
          submit-accepted codec s s' p false time_ns ack answered is_accepted in
        cc

    -- An accepted event decides the state of its task if it is greater than the one before.
    deciding-accepted :
        (w : Event) → deciding s e.entity ≡ some w → deciding s' e.entity ≡ some (better w e)
    deciding-accepted w h =
        rw (after, accepted_events-written s e time_ns terminal) (winner_of-snoc _ w e h)

    deciding-first : deciding s e.entity ≡ none → deciding s' e.entity ≡ some e
    deciding-first h =
        rw (after, accepted_events-written s e time_ns terminal) (winner_of-snoc_none _ e h)

    pub deciding-greatest :
        ((w : Event) → deciding s e.entity ≡ some w → key_lt w e ≡ true)
        → deciding s' e.entity ≡ some e
    deciding-greatest greatest = elim (Option-cases (deciding s e.entity)) [
      | inl first ↦ deciding-first first
      | inr (w, h) ↦ rw (deciding-accepted w h, greatest w h)
    ]

    -- Where an earlier event of the task with the value "running" is not below the accepted one,
    -- the task stays "running" although the event that ends it was acknowledged, and another
    -- end is legal.
    pub terminal_not_absorbing :
        (w : Event)
        → deciding s e.entity ≡ some w
        → w.value ≡ "running"
        → key_lt w e ≡ false
        → (current_value s'.journal "task.terminal" e.entity ≡ some "running")
          × ((e' : Event)
              → e'.domain ≡ "task.terminal"
              → e'.entity ≡ e.entity
              → contains e'.value terminal_states ≡ true
              → check_terminal s'.journal e' ≡ ok tt)
    unfolding check_terminal
    terminal_not_absorbing w h running not_below =
        let decided : deciding s' e.entity ≡ some w = rw (deciding-accepted w h, not_below) in
        let current : current_value s'.journal "task.terminal" e.entity ≡ some "running" =
          rw (current_value-deciding s' e.entity, decided, running) in
        (current, λ e' d' same ends. rw (d', same, current, legal_running e'.value ends))
