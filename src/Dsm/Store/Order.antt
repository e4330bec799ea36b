-- ===== src/Dsm/Store/Order.antt =====
-- The winner among concurrent events depends on which events there are, not on their order.
use mathlib.Core.Bool.{Bool-set}
use mathlib.Core.List.Perm
use mathlib.Core.List.{Mem, Mem-prop, Perm, not-mem-nil, mem-cons, mem-cons_self, mem-cons_of_mem}
use mathlib.Core.Logic.Or
use mathlib.Core.HLevel.{hedberg}
use native.Mathlib.Nat.{ℕ_set}
use text.Mathlib.TextEquality.{eq_iff}
use residual_agent_harness.Prelude.{
  String, ◌≡◌, refl, sym, ap, inl, inr, true, false, List, [], ◌∷◌, arith, Bool-cases, some,
  if◌then◌else◌, map, contains, distinct, string_eq, ◌∙◌, String-discrete,
}
use residual_agent_harness.Prelude.Text.{str_lt_irrefl, str_lt_trans, str_lt_total, str_lt_cut}
use residual_agent_harness.Dsm.Journal.{Journal}
use residual_agent_harness.Dsm.Store.{
  Event, key_lt, winner, accepted_events, current_value, value_of_winner,
}

pub key_lt_irrefl : (a : Event) → key_lt a a ≡ false
unfolding key_lt
key_lt_irrefl a = ground (arith, str_lt_irrefl a.event_id, str_lt_irrefl a.writer)

pub key_lt_trans : (a b c : Event) → key_lt a b ≡ true → key_lt b c ≡ true → key_lt a c ≡ true
unfolding key_lt
key_lt_trans a b c h k = ground (
  arith,
  str_lt_trans a.writer b.writer c.writer,
  str_lt_trans a.event_id b.event_id c.event_id,
  eq_iff a.writer b.writer,
  eq_iff b.writer c.writer,
  eq_iff a.writer c.writer,
)

-- Events that are not ordered either way have one id.
key_lt_total : (a b : Event) → key_lt a b ≡ false → key_lt b a ≡ false → a.event_id ≡ b.event_id
unfolding key_lt
key_lt_total a b h k = ground (
  arith,
  str_lt_total a.writer b.writer,
  str_lt_total a.event_id b.event_id,
  eq_iff a.writer b.writer,
  eq_iff b.writer a.writer,
)

key_lt_cut : (a b c : Event) → key_lt a c ≡ true → key_lt a b ≡ false → key_lt b c ≡ true
unfolding key_lt
key_lt_cut a b c h k = ground (
  arith,
  str_lt_cut a.writer b.writer c.writer,
  str_lt_cut a.event_id b.event_id c.event_id,
  eq_iff a.writer b.writer,
  eq_iff b.writer c.writer,
  eq_iff a.writer c.writer,
  str_lt_irrefl a.writer,
  str_lt_irrefl b.writer,
  str_lt_trans a.writer b.writer a.writer,
  str_lt_total a.writer b.writer,
  str_lt_total b.writer c.writer,
)

abbrev pub better : Event → Event → Event
better best e = if key_lt best e then e else best

-- What is not below the better of two is below neither.
below-better :
    (best e w : Event)
    → key_lt w (better best e) ≡ false
    → (key_lt w best ≡ false) × (key_lt w e ≡ false)
below-better best e w h = ground (arith, key_lt_cut w best e, key_lt_trans w best e)

pub winner-greatest :
    (es : List Event) (best x : Event) → Mem x (best ∷ es) → key_lt (winner best es) x ≡ false
unfolding winner
winner-greatest [] best x m =
    Or.elim (Bool-set _ _) (mem-cons.0 m) (λ e. rw e (key_lt_irrefl best))
      (λ absent. absurd (not-mem-nil absent))
winner-greatest (e ∷ es) best x m =
    let top = winner-greatest es (better best e) (better best e) mem-cons_self in
    let (first, second) = below-better best e _ top in
    Or.elim (Bool-set _ _) (mem-cons.0 m) (λ is_best. rw is_best first)
      λ in_rest.
        Or.elim (Bool-set _ _) (mem-cons.0 in_rest) (λ is_e. rw is_e second)
          λ in_es. winner-greatest es (better best e) x (mem-cons_of_mem _ in_es)

pub winner-mem : (es : List Event) (best : Event) → Mem (winner best es) (best ∷ es)
unfolding winner
winner-mem [] best = mem-cons_self
winner-mem (e ∷ es) best = elim (Bool-cases (key_lt best e)) [
  | inl less ↦ rw less (mem-cons_of_mem best (winner-mem es e))
  | inr not_less ↦ rw not_less (
      Or.elim Mem-prop (mem-cons.0 (winner-mem es best)) (λ is_best. rw is_best mem-cons_self)
        λ in_es. mem-cons_of_mem best (mem-cons_of_mem e in_es))
]

Event-set : IsSet Event
Event-set = hlevel (String-discrete, ℕ_set, hedberg String-discrete)

mem-contains :
    (es : List Event) (a : Event) → Mem a es → contains a.event_id (map (λ e. e.event_id) es) ≡ true
unfolding contains
mem-contains [] a m = absurd (not-mem-nil m)
mem-contains (e ∷ es) a m =
    Or.elim (Bool-set _ _) (mem-cons.0 m)
      (λ here. ground (arith, eq_iff a.event_id e.event_id, ap (λ (x : Event). x.event_id) here))
      λ there. ground (arith, mem-contains es a there)

-- In a list whose ids are distinct an id stands for one event.
eq_of_id :
    (es : List Event) (a b : Event)
    → distinct (map (λ e. e.event_id) es) ≡ true
    → Mem a es
    → Mem b es
    → a.event_id ≡ b.event_id
    → a ≡ b
unfolding distinct
eq_of_id [] a b d m n same = absurd (not-mem-nil m)
eq_of_id (e ∷ es) a b d m n same =
    Or.elim (Event-set _ _) (mem-cons.0 m)
      (λ a_here.
        Or.elim (Event-set _ _) (mem-cons.0 n) (λ b_here. a_here ∙ sym b_here)
          λ b_there.
            absurd
              (ground (arith, mem-contains es b b_there, ap (λ (x : Event). x.event_id) a_here)))
      λ a_there.
        Or.elim (Event-set _ _) (mem-cons.0 n)
          (λ b_here.
            absurd
              (ground (arith, mem-contains es a a_there, ap (λ (x : Event). x.event_id) b_here)))
          λ b_there. eq_of_id es a b (ground arith) a_there b_there same

winner-perm :
    (e f : Event) (es fs : List Event)
    → distinct (map (λ e. e.event_id) (e ∷ es)) ≡ true
    → Perm (e ∷ es) (f ∷ fs)
    → winner e es ≡ winner f fs
winner-perm e f es fs d p =
    let w = winner e es in
    let w' = winner f fs in
    let w'_listed = Perm.subset (Perm.symm p) w' (winner-mem fs f) in
    let w_listed = Perm.subset p w (winner-mem es e) in
    eq_of_id (e ∷ es) w w' d (winner-mem es e) w'_listed
      (key_lt_total w w' (winner-greatest es e w' w'_listed) (winner-greatest fs f w w_listed))

value_of_winner-perm :
    (l l' : List Event)
    → distinct (map (λ e. e.event_id) l) ≡ true
    → Perm l l'
    → value_of_winner l ≡ value_of_winner l'
unfolding value_of_winner
value_of_winner-perm [] [] d p = refl
value_of_winner-perm [] (f ∷ fs) d p =
    absurd (not-mem-nil (Perm.subset (Perm.symm p) f mem-cons_self))
value_of_winner-perm (e ∷ es) [] d p = absurd (not-mem-nil (Perm.subset p e mem-cons_self))
value_of_winner-perm (e ∷ es) (f ∷ fs) d p =
    ap (λ (x : Event). some x.value) (winner-perm e f es fs d p)

-- Two journals with the same accepted events for an entity, in whatever order, have the same
-- current value there, if no event id stands twice.
pub current_value-perm :
    (j j' : Journal Event) (domain entity : String)
    → distinct (map (λ e. e.event_id) (accepted_events j domain entity)) ≡ true
    → Perm (accepted_events j domain entity) (accepted_events j' domain entity)
    → current_value j domain entity ≡ current_value j' domain entity
unfolding current_value
current_value-perm j j' domain entity d p =
    value_of_winner-perm (accepted_events j domain entity) (accepted_events j' domain entity) d p
