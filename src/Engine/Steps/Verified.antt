-- ===== src/Engine/Steps/Verified.antt =====
-- Every accepted value has been passed by its verifier, with what was accepted before it.
use residual_agent_harness.Prelude.{
  ◌≡◌, subst, String, none, some, arith, string_eq, ◌==◌, ==_iff, Bool-cases, inl, inr,
}
use residual_agent_harness.Prelude.Dict.{Dict, lookup, insert, lookup-insert}
use residual_agent_harness.Prelude.Result.{ok}
use residual_agent_harness.Core.Obligation.{Obligation}
use residual_agent_harness.Core.Task.Cloud.{by_id}
use residual_agent_harness.Engine.{Host, Harness, Run}
use residual_agent_harness.Engine.Rounds.{run}
use residual_agent_harness.Engine.Steps.{View, IsPassed, Step, accepts, calls}
use residual_agent_harness.Engine.Steps.Invariants.{Steps_ind, ok-Steps}

-- What the one has, the other has too.
abbrev pub IsPart {ℓ} : {A : Type ℓ} → Dict A → Dict A → Type ℓ
IsPart {A = A} d e = (n : String) (v : A) → lookup n d ≡ some v → lookup n e ≡ some v

module _ {V W : Type 0} (host : Host V W) (h : Harness V W) where
  -- The verifier of the obligation passed the value, next to accepted values of the view.
  pub record IsVouched (accepted : Dict V) (n : String) (value : V) : Type 0 where
    pub obligation : Obligation
    pub own : by_id h.task.obligations n ≡ some obligation
    pub before : Dict V
    pub passed : IsPassed host h obligation value before
    pub part : IsPart before accepted

  insert-IsPart : (d : Dict V) (k : String) (v : V) → lookup k d ≡ none → IsPart d (insert k v d)
  insert-IsPart d k v fresh n w e = ground (arith, lookup-insert k n v d, ==_iff k n)

  IsVouched-later :
      (d e : Dict V) (n : String) (value : V)
      → IsPart d e
      → IsVouched d n value
      → IsVouched e n value
  IsVouched-later d e n value more v = record {
    obligation = v.obligation;
    own = v.own;
    before = v.before;
    passed = v.passed;
    part = λ m w k. more m w (v.part m w k);
  }

  AllVouched : View V → Type 0
  AllVouched a =
      (n : String) (value : V) → lookup n a.accepted ≡ some value → IsVouched a.accepted n value

  step-AllVouched : (a b : View V) → AllVouched a → Step host h a b → AllVouched b
  unfolding AllVouched
  step-AllVouched _ _ i (calls a c p) n value e = i n value e
  step-AllVouched _ _ i (accepts a o new own fresh passed) n value e =
      let more = insert-IsPart a.accepted o.id new fresh in
      elim (Bool-cases (o.id == n)) [
        | inl same ↦
            let here : o.id ≡ n = (==_iff o.id n).0 same in
            let is : new ≡ value = ground (arith, lookup-insert o.id n new a.accepted) in
            subst (λ m. IsVouched (insert o.id new a.accepted) m value) here
              (subst (λ v. IsVouched (insert o.id new a.accepted) o.id v) is
                (record {
                  obligation = o;
                  own = own;
                  before = a.accepted;
                  passed = passed;
                  part = more;
                }))
        | inr other ↦
            IsVouched-later a.accepted (insert o.id new a.accepted) n value more
              (i n value (ground (arith, lookup-insert o.id n new a.accepted)))
      ]

  -- Every value that a run accepted is for an obligation of the task, and the verifier of this
  -- obligation passed the value next to values that are accepted at the end too.
  pub run-verified :
      (w : W) (s : Run V W)
      → run host h w ≡ ok s
      → (n : String) (value : V) → lookup n s.accepted ≡ some value
      → IsVouched s.accepted n value
  unfolding AllVouched lookup
  run-verified w s e n value found =
      Steps_ind host h AllVouched step-AllVouched (ok-Steps host h w s e) (λ m v k. absurd (cc)) n
        value found
