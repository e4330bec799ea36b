-- ===== src/Tenancy/Isolation/Flow.antt =====
-- What flows between tenants.
use residual_agent_harness.Prelude.{
  ◌≡◌, refl, sym, subst, ◌∙◌, not, String, Bool, true, false, ◌&&◌, some, arith, any, string_eq,
  ◌==◌, ==_iff, if◌then◌else◌, Bool-cases, inl, inr,
}
use residual_agent_harness.Prelude.Dict.{Dict, lookup, insert, lookup-insert}
use residual_agent_harness.Prelude.Result.{Result, ok, err, guard, ◌>>◌}
use residual_agent_harness.Core.Identifier.{is_identifier}
use residual_agent_harness.Tenancy.Isolation.{
  Principal, covers, TenantStore, authorize, records_at, records_of, put, found, get, query,
  IsolationError, invalid_identifier, access_denied, query_denied,
}

module _ {V : Type 0} where
  -- The two stores have the same agreements, and differ at most in the tenant's records.
  pub record IsAlikeBut (tenant : String) (s s' : TenantStore V) : Type 0 where
    pub agreements : s.agreements ≡ s'.agreements
    pub records : (n : String) → (n == tenant) ≡ false → records_of s n ≡ records_of s' n

  authorize-agreements :
      (s s' : TenantStore V) (p : Principal) (owner key : String)
      → s.agreements ≡ s'.agreements
      → authorize s p owner key false ≡ authorize s' p owner key false
  unfolding authorize
  authorize-agreements s s' p owner key same = rw same refl

  -- Without an agreement, another tenant's record is not read.
  denied :
      (s : TenantStore V) (p : Principal) (tenant key : String) (m : Result IsolationError V)
      → (p.tenant_id == tenant) ≡ false
      → any (λ a. covers a tenant p.tenant_id key) s.agreements ≡ false
      → (authorize s p tenant key false >> m)
        ≡ (if is_identifier tenant then err access_denied else err invalid_identifier)
  unfolding authorize
  denied s p tenant key m foreign none_covers =
      rw (foreign, none_covers) (closed (is_identifier tenant))
    where
      closed :
          (b : Bool)
          → ((if not b then err invalid_identifier else err access_denied) >> m)
            ≡ (if b then err access_denied else err invalid_identifier)
      closed true = refl
      closed false = refl

  denied-get :
      (s s' : TenantStore V) (p : Principal) (tenant key : String)
      → s.agreements ≡ s'.agreements
      → (p.tenant_id == tenant) ≡ false
      → any (λ a. covers a tenant p.tenant_id key) s.agreements ≡ false
      → get s p tenant key ≡ get s' p tenant key
  unfolding get
  denied-get s s' p tenant key same foreign none_covers =
      denied s p tenant key (found (lookup key (records_of s tenant))) foreign none_covers
      ∙ sym (
          denied s' p tenant key (found (lookup key (records_of s' tenant))) foreign
            (subst (λ l. any (λ a. covers a tenant p.tenant_id key) l ≡ false) same none_covers))

  denied-query :
      (b : Bool) (x y : Dict V)
      → (guard b invalid_identifier >> (guard false query_denied >> ok x))
        ≡ (guard b invalid_identifier >> (guard false query_denied >> ok y))
  denied-query true x y = refl
  denied-query false x y = refl

  -- What a principal of one tenant reads does not depend on the records of another tenant that has
  -- no agreement with it: in two stores which differ only in those, all its reads and listings end
  -- alike, administrator or not.
  pub get-IsAlikeBut :
      (tenant : String) (s s' : TenantStore V) (p : Principal)
      → IsAlikeBut tenant s s'
      → (p.tenant_id == tenant) ≡ false
      → ((key : String) → any (λ a. covers a tenant p.tenant_id key) s.agreements ≡ false)
      → (owner key : String)
      → (get s p owner key ≡ get s' p owner key) × (query s p owner ≡ query s' p owner)
  unfolding get query
  get-IsAlikeBut tenant s s' p alike foreign none_covers owner key =
      elim (Bool-cases (owner == tenant)) [
        | inl same ↦
            let is : owner ≡ tenant = (==_iff owner tenant).0 same in
            let denied_get : get s p tenant key ≡ get s' p tenant key =
              denied-get s s' p tenant key alike.agreements foreign (none_covers key) in
            let denied_query : query s p tenant ≡ query s' p tenant =
              rw foreign (
                denied-query (is_identifier tenant) (records_of s tenant) (records_of s' tenant)) in
            subst (λ o. (get s p o key ≡ get s' p o key) × (query s p o ≡ query s' p o)) (sym is)
              (denied_get, denied_query)
        | inr other ↦
            let e = alike.records owner other in
            (rw (e, authorize-agreements s s' p owner key alike.agreements) refl, rw e refl)
      ]

  put-records_at :
      (s : TenantStore V) (owner n key k : String) (value : V) (d : Dict V)
      → records_of s owner ≡ d
      → lookup k (records_of (record s { data' = insert owner (insert key value d) s.data' }) n)
        ≡ (if owner == n && key == k then some value else lookup k (records_of s n))
  unfolding records_of records_at
  put-records_at s owner n key k value d own = elim (Bool-cases (owner == n)) [
    | inl same ↦
        let here : records_of s n ≡ d =
          subst (λ m. records_of s m ≡ d) ((==_iff owner n).0 same) own in
        ground (
          arith,
          lookup-insert owner n (insert key value d) s.data',
          same,
          lookup-insert key k value d,
          here,
        )
    | inr other ↦ ground (arith, lookup-insert owner n (insert key value d) s.data', other)
  ]

  -- A write changes the records of the principal's own tenant only, and there just the one under
  -- its key.
  pub put-records_of :
      (s s' : TenantStore V) (p : Principal) (owner key : String) (value : V)
      → put s p owner key value ≡ ok s'
      → (p.tenant_id ≡ owner)
        × ((n k : String)
            → lookup k (records_of s' n)
              ≡ (if owner == n && key == k then some value else lookup k (records_of s n)))
  unfolding put authorize
  put-records_of s s' p owner key value e =
      let mine : (p.tenant_id == owner) ≡ true = ground (arith, e) in
      let is : (record s { data' = insert owner (insert key value (records_of s owner)) s.data' })
          ≡ s' =
        ground (arith, e) in
      (
        (==_iff p.tenant_id owner).0 mine,
        subst
            (λ (x : TenantStore V).
              (n k : String)
              → lookup k (records_of x n)
                ≡ (if owner == n && key == k then some value else lookup k (records_of s n)))
            is (λ n k. put-records_at s owner n key k value (records_of s owner) refl),
      )
