-- ===== src/Tenancy/Deletion.antt =====
-- What the deletion of a tenant leaves, for good.
use residual_agent_harness.Prelude.{
  ℕ, ◌≡◌, refl, subst, String, true, false, Option, none, some, List, [], ◌∷◌, arith, string_eq,
  ◌==◌, ==_iff, ==_refl, Bool-cases, inl, inr,
}
use residual_agent_harness.Prelude.Dict.{Dict, lookup, insert, remove, lookup-insert, lookup-remove}
use residual_agent_harness.Prelude.Result.{Result, ok, err}
use residual_agent_harness.Tenancy.{Tenant, TenantError, Digests, new_tenant}
use residual_agent_harness.Tenancy.Lifecycle.{
  PlatformOperator, DeletionRecord, TenantLifecycle, LifecycleError, is_absent, created,
  create_tenant, archive_of, deleted, delete_tenant, Operation, create, delete, kept, apply,
  apply_all,
}

module _ {V : Type 0} (digests : Digests V) where
  -- Archived, and no tenant.
  record IsGone (n : String) (r : DeletionRecord V) (l : TenantLifecycle V) : Type 0 where
    archived : lookup n l.archives ≡ some r
    no_tenant : lookup n l.tenants ≡ none

  create_tenant-ok :
      (l l' : TenantLifecycle V) (operator : PlatformOperator) (id : String) (quota : ℕ)
      → create_tenant digests l operator id quota ≡ ok l'
      → (is_absent (lookup id l.archives) ≡ true)
        × (created digests l id (new_tenant id quota) ≡ ok l')
  unfolding create_tenant
  create_tenant-ok l l' operator id quota done = (ground arith, ground arith)

  delete_tenant-ok :
      (l l' : TenantLifecycle V) (operator : PlatformOperator) (id : String)
      → delete_tenant digests l operator id ≡ ok l'
      → (operator.platform_admin ≡ true) × (deleted digests l id (lookup id l.tenants) ≡ ok l')
  unfolding delete_tenant
  delete_tenant-ok l l' operator id done = (ground arith, ground arith)

  created-IsGone :
      (n : String) (r : DeletionRecord V) (l l' : TenantLifecycle V) (id : String)
      (m : Result TenantError (Tenant V))
      → created digests l id m ≡ ok l'
      → (id == n) ≡ false
      → IsGone n r l
      → IsGone n r l'
  unfolding created
  created-IsGone n r l l' id (err e) done apart g = absurd (cc)
  created-IsGone n r l l' id (ok t) done apart g =
      let is : (record l { tenants = insert id t l.tenants }) ≡ l' = cc in
      subst (IsGone n r) is (record {
        archived = g.archived;
        no_tenant = ground (arith, lookup-insert id n t l.tenants, g.no_tenant, apart);
      })

  deleted-IsGone :
      (n : String) (r : DeletionRecord V) (l l' : TenantLifecycle V) (id : String)
      (m : Option (Tenant V))
      → lookup id l.tenants ≡ m
      → deleted digests l id m ≡ ok l'
      → IsGone n r l
      → IsGone n r l'
  unfolding deleted
  deleted-IsGone n r l l' id none there done g = absurd (cc)
  deleted-IsGone n r l l' id (some t) there done g =
      let is : (record l {
        tenants = remove id l.tenants;
        archives = insert id (archive_of digests id t) l.archives;
      })
          ≡ l' =
        cc in
      subst (IsGone n r) is (record {
        archived = ground (
          arith,
          lookup-insert id n (archive_of digests id t) l.archives,
          g.archived,
          g.no_tenant,
          ==_iff id n,
          there,
        );
        no_tenant = ground (arith, lookup-remove id n l.tenants, g.no_tenant);
      })

  kept-IsGone :
      (n : String) (r : DeletionRecord V) (l : TenantLifecycle V)
      (m : Result LifecycleError (TenantLifecycle V))
      → ((l' : TenantLifecycle V) → m ≡ ok l' → IsGone n r l')
      → IsGone n r l
      → IsGone n r (kept digests l m)
  unfolding kept
  kept-IsGone n r l (ok l') next g = next l' refl
  kept-IsGone n r l (err e) next g = g

  -- An archived id cannot be created again.
  other_id :
      (n id : String) (r : DeletionRecord V) (d : Dict (DeletionRecord V))
      → lookup n d ≡ some r
      → is_absent (lookup id d) ≡ true
      → (id == n) ≡ false
  other_id n id r d found free = elim (Bool-cases (id == n)) [
    | inl same ↦
        let e : is_absent (some r) ≡ true =
          subst (λ m. is_absent m ≡ true) found
            (subst (λ k. is_absent (lookup k d) ≡ true) ((==_iff id n).0 same) free) in
        absurd (cc)
    | inr other ↦ other
  ]

  apply-IsGone :
      (n : String) (r : DeletionRecord V) (l : TenantLifecycle V) (o : Operation)
      → IsGone n r l
      → IsGone n r (apply digests l o)
  unfolding apply
  apply-IsGone n r l (create operator id quota) g =
      kept-IsGone n r l (create_tenant digests l operator id quota)
        (λ l' done.
          let (free, made) = create_tenant-ok l l' operator id quota done in
          created-IsGone n r l l' id (new_tenant id quota) made
            (other_id n id r l.archives g.archived free) g)
        g
  apply-IsGone n r l (delete operator id) g =
      kept-IsGone n r l (delete_tenant digests l operator id)
        (λ l' done.
          deleted-IsGone n r l l' id (lookup id l.tenants) refl
            (delete_tenant-ok l l' operator id done).1 g)
        g

  apply_all-IsGone :
      (n : String) (r : DeletionRecord V) (l : TenantLifecycle V) (os : List Operation)
      → IsGone n r l
      → IsGone n r (apply_all digests l os)
  unfolding apply_all
  apply_all-IsGone n r l [] g = g
  apply_all-IsGone n r l (o ∷ os) g =
      apply_all-IsGone n r (apply digests l o) os (apply-IsGone n r l o g)

  deleted-archived :
      (l l' : TenantLifecycle V) (id : String) (m : Option (Tenant V))
      → deleted digests l id m ≡ ok l'
      → (t : Tenant V) × (m ≡ some t) × IsGone id (archive_of digests id t) l'
  unfolding deleted
  deleted-archived l l' id none done = absurd (cc)
  deleted-archived l l' id (some t) done =
      let is : (record l {
        tenants = remove id l.tenants;
        archives = insert id (archive_of digests id t) l.archives;
      })
          ≡ l' =
        cc in
      (
        t,
        refl,
        subst (IsGone id (archive_of digests id t)) is (record {
          archived =
              ground (arith, lookup-insert id id (archive_of digests id t) l.archives, ==_refl id);
          no_tenant = ground (arith, lookup-remove id id l.tenants, ==_refl id);
        }),
      )

  -- Only a platform administrator deletes a tenant, and a deletion is for good: whatever is created
  -- and deleted behind it, the tenant's whole receipt chain and observations stay archived as they
  -- were, and there is no tenant with its id.
  pub delete_tenant-archived :
      (l l' : TenantLifecycle V) (operator : PlatformOperator) (id : String) (os : List Operation)
      → delete_tenant digests l operator id ≡ ok l'
      → (operator.platform_admin ≡ true)
        × ((t : Tenant V) × (lookup id l.tenants ≡ some t)
            × (lookup id (apply_all digests l' os).archives ≡ some (archive_of digests id t))
            × (lookup id (apply_all digests l' os).tenants ≡ none))
  delete_tenant-archived l l' operator id os done =
      let (admin, rest) = delete_tenant-ok l l' operator id done in
      let (t, there, g) = deleted-archived l l' id (lookup id l.tenants) rest in
      let last = apply_all-IsGone id (archive_of digests id t) l' os g in
      (admin, (t, there, last.archived, last.no_tenant))
