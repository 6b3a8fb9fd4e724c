-- ===== src/Plan/Down/Services.antt =====
-- crates/susun-planner/src/down/mod.rs: the loop of `plan_down` over the services.
use susun.Prelude.{
  ◌≡◌, refl, sym, ◌∙◌, ap, true, ◌||◌, some, List, [], ◌∷◌, ◌⊎◌, Text, arith, list_eq, nat_eq, ◌=?◌,
  =?_refl, list_beq_iff, Bool-cases, Option-cases, inl, inr, text,
}
use susun.IndexMap.{IndexMap, contains, get, insert, keys, values}
use susun.Diagnostics.{Diagnostic, error}
use susun.Diagnostics.Report
use susun.Diagnostics.Report.{DiagnosticReport}
use susun.Model.{ServiceName}
use susun.Plan.{ActionId, remove_container, PlanActionNode, down}
use susun.Plan.Dag.{ok}
use susun.Plan.Input.{PlanningInput, Actions, make_action_id, service_identity_for}
use susun.Plan.Built.{IsBuilt, Inserted}
use susun.Plan.Yields.{
  Yields, yields, Yields->>=, Yields-map, insert_action-Yields, IsCollision, IsCollision-allowed,
}
use susun.Plan.Ready.{contains-one, one_dependency-IsReady, no_dependency-IsReady, has_errors-push}
use susun.Plan.Owned.{OwnedResourceIndex}
use susun.Plan.Down.{
  DownState, stop_node, remove_node, remove_service, down_owned, down_service, down_services,
  container_snapshot_incomplete,
}
use susun.Plan.Up.Grown.{
  Does, Extends, Extends-refl, Extends-trans, Inserted-Extends, Inserted-Does,
}
use susun.Engine.{ServiceInstanceId}
use susun.Plan.Down.Roles.{ServiceRole, stops, removes, ServiceRoles-Inserted}

module _ (input : PlanningInput) where
  -- The id of the removal of a service's container.
  abbrev pub removal_id : ServiceName → ActionId
  removal_id service =
      make_action_id down input
        (remove_container (service_identity_for input.identity.working_set service)) (text "0")

  abbrev pub IsNamed : IndexMap ServiceName ActionId → Type 0
  IsNamed [] = Unit
  IsNamed ((s, id) ∷ ids) = (id ≡ removal_id s) × IsNamed ids

  insert-IsNamed :
      (ids : IndexMap ServiceName ActionId) (s : ServiceName)
      → IsNamed ids
      → IsNamed (insert s (removal_id s) ids)
  unfolding insert
  insert-IsNamed [] s h = (refl, tt)
  insert-IsNamed ((t, id) ∷ ids) s h = elim (Bool-cases (t =? s)) [
    | inl same ↦ rw same (ap removal_id (sym ((list_beq_iff t s).0 same)), h.1)
    | inr other ↦ rw other (h.0, insert-IsNamed ids s h.1)
  ]

  contains-values-insert :
      (ids : IndexMap ServiceName ActionId) (s : ServiceName) (j : ActionId)
      → IsNamed ids
      → contains (values (insert s (removal_id s) ids)) j
        ≡ (removal_id s =? j || contains (values ids) j)
  unfolding insert values contains
  contains-values-insert [] s j h = refl
  contains-values-insert ((t, id) ∷ ids) s j h = elim (Bool-cases (t =? s)) [
    | inl same ↦
        let e : id ≡ removal_id s = h.0 ∙ ap removal_id ((list_beq_iff t s).0 same) in
        rw (same, e) (ground arith)
    | inr other ↦ rw (other, contains-values-insert ids s j h.1) (ground arith)
  ]

  -- The invariant of the loop over the services.
  pub record DownInv (st : DownState) : Type 0 where
    pub built : IsBuilt st.actions
    pub named : IsNamed st.remove_container_ids
    pub removals_known :
        (j : ActionId)
        → contains (values st.remove_container_ids) j ≡ true
        → contains (keys st.actions) j ≡ true
    pub roles :
        (k : ActionId) (n : PlanActionNode)
        → get st.actions k ≡ some n
        → ServiceRole st.actions (values st.remove_container_ids) k n
    pub removing :
        (j : ActionId)
        → contains (values st.remove_container_ids) j ≡ true
        → (i : ServiceInstanceId) × Does st.actions j (remove_container i)

  -- A round of the loop keeps the removals and the errors.
  pub record Grows (st next : DownState) : Type 0 where
    pub removals :
        (j : ActionId)
        → contains (values st.remove_container_ids) j ≡ true
        → contains (values next.remove_container_ids) j ≡ true
    pub errors : Report.has_errors st.diagnostics ≡ true → Report.has_errors next.diagnostics ≡ true
    pub grown : Extends st.actions next.actions

  same-Grows : (st : DownState) → Grows st st
  same-Grows st = record { removals = λ j h. h; errors = λ h. h; grown = Extends-refl st.actions }

  -- The plan removes the container of the service.
  pub record IsRemoved (service : ServiceName) (st : DownState) : Type 0 where
    pub listed : contains (values st.remove_container_ids) (removal_id service) ≡ true
    pub does :
        Does st.actions
          (removal_id service)
          (remove_container (service_identity_for input.identity.working_set service))

  remove_service-DownInv :
      (service : ServiceName) (st : DownState)
      → DownInv st
      → Yields IsCollision
          (λ next. DownInv next × Grows st next × IsRemoved service next)
          (remove_service input service st)
  unfolding remove_service
  remove_service-DownInv service st inv =
      let identity = service_identity_for input.identity.working_set service in
      let stop = stop_node input identity in
      let remove = remove_node input identity stop.id in
      let ids = values st.remove_container_ids in
      let more = values (insert service remove.id st.remove_container_ids) in
      let member =
        λ (j : ActionId). contains-values-insert st.remove_container_ids service j inv.named in
      Yields->>= _
        (insert_action-Yields IsCollision-allowed st.actions stop inv.built
          (no_dependency-IsReady st.actions stop refl))
        (λ stopping i.
          let stopping_roles =
            ServiceRoles-Inserted st.actions stop stopping ids ids i (λ j h. h) inv.roles
              (stops identity refl) in
          Yields->>= _
            (insert_action-Yields IsCollision-allowed stopping remove i.built
              (one_dependency-IsReady stopping remove stop.id refl i.added))
            (λ removing r. yields (
              record {
                built = r.built;
                named = insert-IsNamed st.remove_container_ids service inv.named;
                removals_known = λ j h. ground (
                  arith,
                  h,
                  member j,
                  list_beq_iff remove.id j,
                  r.added,
                  i.kept j,
                  r.kept j,
                  r.key j,
                  inv.removals_known j,
                );
                roles =
                    ServiceRoles-Inserted stopping remove removing ids more r
                      (λ j h. ground (arith, member j, h)) stopping_roles
                      (removes identity stop.id stop refl
                        (ground (arith, member remove.id, =?_refl remove.id)) (contains-one stop.id)
                        (r.others stop.id
                            (ground (arith, r.new, i.added, list_beq_iff remove.id stop.id))
                          ∙ i.entry)
                        refl);
                removing = λ j h. elim (Bool-cases (remove.id =? j)) [
                  | inl same ↦
                      let e = (list_beq_iff remove.id j).0 same in
                      (identity, rw (← e) (Inserted-Does stopping remove removing r))
                  | inr other ↦
                      let (old, does) = inv.removing j (ground (arith, h, member j, other)) in
                      (old, (grown stopping i removing r).does j (remove_container old) does)
                ];
              },
              record {
                removals = λ j h. ground (arith, member j, h);
                errors = λ h. h;
                grown = grown stopping i removing r;
              },
              record {
                listed = ground (arith, member remove.id, =?_refl remove.id);
                does = Inserted-Does stopping remove removing r;
              },
            )))
    where
      grown :
          (stopping : Actions)
          → Inserted st.actions
              (stop_node input (service_identity_for input.identity.working_set service))
              stopping
          → (removing : Actions)
          → Inserted stopping
              (remove_node input
                (service_identity_for input.identity.working_set service)
                (stop_node input (service_identity_for input.identity.working_set service)).id)
              removing
          → Extends st.actions removing
      grown stopping i removing r =
          Extends-trans st.actions stopping removing (Inserted-Extends st.actions _ stopping i)
            (Inserted-Extends stopping _ removing r)

  -- The service is active, and an owned container claims it.
  pub record IsOwned (owned : OwnedResourceIndex) (s : ServiceName) : Type 0 where
    pub active : contains input.selection.active_services s ≡ true
    pub first : Text
    pub others : List Text
    pub listed : get owned.containers_by_service s ≡ some (first ∷ others)

  -- Its container is removed, or an error is reported.
  abbrev pub Handled : ServiceName → DownState → Type 0
  Handled s st = IsRemoved s st ⊎ (Report.has_errors st.diagnostics ≡ true)

  abbrev pub Round : (handled : DownState → Type 0) (st next : DownState) → Type 0
  Round handled st next = DownInv next × Grows st next × handled next

  reported-Round :
      (service : ServiceName) (st : DownState) (d : Diagnostic)
      → d.severity ≡ error
      → DownInv st
      → Round (Handled service) st (record st { diagnostics = Report.push st.diagnostics d })
  reported-Round service st d h inv = (
    record {
      built = inv.built;
      named = inv.named;
      removals_known = inv.removals_known;
      roles = inv.roles;
      removing = inv.removing;
    },
    record {
      removals = λ j h. h;
      errors = λ before. has_errors-push st.diagnostics d h;
      grown = Extends-refl st.actions;
    },
    inr (has_errors-push st.diagnostics d h),
  )

  down_owned-Round :
      (service : ServiceName) (id : Text) (ids : List Text) (st : DownState)
      → DownInv st
      → Yields IsCollision (Round (Handled service) st) (down_owned input service (id ∷ ids) st)
  unfolding down_owned
  down_owned-Round service id ids st inv =
      elim (Bool-cases (container_snapshot_incomplete input (id ∷ ids))) [
        | inl partial ↦ rw (partial, down_owned) (yields (reported-Round service st _ refl inv))
        | inr complete ↦
            rw (complete, down_owned)
              (Yields-map (remove_service-DownInv service st inv) (λ next r. (r.0, r.1, inl r.2)))
      ]

  nothing_done :
      (st : DownState) (owned : OwnedResourceIndex) (service : ServiceName)
      → DownInv st
      → ¬ IsOwned owned service
      → Yields IsCollision (Round (λ next. IsOwned owned service → Handled service next) st) (ok st)
  nothing_done st owned service inv not_owned =
      yields (inv, same-Grows st, λ is_owned. absurd (not_owned is_owned))

  down_listed-Round :
      (owned : OwnedResourceIndex) (service : ServiceName) (st : DownState) (listed : List Text)
      → get owned.containers_by_service service ≡ some listed
      → DownInv st
      → Yields IsCollision
          (Round (λ next. IsOwned owned service → Handled service next) st)
          (down_owned input service listed st)
  unfolding down_owned
  down_listed-Round owned service st [] found inv =
      nothing_done st owned service inv (λ o. cc (found, o.listed))
  down_listed-Round owned service st (id ∷ ids) found inv =
      Yields-map (down_owned-Round service id ids st inv) (λ next r. (r.0, r.1, λ _. r.2))

  down_service-Round :
      (owned : OwnedResourceIndex) (service : ServiceName) (st : DownState)
      → DownInv st
      → Yields IsCollision
          (Round (λ next. IsOwned owned service → Handled service next) st)
          (down_service input owned service st)
  unfolding down_service
  down_service-Round owned service st inv =
      elim (Bool-cases (contains input.selection.active_services service)) [
        | inr inactive ↦
            rw (inactive, down_service)
              (nothing_done st owned service inv (λ o. cc (inactive, o.active)))
        | inl active ↦ elim (Option-cases (get owned.containers_by_service service)) [
          | inl absent ↦
              rw (active, absent, down_service)
                (nothing_done st owned service inv (λ o. cc (absent, o.listed)))
          | inr (listed, found) ↦
              rw (active, found, down_service) (down_listed-Round owned service st listed found inv)
        ]
      ]

  Handled-Grows :
      (s : ServiceName) (st next : DownState) → Grows st next → Handled s st → Handled s next
  Handled-Grows s st next g (inl removed) = inl (record {
    listed = g.removals (removal_id s) removed.listed;
    does = g.grown.does (removal_id s) _ removed.does;
  })
  Handled-Grows s st next g (inr failed) = inr (g.errors failed)

  -- The loop keeps the invariant, and handles every owned service that it meets.
  pub down_services-Round :
      (owned : OwnedResourceIndex) (services : List ServiceName) (st : DownState)
      → DownInv st
      → Yields IsCollision
          (Round
            (λ next.
              (s : ServiceName) → contains services s ≡ true → IsOwned owned s → Handled s next)
            st)
          (down_services input owned services st)
  unfolding down_services contains
  down_services-Round owned [] st inv = yields (inv, same-Grows st, λ s m. cc)
  down_services-Round owned (service ∷ services) st inv =
      Yields->>= _ (down_service-Round owned service st inv)
        (λ mid (mid_inv, mid_grows, mid_handled).
          Yields-map (down_services-Round owned services mid mid_inv)
            (λ next (next_inv, next_grows, next_handled). (
              next_inv,
              record {
                removals = λ j h. next_grows.removals j (mid_grows.removals j h);
                errors = λ h. next_grows.errors (mid_grows.errors h);
                grown =
                    Extends-trans st.actions mid.actions next.actions mid_grows.grown
                      next_grows.grown;
              },
              λ s m is_owned. elim (Bool-cases (service =? s)) [
                | inl same ↦
                    let e = (list_beq_iff service s).0 same in
                    rw (← e)
                      (Handled-Grows service mid next next_grows (mid_handled (rw e is_owned)))
                | inr other ↦ next_handled s (ground (arith, m, other)) is_owned
              ],
            )))
