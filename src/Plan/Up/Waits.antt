-- ===== src/Plan/Up/Waits.antt =====
-- crates/susun-planner/src/up/services.rs: what the waits for the dependencies of a service do to the actions.
use susun.Prelude.{
  ◌≡◌, refl, true, false, some, [], ◌∷◌, ◌⊎◌, arith, list_eq, nat_eq, ◌=?◌, =?_refl, list_beq_iff,
  Bool-cases, Option-cases, inl, inr, if◌then◌else◌, none,
}
use susun.IndexMap.{IndexMap, contains, get, keys}
use susun.Engine.{ServiceInstanceId, new_instance}
use susun.Model.{ServiceName, ServiceDependency, DependencyCondition}
use susun.Plan.{
  ActionId, PlanAction, PlanError, wait_for_dependency, invariant_violation, action_id_collision,
}
use susun.Plan.Dag.{ok}
use susun.Plan.Input.{PlanningInput, Actions}
use susun.Plan.Up.Resources.{named}
use susun.Plan.Naming.{NamingResult, NamingError, display_naming}
use susun.Plan.Built.{Inserted, dependencies_of-entry}
use susun.Plan.Yields.{
  Yields, yields, fails, Yields->>=, Yields-map, insert_action-Yields, IsCollision,
  IsCollision-allowed,
}
use susun.Plan.Ready.{contains-one, one_dependency-IsReady}
use susun.Plan.Up.Services.{
  debug_condition, is_started_condition, wait_node, add_wait, add_wait_actions,
}
use susun.Plan.Up.Grown.{
  Does, DependsOn, Extends, Extends-refl, Extends-trans, Extends-key, Inserted-Extends,
  Inserted-Does, Inserted-DependsOn, dependencies_of-inserted, IsLast, add_dependency_to-IsLast,
  add_dependency_to-Extends, add_dependency_to-DependsOn,
}

-- The errors of `plan_up`: two actions have one id, or a name is refused by the naming policy.
abbrev pub IsUpError : PlanError → Type 0
IsUpError e = IsCollision e ⊎ ((n : NamingError) × (e ≡ invariant_violation (display_naming n)))

pub IsUpError-allowed : (id : ActionId) → IsUpError (action_id_collision id)
IsUpError-allowed id = inl (IsCollision-allowed id)

pub named-Yields :
    {A : Type 0} (r : NamingResult A) → Yields IsUpError (λ a. r ≡ NamingResult.ok a) (named r)
named-Yields (NamingResult.ok a) = yields refl
named-Yields (NamingResult.err e) = fails (inr (e, refl))

-- A start waits for a condition of a dependency, and that wait for the start of the dependency.
pub record IsWaiting (actions : Actions) (start_id dependency_start : ActionId)
    (action : PlanAction) : Type 0 where
  pub wait_id : ActionId
  pub does : Does actions wait_id action
  pub behind : DependsOn actions wait_id dependency_start
  pub held : DependsOn actions start_id wait_id

pub IsWaiting-Extends :
    (actions next : Actions) (start_id dependency_start : ActionId) (action : PlanAction)
    → Extends actions next
    → IsWaiting actions start_id dependency_start action
    → IsWaiting next start_id dependency_start action
IsWaiting-Extends actions next start_id dependency_start action x w = record {
  wait_id = w.wait_id;
  does = x.does w.wait_id action w.does;
  behind = x.depends w.wait_id dependency_start w.behind;
  held = x.depends start_id w.wait_id w.held;
}

module _ (input : PlanningInput) (identity : ServiceInstanceId) (start_id : ActionId) where
  abbrev pub wait_action : ServiceName → DependencyCondition → PlanAction
  wait_action dependency condition =
      wait_for_dependency identity (new_instance input.identity.working_set dependency 0)
        (debug_condition condition)

  module _ (dependency : ServiceName) (condition : DependencyCondition)
      (dependency_start : ActionId) (actions : Actions) (last : IsLast actions start_id)
      (known : contains (keys actions) dependency_start ≡ true)
      (apart : (dependency_start =? start_id) ≡ false) where
    wait-Inserted-IsLast :
        (waiting : Actions)
        → Inserted actions (wait_node input identity dependency condition dependency_start) waiting
        → IsLast waiting start_id
    unfolding contains
    wait-Inserted-IsLast waiting i =
        let node = wait_node input identity dependency condition dependency_start in
        record {
          built = i.built;
          there = i.kept start_id last.there;
          unused = λ k. elim (Bool-cases (node.id =? k)) [
            | inl here ↦
                let e = (list_beq_iff node.id k).0 here in
                rw (← e, dependencies_of-entry waiting node.id node i.entry) (ground (arith, apart))
            | inr other ↦
                rw (dependencies_of-inserted actions node waiting i k other) (last.unused k)
          ];
        }

    add_wait-IsWaiting :
        Yields IsUpError
          (λ next.
            IsLast next start_id
            × Extends actions next
            × IsWaiting next start_id dependency_start (wait_action dependency condition))
          (add_wait input identity start_id dependency condition dependency_start actions)
    unfolding add_wait
    add_wait-IsWaiting =
        let node = wait_node input identity dependency condition dependency_start in
        Yields->>= _
          (insert_action-Yields IsUpError-allowed actions node last.built
            (one_dependency-IsReady actions node dependency_start refl known))
          (λ waiting i.
            let inserted = wait-Inserted-IsLast waiting i in
            let other : (node.id =? start_id) ≡ false =
              ground (arith, i.new, last.there, list_beq_iff node.id start_id) in
            let x = add_dependency_to-Extends waiting start_id node.id inserted i.added other in
            yields (
              add_dependency_to-IsLast waiting start_id node.id inserted i.added other,
              Extends-trans actions waiting _ (Inserted-Extends actions node waiting i) x,
              record {
                wait_id = node.id;
                does = x.does node.id node.action (Inserted-Does actions node waiting i);
                behind = x.depends node.id dependency_start (
                    Inserted-DependsOn actions node waiting i dependency_start
                      (contains-one dependency_start));
                held = add_dependency_to-DependsOn waiting start_id node.id inserted i.added other;
              },
            ))

  module _ (start_ids : IndexMap ServiceName ActionId) where
    -- The waits of a list of dependencies are there.
    abbrev pub AllWait : IndexMap ServiceName ServiceDependency → Actions → Type 0
    AllWait depends_on actions =
        (d : ServiceName) (v : ServiceDependency) (id : ActionId)
        → get depends_on d ≡ some v
        → is_started_condition v.condition ≡ false
        → get start_ids d ≡ some id
        → IsWaiting actions start_id id (wait_action d v.condition)

    abbrev OneWaits : ServiceName → ServiceDependency → Actions → Type 0
    OneWaits dependency v actions =
        (id : ActionId)
        → is_started_condition v.condition ≡ false
        → get start_ids dependency ≡ some id
        → IsWaiting actions start_id id (wait_action dependency v.condition)

    -- A round of the loop.
    one_wait :
        (dependency : ServiceName) (v : ServiceDependency) (actions : Actions)
        → IsLast actions start_id
        → ((id : ActionId) → get start_ids dependency ≡ some id → contains (keys actions) id ≡ true)
        → ((id : ActionId) → get start_ids dependency ≡ some id → (id =? start_id) ≡ false)
        → Yields IsUpError
            (λ next. IsLast next start_id × Extends actions next × OneWaits dependency v next)
            (if is_started_condition v.condition
              then ok actions
              else elim (get start_ids dependency) [
                | none ↦ ok actions
                | some dependency_start ↦
                    add_wait input identity start_id dependency v.condition dependency_start actions
              ])
    one_wait dependency v actions last known apart =
        elim (Bool-cases (is_started_condition v.condition)) [
          | inl started ↦ rw started (yields (last, Extends-refl actions, λ id h. cc))
          | inr waits ↦ elim (Option-cases (get start_ids dependency)) [
            | inl absent ↦ rw (waits, absent) (yields (last, Extends-refl actions, λ id w h. cc))
            | inr (dependency_start, found) ↦
                rw (waits, found)
                  (Yields-map
                    (add_wait-IsWaiting dependency v.condition dependency_start actions last
                      (known dependency_start found) (apart dependency_start found))
                    (λ next r.
                      (r.0, r.1, λ id w h. let e : dependency_start ≡ id = cc in rw (← e) r.2)))
          ]
        ]

    pub add_wait_actions-AllWait :
        (depends_on : IndexMap ServiceName ServiceDependency) (actions : Actions)
        → IsLast actions start_id
        → ((d : ServiceName) (id : ActionId)
            → get start_ids d ≡ some id
            → contains (keys actions) id ≡ true)
        → ((d : ServiceName) (id : ActionId)
            → contains (keys depends_on) d ≡ true
            → get start_ids d ≡ some id
            → (id =? start_id) ≡ false)
        → Yields IsUpError
            (λ next. IsLast next start_id × Extends actions next × AllWait depends_on next)
            (add_wait_actions input identity start_id start_ids depends_on actions)
    unfolding add_wait_actions get keys contains
    add_wait_actions-AllWait [] actions last known apart =
        yields (last, Extends-refl actions, λ d v id h. cc)
    add_wait_actions-AllWait ((dependency, v) ∷ depends_on) actions last known apart =
        Yields->>= _
          (one_wait dependency v actions last (known dependency)
            (λ id h. apart dependency id (ground (arith, =?_refl dependency)) h))
          (λ mid (mid_last, mid_grown, mid_waits).
            Yields-map
              (add_wait_actions-AllWait depends_on mid mid_last
                (λ d id h. Extends-key actions mid id mid_grown (known d id h))
                (λ d id m h. apart d id (ground (arith, m)) h))
              (λ next (next_last, next_grown, next_waits). (
                next_last,
                Extends-trans actions mid next mid_grown next_grown,
                λ d w id h c g. elim (Bool-cases (dependency =? d)) [
                  | inl same ↦
                      let e = (list_beq_iff dependency d).0 same in
                      let value : v ≡ w = ground (arith, h, same) in
                      rw (← e, ← value)
                        (IsWaiting-Extends mid next start_id id (wait_action dependency v.condition)
                          next_grown (mid_waits id (rw (← value) at c) (rw (← e) at g)))
                  | inr other ↦ next_waits d w id (ground (arith, h, other)) c g
                ],
              )))
