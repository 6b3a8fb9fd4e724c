-- ===== src/Plan/Up/Serving.antt =====
-- crates/susun-planner/src/up/services.rs: the actions of one service, and what they wait for.
use susun.Prelude.{
  ◌≡◌, refl, true, false, some, [], ◌∷◌, Text, text, arith, list_eq, nat_eq, ◌=?◌, list_beq_iff,
  =?_refl, Bool-cases, inl, inr,
}
use susun.IndexMap.{IndexMap, contains, get, keys, insert, get-insert}
use susun.Engine.{ServiceInstanceId, new_instance}
use susun.Model.{ServiceName, Service, ServiceDependency}
use susun.Plan.{ActionId, PlanActionNode, create_container, start_container, up}
use susun.Plan.Input.{PlanningInput, Actions, make_action_id}
use susun.Plan.Built.{IsBuilt, IsReady, Inserted}
use susun.Plan.Ready.{contains-one}
use susun.Plan.Yields.{Yields, yields, Yields->>=, insert_action-Yields}
use susun.Plan.Up.Resources.{UpResourceActions}
use susun.Plan.Up.Services.{
  ServiceState, is_started_condition, create_action, create_node, start_node, add_service,
  add_all_found, resource_dependencies,
}
use susun.Plan.Up.Grown.{
  found-key, Does, DependsOn, Extends, Extends-trans, Inserted-Extends, Inserted-Does,
  Inserted-DependsOn, Inserted-IsLast,
}
use susun.Plan.Up.Found.{
  AllKnown, AllKnown-insert, AllKnown-Extends, IsKnownSet, add_all_found-IsKnownSet,
  add_all_found-kept, add_all_found-found, AreProvided, AreProvided-Extends,
  resource_dependencies-IsKnownSet,
}
use susun.Plan.Up.Waits.{
  IsUpError, IsUpError-allowed, IsWaiting, IsWaiting-Extends, wait_action, AllWait,
  add_wait_actions-AllWait,
}

module _ (input : PlanningInput) where
  abbrev pub instance_of : ServiceName → ServiceInstanceId
  instance_of s = new_instance input.identity.working_set s 0

  -- The id of the start of a service.
  abbrev pub start_id : ServiceName → ActionId
  start_id s = make_action_id up input (start_container (instance_of s)) (text "0")

  -- The container of a service is created behind the resources that are planned for it, and started
  -- behind that, behind the starts of the dependencies in `P`, and behind the waits for their conditions.
  pub record IsServed (resources : UpResourceActions) (s : ServiceName) (service : Service)
      (runtime_name : Text) (P : ServiceName → Type 0) (actions : Actions) : Type 0 where
    pub create_id : ActionId
    pub creates :
        Does actions create_id
          (create_container (create_action input resources (instance_of s) service runtime_name))
    pub behind_resources :
        (u : ActionId)
        → contains (resource_dependencies s service resources) u ≡ true
        → DependsOn actions create_id u
    pub starts : Does actions (start_id s) (start_container (instance_of s))
    pub behind_create : DependsOn actions (start_id s) create_id
    pub behind_starts :
        (d : ServiceName)
        → contains (keys service.depends_on) d ≡ true
        → P d
        → DependsOn actions (start_id s) (start_id d)
    pub waits :
        (d : ServiceName) (v : ServiceDependency)
        → get service.depends_on d ≡ some v
        → is_started_condition v.condition ≡ false
        → P d
        → IsWaiting actions
            (start_id s)
            (start_id d)
            (wait_action input (instance_of s) (start_id s) d v.condition)

  pub IsServed-Extends :
      (resources : UpResourceActions) (s : ServiceName) (service : Service) (runtime_name : Text)
      (P Q : ServiceName → Type 0) (actions next : Actions)
      → Extends actions next
      → ((d : ServiceName) → contains (keys service.depends_on) d ≡ true → Q d → P d)
      → IsServed resources s service runtime_name P actions
      → IsServed resources s service runtime_name Q next
  IsServed-Extends resources s service runtime_name P Q actions next x f i = record {
    create_id = i.create_id;
    creates = x.does _ _ i.creates;
    behind_resources = λ u h. x.depends _ _ (i.behind_resources u h);
    starts = x.does _ _ i.starts;
    behind_create = x.depends _ _ i.behind_create;
    behind_starts = λ d m q. x.depends _ _ (i.behind_starts d m (f d m q));
    waits = λ d v h c q.
        IsWaiting-Extends actions next _ _ _ x
          (i.waits d v h c (f d (found-key service.depends_on d v h) q));
  }

  -- The invariant of the loop over the services.
  pub record UpInv (resources : UpResourceActions) (st : ServiceState) : Type 0 where
    pub built : IsBuilt st.actions
    pub provided : AreProvided resources st.actions
    pub starts : AllKnown st.start_ids st.actions
    pub named : (d : ServiceName) (id : ActionId) → get st.start_ids d ≡ some id → id ≡ start_id d

  abbrev pub IsStarted : ServiceState → ServiceName → Type 0
  IsStarted st d = get st.start_ids d ≡ some (start_id d)

  -- What the actions of one service do to the state.
  pub record Added (resources : UpResourceActions) (s : ServiceName) (service : Service)
      (runtime_name : Text) (st next : ServiceState) : Type 0 where
    pub inv : UpInv resources next
    pub grown : Extends st.actions next.actions
    pub served : IsServed resources s service runtime_name (IsStarted st) next.actions
    pub start_ids : next.start_ids ≡ insert s (start_id s) st.start_ids
    pub diagnostics : next.diagnostics ≡ st.diagnostics

  IsKnownSet-IsReady :
      (actions : Actions) (node : PlanActionNode)
      → IsKnownSet actions node.dependencies
      → IsReady actions node
  IsKnownSet-IsReady actions node s = record { distinct = s.distinct; known = s.known }

  one-IsKnownSet :
      (actions : Actions) (id : ActionId)
      → contains (keys actions) id ≡ true
      → IsKnownSet actions (id ∷ [])
  unfolding contains
  one-IsKnownSet actions id there = record {
    distinct = (refl, tt);
    known = λ u h. ground (arith, h, list_beq_iff id u, there);
  }

  insert-named :
      (ids : IndexMap Text ActionId) (s : ServiceName)
      → ((d : ServiceName) (id : ActionId) → get ids d ≡ some id → id ≡ start_id d)
      → (d : ServiceName) (id : ActionId) → get (insert s (start_id s) ids) d ≡ some id
      → id ≡ start_id d
  insert-named ids s named d id h = elim (Bool-cases (s =? d)) [
    | inl same ↦
        let e = (list_beq_iff s d).0 same in
        let value : start_id s ≡ id = ground (arith, h, get-insert ids s d (start_id s), same) in
        rw (← e, ← value) refl
    | inr other ↦ named d id (ground (arith, h, get-insert ids s d (start_id s), other))
  ]

  pub insert-IsStarted :
      (ids : IndexMap Text ActionId) (s d : ServiceName)
      → get ids d ≡ some (start_id d)
      → get (insert s (start_id s) ids) d ≡ some (start_id d)
  insert-IsStarted ids s d h = elim (Bool-cases (s =? d)) [
    | inl same ↦
        let e = (list_beq_iff s d).0 same in
        rw (← e) (ground (arith, get-insert ids s s (start_id s), =?_refl s))
    | inr other ↦ ground (arith, h, get-insert ids s d (start_id s), other)
  ]

  module _ (resources : UpResourceActions) (s : ServiceName) (service : Service)
      (runtime_name : Text) (st : ServiceState) (inv : UpInv resources st)
      (apart : contains (keys service.depends_on) s ≡ false) where
    abbrev create : PlanActionNode
    create = create_node input resources (instance_of s) service runtime_name

    abbrev start : PlanActionNode
    start =
        start_node input (instance_of s)
          (add_all_found st.start_ids (keys service.depends_on) (create.id ∷ []))

    create-IsReady : IsReady st.actions create
    create-IsReady =
        IsKnownSet-IsReady st.actions create
          (resource_dependencies-IsKnownSet st.actions s service resources inv.provided)

    module _ (creating : Actions) (i : Inserted st.actions create creating) where
      starts_known : AllKnown st.start_ids creating
      starts_known =
          AllKnown-Extends st.start_ids st.actions creating
            (Inserted-Extends st.actions create creating i) inv.starts

      start-IsReady : IsReady creating start
      start-IsReady = IsKnownSet-IsReady creating start (
          add_all_found-IsKnownSet creating st.start_ids starts_known (keys service.depends_on)
            (create.id ∷ []) (one-IsKnownSet creating create.id i.added))

      behind-start :
          (u : ActionId) → contains (create.id ∷ []) u ≡ true → contains start.dependencies u ≡ true
      behind-start u h =
          add_all_found-kept st.start_ids (keys service.depends_on) (create.id ∷ []) u h

      module _ (starting : Actions) (j : Inserted creating start starting) where
        abbrev start_ids : IndexMap ServiceName ActionId
        start_ids = insert s start.id st.start_ids

        x2 : Extends creating starting
        x2 = Inserted-Extends creating start starting j

        start_apart :
            (d : ServiceName) (id : ActionId)
            → contains (keys service.depends_on) d ≡ true
            → get start_ids d ≡ some id
            → (id =? start.id) ≡ false
        start_apart d id m h =
            let other : (s =? d) ≡ false = ground (arith, apart, m, list_beq_iff s d) in
            let old : get st.start_ids d ≡ some id =
              ground (arith, h, get-insert st.start_ids s d start.id, other) in
            ground (arith, starts_known d id old, j.new, list_beq_iff id start.id)

        waiting-Added :
            (waiting : Actions)
            → IsBuilt waiting
            → Extends starting waiting
            → AllWait input (instance_of s) start.id start_ids service.depends_on waiting
            → Added resources s service runtime_name st
                (record st { actions = waiting; start_ids = start_ids })
        waiting-Added waiting built x3 waits =
            let x = Extends-trans creating starting waiting x2 x3 in
            let all =
              Extends-trans st.actions creating waiting
                (Inserted-Extends st.actions create creating i) x in
            record {
              inv = record {
                built = built;
                provided = AreProvided-Extends resources st.actions waiting all inv.provided;
                starts = AllKnown-Extends start_ids starting waiting x3 (
                    AllKnown-insert st.start_ids s start.id starting
                      (AllKnown-Extends st.start_ids creating starting x2 starts_known) j.added);
                named = insert-named st.start_ids s inv.named;
              };
              grown = all;
              served = record {
                create_id = create.id;
                creates =
                    x.does create.id create.action (Inserted-Does st.actions create creating i);
                behind_resources = λ u h.
                    x.depends create.id u (Inserted-DependsOn st.actions create creating i u h);
                starts = x3.does start.id start.action (Inserted-Does creating start starting j);
                behind_create = x3.depends start.id create.id (
                    Inserted-DependsOn creating start starting j create.id
                      (behind-start create.id (contains-one create.id)));
                behind_starts = λ d m p. x3.depends start.id (start_id d) (
                    Inserted-DependsOn creating start starting j (start_id d) (
                      add_all_found-found st.start_ids (keys service.depends_on) (create.id ∷ []) d
                        (start_id d) m p));
                waits =
                    λ d v h c p. waits d v (start_id d) h c (insert-IsStarted st.start_ids s d p);
              };
              start_ids = refl;
              diagnostics = refl;
            }

    pub add_service-Added :
        Yields IsUpError
          (Added resources s service runtime_name st)
          (add_service input resources s service runtime_name st)
    unfolding add_service
    add_service-Added =
        Yields->>= _
          (insert_action-Yields IsUpError-allowed st.actions create inv.built create-IsReady)
          (λ creating i.
            Yields->>= _
              (insert_action-Yields IsUpError-allowed creating start i.built
                (start-IsReady creating i))
              (λ starting j.
                Yields->>= _
                  (add_wait_actions-AllWait input (instance_of s) start.id
                    (start_ids creating i starting j) service.depends_on starting
                    (Inserted-IsLast creating start starting i.built (start-IsReady creating i) j)
                    (AllKnown-insert st.start_ids s start.id starting
                      (AllKnown-Extends st.start_ids creating starting (x2 creating i starting j)
                        (starts_known creating i))
                      j.added)
                    (start_apart creating i starting j))
                  (λ waiting (last, x3, waits).
                    yields (waiting-Added creating i starting j waiting last.built x3 waits))))
