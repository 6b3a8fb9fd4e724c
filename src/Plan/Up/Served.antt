-- ===== src/Plan/Up/Served.antt =====
-- crates/susun-planner/src/up/services.rs: the loop of `plan_services`, and what it does for each service.
use susun.Prelude.{
  ◌≡◌, refl, true, false, some, ◌<◌, List, [], ◌∷◌, ◌⊎◌, Text, arith, list_eq, nat_eq, ◌=?◌,
  list_beq_iff, =?_refl, Bool-cases, Option-cases, inl, inr,
}
use susun.Kahn.Run.{index}
use susun.IndexMap.{contains, get, keys, get-insert}
use susun.Diagnostics.{Diagnostic, error}
use susun.Diagnostics.Report
use susun.Model.{ServiceName, Service}
use susun.Plan.Input.{PlanningInput}
use susun.Plan.Naming.{NamingPolicy, NamingResult}
use susun.Plan.Yields.{Yields, yields, Yields->>=, Yields-map}
use susun.Plan.Ready.{has_errors-push}
use susun.Plan.Up.Resources.{UpResourceActions}
use susun.Plan.Up.Services.{
  ServiceState, duplicate_container_claim, check_service, plan_known_service, plan_service,
  plan_services,
}
use susun.Plan.Up.Grown.{Extends, Extends-refl, Extends-trans}
use susun.Plan.Up.Waits.{IsUpError, named-Yields}
use susun.Plan.Up.Serving.{
  instance_of, start_id, IsServed, IsServed-Extends, UpInv, IsStarted, Added, add_service-Added,
  insert-IsStarted,
}

-- A service that the loop handles.
pub record IsSelected (input : PlanningInput) (s : ServiceName) (service : Service) : Type 0 where
  pub active : contains input.selection.active_services s ≡ true
  pub declared : get input.project.services s ≡ some service

module _ (input : PlanningInput) (naming : NamingPolicy) (resources : UpResourceActions) where
  -- The service has its actions, under the name that the policy gives.
  pub record HasActions (s : ServiceName) (service : Service) (P : ServiceName → Type 0)
      (st : ServiceState) : Type 0 where
    pub runtime_name : Text
    pub is_named : naming.container_name (instance_of input s) ≡ NamingResult.ok runtime_name
    pub served : IsServed input resources s service runtime_name P st.actions
    pub started : IsStarted input st s

  -- From a state to a later one.
  pub record Moves (st next : ServiceState) : Type 0 where
    pub inv : UpInv input resources next
    pub grown : Extends st.actions next.actions
    pub clean_before :
        Report.has_errors next.diagnostics ≡ false → Report.has_errors st.diagnostics ≡ false
    pub kept : (d : ServiceName) → IsStarted input st d → IsStarted input next d

  still : (st : ServiceState) → UpInv input resources st → Moves st st
  still st inv = record {
    inv = inv;
    grown = Extends-refl st.actions;
    clean_before = λ h. h;
    kept = λ d h. h;
  }

  Moves-trans : (a b c : ServiceState) → Moves a b → Moves b c → Moves a c
  Moves-trans a b c f g = record {
    inv = g.inv;
    grown = Extends-trans a.actions b.actions c.actions f.grown g.grown;
    clean_before = λ h. f.clean_before (g.clean_before h);
    kept = λ d h. g.kept d (f.kept d h);
  }

  HasActions-Moves :
      (s : ServiceName) (service : Service) (P Q : ServiceName → Type 0) (st next : ServiceState)
      → Moves st next
      → ((d : ServiceName) → contains (keys service.depends_on) d ≡ true → Q d → P d)
      → HasActions s service P st
      → HasActions s service Q next
  HasActions-Moves s service P Q st next m f h = record {
    runtime_name = h.runtime_name;
    is_named = h.is_named;
    served =
        IsServed-Extends input resources s service h.runtime_name P Q st.actions next.actions
          m.grown f h.served;
    started = m.kept s h.started;
  }

  -- What a round does for its service, if it reports no error.
  abbrev pub Serves : ServiceName → Service → (st next : ServiceState) → Type 0
  Serves s service st next =
      Report.has_errors next.diagnostics ≡ false → HasActions s service (IsStarted input st) next

  reported-Moves :
      (st : ServiceState) (d : Diagnostic)
      → d.severity ≡ error
      → UpInv input resources st
      → Moves st (record st { diagnostics = Report.push st.diagnostics d })
  reported-Moves st d h inv = record {
    inv = record {
      built = inv.built;
      provided = inv.provided;
      starts = inv.starts;
      named = inv.named;
    };
    grown = Extends-refl st.actions;
    clean_before = λ clean. cc (clean, has_errors-push st.diagnostics d h);
    kept = λ e k. k;
  }

  reported-Serves :
      (s : ServiceName) (service : Service) (st : ServiceState) (d : Diagnostic)
      → d.severity ≡ error
      → Serves s service st (record st { diagnostics = Report.push st.diagnostics d })
  reported-Serves s service st d h clean = cc (clean, has_errors-push st.diagnostics d h)

  module _ (s : ServiceName) (service : Service) (st : ServiceState)
      (inv : UpInv input resources st) (apart : contains (keys service.depends_on) s ≡ false) where
    Added-Moves :
        (runtime_name : Text) (next : ServiceState)
        → naming.container_name (instance_of input s) ≡ NamingResult.ok runtime_name
        → Added input resources s service runtime_name st next
        → Moves st next × Serves s service st next
    Added-Moves runtime_name next is_named a = (
      record {
        inv = a.inv;
        grown = a.grown;
        clean_before = λ h. rw (← a.diagnostics) h;
        kept = λ d h. rw a.start_ids (insert-IsStarted input st.start_ids s d h);
      },
      λ clean. record {
        runtime_name = runtime_name;
        is_named = is_named;
        served = a.served;
        started =
            rw a.start_ids
              (ground (arith, get-insert st.start_ids s s (start_id input s), =?_refl s));
      },
    )

    check_service-Moves :
        (runtime_name : Text)
        → naming.container_name (instance_of input s) ≡ NamingResult.ok runtime_name
        → Yields IsUpError
            (λ next. Moves st next × Serves s service st next)
            (check_service input resources s service runtime_name st)
    unfolding check_service
    check_service-Moves runtime_name is_named =
        elim (Bool-cases (duplicate_container_claim input (instance_of input s))) [
          | inl claimed ↦
              rw (claimed, check_service)
                (yields (reported-Moves st _ refl inv, reported-Serves s service st _ refl))
          | inr free ↦
              rw (free, check_service)
                (Yields-map (add_service-Added input resources s service runtime_name st inv apart)
                  (λ next a. Added-Moves runtime_name next is_named a))
        ]

    plan_known_service-Moves :
        Yields IsUpError
          (λ next. Moves st next × Serves s service st next)
          (plan_known_service input naming resources s service st)
    unfolding plan_known_service
    plan_known_service-Moves =
        Yields->>= _ (named-Yields (naming.container_name (instance_of input s)))
          (λ runtime_name is_named. check_service-Moves runtime_name is_named)

  -- What a round does, whatever its service is.
  abbrev ServedBy : ServiceName → (st next : ServiceState) → Type 0
  ServedBy s st next = (service : Service) → IsSelected input s service → Serves s service st next

  plan_service-Moves :
      (s : ServiceName) (st : ServiceState)
      → UpInv input resources st
      → ((service : Service)
          → IsSelected input s service
          → contains (keys service.depends_on) s ≡ false)
      → Yields IsUpError
          (λ next. Moves st next × ServedBy s st next)
          (plan_service input naming resources s st)
  unfolding plan_service
  plan_service-Moves s st inv apart =
      elim (Bool-cases (contains input.selection.active_services s)) [
        | inr inactive ↦
            rw (inactive, plan_service)
              (yields (still st inv, λ service is. cc (inactive, is.active)))
        | inl active ↦ elim (Option-cases (get input.project.services s)) [
          | inl absent ↦
              rw (active, absent, plan_service)
                (yields (still st inv, λ service is. cc (absent, is.declared)))
          | inr (service, found) ↦
              rw (active, found, plan_service)
                (Yields-map
                  (plan_known_service-Moves s service st inv
                    (apart service (record { active = active; declared = found })))
                  (λ next r. (
                    r.0,
                    λ other is.
                        let e : service ≡ other = ground (arith, found, is.declared) in
                        rw (← e) r.1,
                  )))
        ]
      ]

  -- A service that is started already, or one that stands earlier in the list.
  abbrev pub IsEarlier : List ServiceName → ServiceState → (s d : ServiceName) → Type 0
  IsEarlier order st s d =
      IsStarted input st d
      ⊎ ((service : Service) × IsSelected input d service × (index order d < index order s))

  IsEarlier-first :
      (x : ServiceName) (order : List ServiceName) (st : ServiceState) (s d : ServiceName)
      → (x =? s) ≡ true
      → IsEarlier (x ∷ order) st s d
      → IsStarted input st d
  unfolding index
  IsEarlier-first x order st s d here (inl started) = started
  IsEarlier-first x order st s d here (inr (service, is, before)) =
      absurd (ground (arith, before, here))

  IsEarlier-rest :
      (x : ServiceName) (order : List ServiceName) (st mid : ServiceState) (s d : ServiceName)
      → (x =? s) ≡ false
      → Moves st mid
      → ServedBy x st mid
      → Report.has_errors mid.diagnostics ≡ false
      → IsEarlier (x ∷ order) st s d
      → IsEarlier order mid s d
  unfolding index
  IsEarlier-rest x order st mid s d other moves served clean (inl started) =
      inl (moves.kept d started)
  IsEarlier-rest x order st mid s d other moves served clean (inr (service, is, before)) =
      elim (Bool-cases (x =? d)) [
        | inl same ↦
            let e = (list_beq_iff x d).0 same in
            let own : IsSelected input x service = rw e is in
            let started = (served service own clean).started in inl (rw (← e) started)
        | inr apart ↦ inr (service, is, ground (arith, before, other, apart))
      ]

  pub plan_services-Moves :
      (order : List ServiceName) (st : ServiceState)
      → UpInv input resources st
      → ((s : ServiceName) (service : Service)
          → IsSelected input s service
          → contains (keys service.depends_on) s ≡ false)
      → Yields IsUpError
          (λ next.
            Moves st next
            × ((s : ServiceName) (service : Service)
                → contains order s ≡ true
                → IsSelected input s service
                → Report.has_errors next.diagnostics ≡ false
                → HasActions s service (IsEarlier order st s) next))
          (plan_services input naming resources order st)
  unfolding plan_services contains index
  plan_services-Moves [] st inv apart = yields (still st inv, λ s service m. cc)
  plan_services-Moves (x ∷ order) st inv apart =
      Yields->>= _ (plan_service-Moves x st inv (apart x)) (λ mid (first, by_first).
        Yields-map (plan_services-Moves order mid first.inv apart) (λ next (later, by_later). (
          Moves-trans st mid next first later,
          λ s service m is clean. elim (Bool-cases (x =? s)) [
            | inl same ↦
                let e = (list_beq_iff x s).0 same in
                HasActions-Moves s service (IsStarted input st) (IsEarlier (x ∷ order) st s) mid
                  next later (λ d _ q. IsEarlier-first x order st s d same q)
                  (let own : ServedBy s st mid = rw (← e) by_first in
                    own service is (later.clean_before clean))
            | inr other ↦
                HasActions-Moves s service (IsEarlier order mid s) (IsEarlier (x ∷ order) st s) next
                  next (still next later.inv)
                  (λ d _ q.
                    IsEarlier-rest x order st mid s d other first by_first
                      (later.clean_before clean) q)
                  (by_later s service (ground (arith, m, other)) is clean)
          ],
        )))
