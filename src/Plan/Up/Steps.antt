-- ===== src/Plan/Up/Steps.antt =====
-- crates/susun-planner/src/up/resources.rs: the steps of the loops over the resources.
use susun.Prelude.{
  ◌≡◌, true, false, ◌=?◌, list_beq_iff, arith, refl, List, [], ◌∷◌, Text, text, list_eq, nat_eq,
  Bool-cases, inl, inr,
}
use susun.IndexMap.{contains}
use susun.Plan.{ActionId, PlanAction, PlanActionNode, ActionReason, safe, up}
use susun.Plan.Dag.{PlanResult, ◌>>=◌}
use susun.Plan.Input.{Actions, PlanningInput, make_action_id, new_node}
use susun.Plan.Naming.{NamingPolicy}
use susun.Plan.Yields.{Yields, yields, Yields->>=, Yields-map, insert_action-Yields}
use susun.Plan.Ready.{no_dependency-IsReady}
use susun.Plan.Up.Resources.{UpResourceActions, ResourceState, add_resource}
use susun.Plan.Up.Grown.{Inserted-Extends}
use susun.Plan.Up.Waits.{IsUpError, IsUpError-allowed}
use susun.Plan.Up.Noted.{ResourcesInv, Noting}
use susun.Plan.Up.Facts.{Noted, HasEntry}
use susun.Plan.Up.Grown.{Does, Inserted-Does, Extends}
use susun.Plan.Ready.{has_errors-push}
use susun.Diagnostics.{Diagnostic, error}
use susun.Diagnostics.Report

module _ (input : PlanningInput) (naming : NamingPolicy) where
  -- An entry of a map, in a state of the planning.
  abbrev pub Has : Noted → Text → ResourceState → Type 0
  Has kind name st = HasEntry input naming kind st.planned st.actions name

  -- From a state to a later one: no entry is lost, and without an error `P` holds.
  pub record Step (P : ResourceState → Type 0) (st next : ResourceState) : Type 0 where
    pub inv : ResourcesInv next
    pub clean_before :
        Report.has_errors next.diagnostics ≡ false → Report.has_errors st.diagnostics ≡ false
    pub kept : (kind : Noted) (name : Text) → Has kind name st → Has kind name next
    pub gives : Report.has_errors next.diagnostics ≡ false → P next

  pub same-Step :
      (P : ResourceState → Type 0) (st : ResourceState) → ResourcesInv st → P st → Step P st st
  same-Step P st inv p = record {
    inv = inv;
    clean_before = λ h. h;
    kept = λ k n h. h;
    gives = λ h. p;
  }

  pub reported-Step :
      (P : ResourceState → Type 0) (st : ResourceState) (d : Diagnostic)
      → d.severity ≡ error
      → ResourcesInv st
      → Step P st (record st { diagnostics = Report.push st.diagnostics d })
  reported-Step P st d h inv = record {
    inv = record { built = inv.built; provided = inv.provided };
    clean_before = λ clean. cc (clean, has_errors-push st.diagnostics d h);
    kept = λ k n p. record { entry = p.entry; noted = p.noted; ready = p.ready };
    gives = λ clean. cc (clean, has_errors-push st.diagnostics d h);
  }

  -- The planning of one name and that of the others.
  pub list-Step :
      (P : Text → ResourceState → Type 0) (st : ResourceState) (name : Text) (names : List Text)
      (m : PlanResult ResourceState) (rest : ResourceState → PlanResult ResourceState)
      → ((n : Text) (a b : ResourceState)
          → ((kind : Noted) → Has kind n a → Has kind n b)
          → P n a
          → P n b)
      → Yields IsUpError (Step (P name) st) m
      → ((next : ResourceState)
          → ResourcesInv next
          → Yields IsUpError
              (Step (λ s. (n : Text) → contains names n ≡ true → P n s) next)
              (rest next))
      → Yields IsUpError
          (Step (λ s. (n : Text) → contains (name ∷ names) n ≡ true → P n s) st)
          (m >>= rest)
  unfolding contains
  list-Step P st name names m rest keep one others = Yields->>= rest one (λ mid first.
      Yields-map (others mid first.inv) (λ next later. record {
        inv = later.inv;
        clean_before = λ h. first.clean_before (later.clean_before h);
        kept = λ k n h. later.kept k n (first.kept k n h);
        gives = λ clean n m. elim (Bool-cases (name =? n)) [
          | inl same ↦
              let e = (list_beq_iff name n).0 same in
              rw (← e) (
                keep name mid next (λ k h. later.kept k name h)
                  (first.gives (later.clean_before clean)))
          | inr other ↦ later.gives clean n (ground (arith, m, other))
        ];
      }))

  -- A stage and the next one.
  pub stage-Step :
      (P Q : ResourceState → Type 0) (st : ResourceState) (m : PlanResult ResourceState)
      (rest : ResourceState → PlanResult ResourceState)
      → ((a b : ResourceState)
          → ((kind : Noted) (n : Text) → Has kind n a → Has kind n b)
          → P a
          → P b)
      → Yields IsUpError (Step P st) m
      → ((next : ResourceState) → ResourcesInv next → Yields IsUpError (Step Q next) (rest next))
      → Yields IsUpError (Step (λ s. P s × Q s) st) (m >>= rest)
  stage-Step P Q st m rest keep one others = Yields->>= rest one (λ mid first.
      Yields-map (others mid first.inv) (λ next later. record {
        inv = later.inv;
        clean_before = λ h. first.clean_before (later.clean_before h);
        kept = λ k n h. later.kept k n (first.kept k n h);
        gives = λ clean.
            (keep mid next later.kept (first.gives (later.clean_before clean)), later.gives clean);
      }))

  module _ (st : ResourceState) (inv : ResourcesInv st) where
    -- No entry is lost where the maps stay, or get an entry of their kind.
    abbrev pub Keeping : PlanAction → (ActionId → UpResourceActions) → Type 0
    Keeping action note =
        (next : Actions) (id : ActionId)
        → Extends st.actions next
        → Does next id action
        → (kind : Noted) (name : Text) → Has kind name st
        → HasEntry input naming kind (note id) next name

    pub add_resource-Step :
        (P : ResourceState → Type 0) (action : PlanAction) (reason : ActionReason) (message : Text)
        (note : ActionId → UpResourceActions)
        → Noting st note
        → Keeping action note
        → ((next : Actions) (id : ActionId)
            → Does next id action
            → P (record st { actions = next; planned = note id }))
        → Yields IsUpError (Step P st) (add_resource input action reason message note st)
    unfolding add_resource
    add_resource-Step P action reason message note noting keeping new =
        let id = make_action_id up input action (text "0") in
        let node : PlanActionNode = new_node id action [] reason message safe in
        Yields->>= _
          (insert_action-Yields IsUpError-allowed st.actions node inv.built
            (no_dependency-IsReady st.actions node refl))
          (λ next i.
            let x = Inserted-Extends st.actions node next i in
            let does = Inserted-Does st.actions node next i in
            yields (record {
              inv = record { built = i.built; provided = noting next id x i.added };
              clean_before = λ h. h;
              kept = λ k n h. keeping next id x does k n h;
              gives = λ clean. new next id does;
            }))
