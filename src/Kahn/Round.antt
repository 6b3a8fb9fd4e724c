-- ===== src/Kahn/Round.antt =====
-- One round of the loop in Kahn.
use mathlib.Core.List.{append_assoc}
use susun.Prelude.{
  ℕ, ◌+◌, ◌-◌, ◌≡◌, true, false, ◌&&◌, ◌||◌, List, [], ◌∷◌, ◌++◌, arith, Eq, =?_refl, ◌==◌, inl,
  inr, Bool-cases,
}
use susun.IndexMap.{IndexMap, contains, contains-append, IsDistinct-append}
use susun.Kahn.{release, degree, dependents_of}
use susun.Kahn.Counting.{bit, depends, open_count, open_count-done, done_of_open_count}
use susun.Kahn.Releasing.{
  freed, HasDegrees, release-ready, get-release, contains-freed, IsDistinct-freed,
}
use susun.Kahn.Invariant.{IsOrdered-snoc, IsGraph, Inv, contains-middle, HasDegrees-of}

module _ {K : Type 0} ⦃e : Eq K⦄ (edges : IndexMap K (List K)) (nodes : List K)
    (g : IsGraph edges nodes) (k : K) (ready : List K) (indegree : IndexMap K ℕ) (order : List K)
    (inv : Inv edges nodes (k ∷ ready) indegree order) where
  fresh : contains order k ≡ false
  fresh = contains-middle order ready k inv.queue_distinct

  listed : contains nodes k ≡ true
  unfolding contains
  listed = inv.queue_nodes k (ground (arith, contains-append order (k ∷ ready) k, =?_refl k))

  no_open : open_count edges k order nodes ≡ 0
  unfolding contains
  no_open = ground (arith, inv.queued k listed, contains-append order (k ∷ ready) k, =?_refl k)

  done_step :
      (v : K)
      → open_count edges v order nodes
        ≡ open_count edges v (order ++ k ∷ []) nodes + bit (depends edges v k)
  done_step v = open_count-done edges v k order nodes g.distinct listed fresh

  has_degrees : HasDegrees indegree (dependents_of edges k)
  has_degrees =
      HasDegrees-of indegree (dependents_of edges k)
        λ d m. ground (arith, inv.degrees d (g.closed d k m))

  abbrev step_ready : List K
  step_ready = (release (dependents_of edges k) ready indegree).0

  ready_eq : step_ready ≡ ready ++ freed indegree (dependents_of edges k)
  ready_eq = release-ready (dependents_of edges k) ready indegree (g.simple k) has_degrees

  queue_eq :
      (order ++ k ∷ []) ++ step_ready
      ≡ (order ++ k ∷ ready) ++ freed indegree (dependents_of edges k)
  queue_eq = rw (ready_eq, append_assoc) (rw append_assoc)

  -- A node that becomes ready was not in the queue.
  freed_apart :
      (v : K)
      → contains (order ++ k ∷ ready) v ≡ true
      → contains (freed indegree (dependents_of edges k)) v ≡ false
  freed_apart v m = elim (Bool-cases (depends edges v k)) [
    | inl dep ↦ ground (
      arith,
      contains-freed indegree (dependents_of edges k) v,
      inv.queued v (g.closed v k dep),
      done_step v,
    )
    | inr other ↦ ground (arith, contains-freed indegree (dependents_of edges k) v)
  ]

  in_queue :
      (v : K)
      → contains ((order ++ k ∷ []) ++ step_ready) v
        ≡ (contains (order ++ k ∷ ready) v || (depends edges v k && degree indegree v - 1 == 0))
  in_queue v = rw queue_eq (
      ground (
        arith,
        contains-append (order ++ k ∷ ready) (freed indegree (dependents_of edges k)) v,
        contains-freed indegree (dependents_of edges k) v,
      ))

  pub round-Inv :
      Inv edges nodes step_ready
        (release (dependents_of edges k) ready indegree).1
        (order ++ k ∷ [])
  round-Inv = record {
    queue_distinct = rw queue_eq (
        IsDistinct-append (order ++ k ∷ ready) (freed indegree (dependents_of edges k))
          inv.queue_distinct (IsDistinct-freed indegree (dependents_of edges k) (g.simple k))
          freed_apart);
    queue_nodes = λ v m. ground (arith, in_queue v, inv.queue_nodes v, g.closed v k);
    degrees = λ v m. ground (
      arith,
      get-release (dependents_of edges k) ready indegree v (open_count edges v order nodes)
          (g.simple k),
      inv.degrees v m,
      done_step v,
    );
    queued = λ v m. ground (arith, in_queue v, inv.queued v m, inv.degrees v m, done_step v);
    ordered =
        IsOrdered-snoc edges nodes [] order k inv.ordered
          (λ u m d. done_of_open_count edges k u order nodes no_open m d);
  }
