-- ===== src/Processor/Lifecycle/Laws.antt =====
-- What holds of a process (process.go) however its goroutines run, and that it can always be shut
-- down.
use xwork.Prelude.{
  ℕ, Bool, true, false, none, some, List, [], ◌∷◌, ◌++◌, String, ◌≡◌, refl, subst, arith, ◌⊎◌, inl,
  inr, ◌↔◌, In, In-keep, string_eq,
}
use xwork.Prelude.Result.{Result, ok, err}
use xwork.Job.{Time}
use xwork.Text.{Platform}
use xwork.Storage.{StorageAdapter}
use xwork.Processor.Moves.{dequeue}
use xwork.Processor.Passes.{check_for_orphaned_jobs}
use xwork.Processor.Work.{JobDefinitions}
use xwork.Processor.Lifecycle.{
  Loop, start_loops, is_orphan_loop, Process, process, shutdown, after_orphans, loop_round,
  after_dequeue, Step, Run,
}

-- What a process keeps to: `quit` is closed exactly when it was shut down, and before that each
-- goroutine that was started runs, but for the orphan check; no other is ever started.
pub record IsManaged {Store : Type 0} (queues : List String) (p : Process Store) : Type 0 where
  pub once : p.shut_down ≡ p.quit_closed
  pub alive :
      (loop : Loop)
      → In loop (start_loops queues)
      → is_orphan_loop loop ≡ false
      → In loop p.loops ⊎ (p.quit_closed ≡ true)
  pub known : (loop : Loop) → In loop p.loops → In loop (start_loops queues)

module _ {A : Type 0} where
  In-append : (x : A) (xs ys : List A) → In x (xs ++ ys) ↔ (In x xs ⊎ In x ys)
  In-append x [] ys = (λ h. inr h, λ h. elim h [ inl i ↦ absurd i | inr i ↦ i ])
  In-append x (y ∷ xs) ys =
      (λ h. ground (arith, In-append x xs ys), λ h. ground (arith, In-append x xs ys))

  -- an element of a list from which one is taken out
  In-without : (x y : A) (front back : List A) → In x (front ++ back) → In x (front ++ y ∷ back)
  In-without x y front back h = ground (arith, In-append x front back, In-append x front (y ∷ back))

abbrev pub stopping : {Store : Type 0} → Process Store → Process Store
stopping p = record p { shut_down = true; quit_closed = true }

shutdown-flags :
    {Store : Type 0} (p : Process Store) (down closed : Bool)
    → down ≡ closed
    → shutdown (record p { shut_down = down; quit_closed = closed }) ≡ ok (stopping p)
unfolding shutdown
shutdown-flags p true true e = refl
shutdown-flags p true false e = absurd cc
shutdown-flags p false true e = absurd cc
shutdown-flags p false false e = refl

shutdown-ok :
    {Store : Type 0} (p : Process Store)
    → p.shut_down ≡ p.quit_closed
    → shutdown p ≡ ok (stopping p)
shutdown-ok p once = shutdown-flags p p.shut_down p.quit_closed once

module _ (storage : StorageAdapter) (platform : Platform) (queues : List String) where
  open storage use {Store}

  after_orphans-IsManaged :
      (p : Process Store) (r : Bool × Store)
      → IsManaged queues p
      → IsManaged queues (after_orphans storage platform p r)
  after_orphans-IsManaged p (true, s) m = record { once = m.once; alive = m.alive; known = m.known }
  after_orphans-IsManaged p (false, s) m = record {
    once = m.once;
    alive = λ loop started calm. elim (m.alive loop started calm) [
      | inl runs ↦ inl ((In-keep _ loop p.loops).1 (runs, rw calm refl))
      | inr closed ↦ inr closed
    ];
    known = λ loop h. m.known loop ((In-keep _ loop p.loops).0 h).0;
  }

  loop_round-IsManaged :
      (loop : Loop) (accepted : Bool) (now : Time) (clock : ℕ → Time) (p : Process Store)
      → IsManaged queues p
      → IsManaged queues (loop_round storage platform loop accepted now clock p)
  loop_round-IsManaged Loop.scheduled_jobs accepted now clock p m = record {
    once = m.once;
    alive = m.alive;
    known = m.known;
  }
  loop_round-IsManaged Loop.failed_jobs accepted now clock p m = record {
    once = m.once;
    alive = m.alive;
    known = m.known;
  }
  loop_round-IsManaged Loop.heartbeats accepted now clock p m = record {
    once = m.once;
    alive = m.alive;
    known = m.known;
  }
  loop_round-IsManaged Loop.orphaned_jobs accepted now clock p m =
      after_orphans-IsManaged p (check_for_orphaned_jobs storage platform now clock p.store) m
  loop_round-IsManaged (Loop.queue name) true now clock p m = record {
    once = m.once;
    alive = m.alive;
    known = m.known;
  }
  loop_round-IsManaged (Loop.queue name) false now clock p m = m

  begin_task-IsManaged :
      (p : Process Store) (r : Result _ × Store)
      → IsManaged queues p
      → IsManaged queues (after_dequeue storage platform p r)
  begin_task-IsManaged p (err e, s) m = record { once = m.once; alive = m.alive; known = m.known }
  begin_task-IsManaged p (ok none, s) m = record { once = m.once; alive = m.alive; known = m.known }
  begin_task-IsManaged p (ok (some job), s) m = record {
    once = m.once;
    alive = m.alive;
    known = m.known;
  }

  module _ (definitions : JobDefinitions Store) where
    Step-IsManaged :
        {p q : Process Store}
        → Step storage platform definitions p q
        → IsManaged queues p
        → IsManaged queues q
    Step-IsManaged (Step.ticked p loop accepted now clock i) m =
        loop_round-IsManaged loop accepted now clock p m
    Step-IsManaged (Step.told p loop front back closed e) m = record {
      once = m.once;
      alive = λ other started calm. inr closed;
      known = λ other h. m.known other (rw e (In-without other loop front back h));
    }
    Step-IsManaged (Step.began p name front back now e) m =
        begin_task-IsManaged (record p { tasks = front ++ back }) (dequeue storage now name p.store)
          (record { once = m.once; alive = m.alive; known = m.known })
    Step-IsManaged (Step.finished p job done now stack e) m = record {
      once = m.once;
      alive = m.alive;
      known = m.known;
    }
    Step-IsManaged (Step.signalled p q e) m =
        let same : stopping p ≡ q = (let went = shutdown-ok p m.once in cc) in
        subst (IsManaged queues) same
          (record { once = refl; alive = λ loop started calm. inr refl; known = m.known })

    Run-IsManaged :
        {s : Store} {p : Process Store}
        → Run storage platform definitions (process queues s) p
        → IsManaged queues p
    Run-IsManaged Run.here = record {
      once = refl;
      alive = λ loop started calm. inl started;
      known = λ loop h. h;
    }
    Run-IsManaged (Run.next r st) = Step-IsManaged st (Run-IsManaged r)

    -- Once `quit` is closed, the loops can be told one after the other.
    tell_all :
        (s : Store) (loops : List Loop) (p : Process Store)
        → p.loops ≡ loops
        → p.quit_closed ≡ true
        → Run storage platform definitions (process queues s) p
        → (q : Process Store) × Run storage platform definitions (process queues s) q
          × (q.loops ≡ [])
          × (q.quit_closed ≡ true)
          × (q.store ≡ p.store)
    tell_all s [] p e closed r = (p, r, e, closed, refl)
    tell_all s (loop ∷ loops) p e closed r =
        tell_all s loops (record p { loops = loops }) refl closed
          (Run.next r (Step.told p loop [] loops closed e))

    -- In every state that a process reaches from its start by steps of its loops, of its tasks
    -- and of `Shutdown`, in any order: `quit` is closed exactly when it was shut down; until
    -- then every loop that was started runs, but for the orphan check, and no other does; one
    -- more `Shutdown` does not panic; and there are further steps after which no loop runs and
    -- `quit` is closed, with the store as it is.
    pub process-IsManaged :
        (s : Store) (p : Process Store)
        → Run storage platform definitions (process queues s) p
        → IsManaged queues p
          × (shutdown p ≡ ok (stopping p))
          × ((q : Process Store) × Run storage platform definitions (process queues s) q
              × (q.loops ≡ [])
              × (q.quit_closed ≡ true)
              × (q.store ≡ p.store))
    process-IsManaged s p r =
        let managed = Run-IsManaged r in
        let went = shutdown-ok p managed.once in
        (
          managed,
          went,
          tell_all s p.loops (stopping p) refl refl
              (Run.next r (Step.signalled p (stopping p) went)),
        )
