-- ===== src/Scheduler/Shutdown.antt =====
-- The goroutines of `Run` and where they stand: the workers of `runWorker` and `runOne`, the consumer of
-- `consume`, and the context that a signal cancels. `Run` returns once all of them have returned.
pub mod Laws
use domainturva.Prelude.{
  ℕ, zero, suc, ◌+◌, ◌*◌, ◌<◌, ◌≤◌, ◌≡◌, ◌≢◌, refl, ap, ◌∙◌, Bool, true, List, [], ◌∷◌, ◌++◌,
  length, length-append, All, ◌⊎◌, inl, inr, arith,
}
use domainturva.Checker.{CheckResult, zero_result}

-- A worker waits for its timer, checks the site, waits to deliver a result, or has returned.
pub data Worker : Type 0 where
  waiting checking returned : Worker
  delivering : CheckResult → Worker

pub data Consumer : Type 0 where
  receiving returned : Consumer
  processing : CheckResult → Consumer

pub record Program : Type 0 where
  pub cancelled : Bool
  pub workers : List Worker
  pub consumer : Consumer
  pub buffer : List CheckResult

abbrev with_workers : Program → List Worker → Worker → List Worker → Program
with_workers p before w after = record p { workers = before ++ (w ∷ after) }

-- The moves that no timer makes. A check returns, since it has a deadline.
pub data Quiet (capacity : ℕ) : Program → Program → Type 0 where
  -- `case <-ctx.Done()` of `runWorker`
  stop_worker :
      (p : Program) (before after : List Worker)
      → p.workers ≡ before ++ (Worker.waiting ∷ after)
      → p.cancelled ≡ true
      → Quiet capacity p (with_workers p before Worker.returned after)
  finish_check :
      (p : Program) (before after : List Worker) (r : CheckResult)
      → p.workers ≡ before ++ (Worker.checking ∷ after)
      → Quiet capacity p (with_workers p before (delivering r) after)
  -- `case out <- r` of `runOne`, and `timer.Reset`
  deliver :
      (p : Program) (before after : List Worker) (r : CheckResult)
      → p.workers ≡ before ++ (delivering r ∷ after)
      → length p.buffer < capacity
      → Quiet capacity p
          (record (with_workers p before Worker.waiting after) { buffer = p.buffer ++ (r ∷ []) })
  -- `case <-ctx.Done()` of `runOne`
  drop_result :
      (p : Program) (before after : List Worker) (r : CheckResult)
      → p.workers ≡ before ++ (delivering r ∷ after)
      → p.cancelled ≡ true
      → Quiet capacity p (with_workers p before Worker.waiting after)
  -- `case r, ok := <-in` of `consume`
  receive :
      (p : Program) (r : CheckResult) (rest : List CheckResult)
      → p.consumer ≡ receiving
      → p.buffer ≡ r ∷ rest
      → Quiet capacity p (record p { consumer = processing r; buffer = rest })
  finish_process :
      (p : Program) (r : CheckResult)
      → p.consumer ≡ processing r
      → Quiet capacity p (record p { consumer = receiving })
  -- `case <-ctx.Done()` of `consume`
  stop_consumer :
      (p : Program)
      → p.consumer ≡ receiving
      → p.cancelled ≡ true
      → Quiet capacity p (record p { consumer = Consumer.returned })

pub data Quiets (capacity : ℕ) : ℕ → Program → Program → Type 0 where
  done : (p : Program) → Quiets capacity zero p p
  more :
      {n : ℕ} {p q r : Program}
      → Quiet capacity p q
      → Quiets capacity n q r
      → Quiets capacity (suc n) p r

-- Every goroutine has returned.
pub record HasReturned (p : Program) : Type 0 where
  pub workers : All (λ w. w ≡ Worker.returned) p.workers
  pub consumer : p.consumer ≡ Consumer.returned
