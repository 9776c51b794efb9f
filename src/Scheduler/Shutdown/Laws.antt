-- ===== src/Scheduler/Shutdown/Laws.antt =====
-- Once the context is cancelled, the goroutines come to an end.
use domainturva.Prelude.{
  ℕ, zero, suc, ◌+◌, ◌*◌, ◌<◌, ◌≤◌, ◌≡◌, ◌≢◌, refl, ap, ◌∙◌, true, List, [], ◌∷◌, ◌++◌, length,
  length-append, All, ◌⊎◌, inl, inr, arith,
}
use domainturva.Checker.{zero_result}
use domainturva.Scheduler.Shutdown.{
  Worker, delivering, Consumer, receiving, processing, Program, Quiet, stop_worker, finish_check,
  deliver, drop_result, receive, finish_process, stop_consumer, Quiets, done, more, HasReturned,
}

abbrev pub worker_rank : Worker → ℕ
worker_rank Worker.returned = 0
worker_rank Worker.waiting = 1
worker_rank (delivering r) = 5
worker_rank Worker.checking = 6

abbrev pub consumer_rank : Consumer → ℕ
consumer_rank Consumer.returned = 0
consumer_rank receiving = 1
consumer_rank (processing r) = 2

abbrev pub ranks : List Worker → ℕ
ranks [] = 0
ranks (w ∷ ws) = worker_rank w + ranks ws

-- A bound on the moves that are left.
abbrev pub moves_left : Program → ℕ
moves_left p = ranks p.workers + consumer_rank p.consumer + 3 * length p.buffer

ranks-append : (xs ys : List Worker) → ranks (xs ++ ys) ≡ ranks xs + ranks ys
ranks-append [] ys = omega arith
ranks-append (x ∷ xs) ys = omega (arith, ranks-append xs ys)

ranks_at :
    (before after : List Worker) (w : Worker)
    → ranks (before ++ (w ∷ after)) ≡ ranks before + (worker_rank w + ranks after)
ranks_at before after w = ranks-append before (w ∷ after)

Quiet-lt : (capacity : ℕ) {p q : Program} → Quiet capacity p q → moves_left q < moves_left p
Quiet-lt capacity (stop_worker p before after at c) = rw at (omega (arith, ranks_at before after))
Quiet-lt capacity (finish_check p before after r at) = rw at (omega (arith, ranks_at before after))
Quiet-lt capacity (deliver p before after r at room) =
    rw at (omega (arith, ranks_at before after, length-append {0} p.buffer (r ∷ [])))
Quiet-lt capacity (drop_result p before after r at c) = rw at (omega (arith, ranks_at before after))
Quiet-lt capacity (receive p r rest idle at) = rw (idle, at) (omega arith)
Quiet-lt capacity (finish_process p r at) = rw at (omega arith)
Quiet-lt capacity (stop_consumer p idle c) = rw idle (omega arith)

Quiet-cancelled : (capacity : ℕ) {p q : Program} → Quiet capacity p q → q.cancelled ≡ p.cancelled
Quiet-cancelled capacity (stop_worker p before after at c) = refl
Quiet-cancelled capacity (finish_check p before after r at) = refl
Quiet-cancelled capacity (deliver p before after r at room) = refl
Quiet-cancelled capacity (drop_result p before after r at c) = refl
Quiet-cancelled capacity (receive p r rest idle at) = refl
Quiet-cancelled capacity (finish_process p r at) = refl
Quiet-cancelled capacity (stop_consumer p idle c) = refl

Quiets-le :
    (capacity : ℕ) {n : ℕ} {p q : Program} → Quiets capacity n p q → n + moves_left q ≤ moves_left p
Quiets-le capacity (done p) = omega arith
Quiets-le capacity (more m ms) = omega (arith, Quiet-lt capacity m, Quiets-le capacity ms)

-- A worker that has not returned, if there is one.
Running : List Worker → Type 0
Running ws =
    All (λ w. w ≡ Worker.returned) ws
    ⊎ ((before : List Worker) × (w : Worker) × (after : List Worker) × (ws ≡ before ++ (w ∷ after))
        × (w ≢ Worker.returned))

find-Running : (ws : List Worker) → Running ws
unfolding Running
find-Running [] = inl tt
find-Running (Worker.returned ∷ ws) = elim (find-Running ws) [
  | inl all ↦ inl (refl, all)
  | inr (before, w, after, at, ne) ↦
      inr (Worker.returned ∷ before, w, after, ap (λ l. Worker.returned ∷ l) at, ne)
]
find-Running (Worker.waiting ∷ ws) = inr ([], Worker.waiting, ws, refl, λ e. cc)
find-Running (Worker.checking ∷ ws) = inr ([], Worker.checking, ws, refl, λ e. cc)
find-Running (delivering r ∷ ws) = inr ([], delivering r, ws, refl, λ e. cc)

worker_move :
    (capacity : ℕ) (p : Program) (before : List Worker) (w : Worker) (after : List Worker)
    → p.cancelled ≡ true
    → p.workers ≡ before ++ (w ∷ after)
    → w ≢ Worker.returned
    → (q : Program) × Quiet capacity p q
worker_move capacity p before Worker.waiting after c at ne = (_, stop_worker p before after at c)
worker_move capacity p before Worker.checking after c at ne =
    (_, finish_check p before after zero_result at)
worker_move capacity p before (delivering r) after c at ne = (_, drop_result p before after r at c)
worker_move capacity p before Worker.returned after c at ne = absurd (ne refl)

consumer_move :
    (capacity : ℕ) (p : Program) (k : Consumer)
    → p.cancelled ≡ true
    → p.consumer ≡ k
    → (p.consumer ≡ Consumer.returned) ⊎ ((q : Program) × Quiet capacity p q)
consumer_move capacity p receiving c at = inr (_, stop_consumer p at c)
consumer_move capacity p (processing r) c at = inr (_, finish_process p r at)
consumer_move capacity p Consumer.returned c at = inl at

-- Where some goroutine has not returned, one of them can move on.
progress :
    (capacity : ℕ) (p : Program)
    → p.cancelled ≡ true
    → HasReturned p ⊎ ((q : Program) × Quiet capacity p q)
unfolding Running
progress capacity p c = elim (find-Running p.workers) [
  | inr (before, w, after, at, ne) ↦ inr (worker_move capacity p before w after c at ne)
  | inl all ↦ elim (consumer_move capacity p p.consumer c refl) [
    | inl stopped ↦ inl (record { workers = all; consumer = stopped })
    | inr move ↦ inr move
  ]
]

-- Fuel for the moves that are left.
drain :
    (capacity fuel : ℕ) (p : Program)
    → p.cancelled ≡ true
    → moves_left p ≤ fuel
    → (n : ℕ) × (q : Program) × Quiets capacity n p q × HasReturned q
drain capacity zero p c h = elim (progress capacity p c) [
  | inl over ↦ (0, p, done p, over)
  | inr (q, move) ↦ absurd (omega (arith, Quiet-lt capacity move))
]
drain capacity (suc fuel) p c h = elim (progress capacity p c) [
  | inl over ↦ (0, p, done p, over)
  | inr (q, move) ↦
      let (n, r, moves, over) =
        drain capacity fuel q (Quiet-cancelled capacity move ∙ c)
          (omega (arith, Quiet-lt capacity move)) in
      (suc n, r, more move moves, over)
]

Quiets-cancelled :
    (capacity : ℕ) {n : ℕ} {p q : Program} → Quiets capacity n p q → q.cancelled ≡ p.cancelled
Quiets-cancelled capacity (done p) = refl
Quiets-cancelled capacity (more m ms) = Quiets-cancelled capacity ms ∙ Quiet-cancelled capacity m

-- Once the context is cancelled, a sequence of moves in which no timer fires is at most as long as
-- a bound on the program's state, it can go on until every worker and the consumer have returned,
-- and some such sequence ends with all of them returned.
pub shutdown_ends :
    (capacity : ℕ) (p : Program)
    → p.cancelled ≡ true
    → ((n : ℕ) (q : Program)
        → Quiets capacity n p q
        → (n ≤ moves_left p) × (HasReturned q ⊎ ((r : Program) × Quiet capacity q r)))
      × ((n : ℕ) × (q : Program) × Quiets capacity n p q × HasReturned q)
shutdown_ends capacity p c = (
  λ n q moves. (
    omega (arith, Quiets-le capacity moves),
    progress capacity q (Quiets-cancelled capacity moves ∙ c),
  ),
  drain capacity (moves_left p) p c (omega arith),
)
