-- ===== src/Tests/Queues.antt =====
-- Runs of the queue, server/queue.c.
use moc.Shared.{
  ℕ, ◌≡◌, refl, true, false, none, some, List, [], ◌∷◌, map, arith, ◌==◌, if◌then◌else◌,
}
use moc.Server.Queue.{Ptr, Heap, Queue, queue_create, queue_free}
use moc.Server.Queue.Shape.{Cells, has, IsQueue}
use moc.Server.Queue.Fifo.{
  call_cells, Call, offer, serve, run, run_list, run-refines_list, queue_free_lem,
}

abbrev no_heap : Heap ℕ
no_heap = λ a. none

created : IsQueue no_heap queue_create []
unfolding queue_create
created = record { size = refl; top = refl; bottom = refl; linked = tt }

-- Two asynchronous entries, a synchronous one, and two served.
abbrev calls : List (Call ℕ)
calls = offer false 8 70 ∷ offer false 16 71 ∷ offer true 24 72 ∷ serve ∷ serve ∷ []

run-refines_list_example :
    (h' : Heap ℕ) × (q' : Queue) × (ys : Cells ℕ) × (run calls no_heap queue_create
      ≡ some (h', q', (run_list calls []).0))
    × IsQueue h' q' ys
    × (map (λ c. c.1) ys ≡ (run_list calls []).1)
unfolding call_cells
run-refines_list_example =
    run-refines_list calls [] created
      (
        ((λ e. absurd (omega arith)), refl),
        (
          ((λ e. absurd (omega arith)), refl),
          (((λ e. absurd (omega arith)), refl), (tt, (tt, tt))),
        ),
      )
      (omega arith)

-- Two entries at 8 and 16.
abbrev two_heap : Heap ℕ
two_heap = λ a.
    if a == 8
    then some (record { item = 70; prev = 16 })
    else (if a == 16 then some (record { item = 71; prev = 0 }) else none)

abbrev two_cells : Cells ℕ
two_cells = (8, 70) ∷ (16, 71) ∷ []

abbrev two_queue : Queue
two_queue = record { size = 2; top = 16; bottom = 8 }

two_linked : IsQueue two_heap two_queue two_cells
two_linked = record {
  size = refl;
  top = refl;
  bottom = refl;
  linked = ((λ e. absurd (omega arith)), refl, refl, ((λ e. absurd (omega arith)), refl, refl, tt));
}

queue_free_lem_example :
    (g : Heap ℕ) × (queue_free 3 two_queue two_heap ≡ some g)
    × ((a : Ptr) → g a ≡ (if has a two_cells then none else two_heap a))
queue_free_lem_example = queue_free_lem two_cells two_linked (omega arith)
