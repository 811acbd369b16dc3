-- ===== src/Server/Examples.antt =====
-- gflib/gfserver.c: two workers and a request for `/a`, and a queue of two requests.
use cache_server.Base.{◌+◌, ◌<◌, ◌≡◌, ◌≢◌, refl, arith, ◌⊎◌, some, none, ℕ, ◌∷◌, [], ◌++◌, length}
use cache_server.Base.Int.{pos}
use cache_server.Text.{codes, cstring}
use cache_server.Rio.{Got}
use cache_server.Getfile.{parse_head, parse_string, word}
use cache_server.Steque.{Heap, Steque, node, write}
use cache_server.Steque.Chain.{Cells, IsSteque}
use cache_server.Steque.Refine.{Returns, steque}
use cache_server.Server.Concrete.{Represents, queue_task, next_task, drain, first, refines}
use cache_server.Server.{
  Task, accepting, gfserver_stop, take_task, Server, signalling, gfserver_init, gfserver_serve,
  add_task, request_path,
}
use cache_server.Server.Queue.{serves, Reach, starts, step_to, in_order, no_lost_wakeup}

abbrev head_a : Got
head_a = record {
  result = some (pos 19);
  bytes = codes "GETFILE GET /a \r\n\r\n";
  incoming = [];
  answers = [];
}

abbrev queued : Server
queued = (gfserver_serve 5 head_a (gfserver_init 2)).0

queued-Reach : Reach 2 queued
unfolding gfserver_init
queued-Reach = step_to (gfserver_init 2) queued starts (serves 5 head_a (gfserver_init 2) refl)

queued_one : queued.queue ≢ []
unfolding gfserver_serve add_task request_path gfserver_init parse_head parse_string cstring word
queued_one e = cc

in_order_example :
    (queued.taken ++ queued.queue ≡ queued.added)
    × (queued.awake + queued.asleep + length queued.serving ≡ 2)
in_order_example = in_order 2 queued (omega arith) queued-Reach

no_lost_wakeup_example : (0 < queued.awake + length queued.serving) ⊎ (queued.boss ≡ signalling)
no_lost_wakeup_example = no_lost_wakeup 2 queued (omega arith) queued-Reach queued_one

-- A queue of two tasks, in two nodes, with one worker about to lock the mutex.
abbrev task : ℕ → Task
task n = record { path = codes "/a"; ctx = n }

abbrev two_cells : Cells Task
two_cells = (1, task 5) ∷ (2, task 6) ∷ []

abbrev task_nodes : Heap Task
task_nodes a = write (write (λ _. none) 1 (some (node (task 5) 2))) 2 (some (node (task 6) 0)) a

abbrev two_tasks : Steque Task
two_tasks = steque 1 2 2 task_nodes

two_tasks-IsSteque : IsSteque two_tasks two_cells
two_tasks-IsSteque = record {
  linked = ground arith;
  front = refl;
  back = refl;
  count = refl;
  small = omega arith;
}

abbrev busy : Server
busy = record {
  boss = accepting;
  queue = task 5 ∷ task 6 ∷ [];
  awake = 1;
  asleep = 0;
  serving = [];
  closed = [];
  added = task 5 ∷ task 6 ∷ [];
  taken = [];
}

abbrev busy_after : Server
busy_after = record busy {
  queue = task 6 ∷ [];
  awake = 0;
  serving = task 5 ∷ [];
  taken = task 5 ∷ [];
}

busy_takes : take_task busy ≡ some busy_after
unfolding take_task
busy_takes = refl

refines_example :
    Returns (queue_task 3 (task 7) two_tasks) (λ _ u. Represents u (add_task (task 7) busy).queue)
    × Returns
        (next_task two_tasks)
        (λ found u. (found ≡ first busy.queue) × Represents u busy_after.queue)
    × Returns (drain (length busy.queue + 1) two_tasks) (λ closes u.
      ((gfserver_stop busy).closed ≡ busy.closed ++ closes)
      × Represents u (gfserver_stop busy).queue)
refines_example =
    refines busy busy_after (task 7) 3 two_tasks (two_cells, two_tasks-IsSteque, refl) (omega arith)
      refl (omega arith) busy_takes
