-- ===== src/Steque/Examples.antt =====
-- gflib/steque.c: runs of the queue, and each theorem at a concrete steque.
use cache_server.Base.{ℕ, ◌≡◌, refl, none, some, List, [], ◌∷◌, ◌+◌, length, arith}
use cache_server.Steque.{
  Heap, Steque, node, write, Outcome, ok, ◌>>=◌, ◌>>◌, new_node, load, set_next, free, steque_init,
  steque_enqueue, steque_push, steque_pop, steque_cycle, steque_front, steque_size, steque_isempty,
  steque_destroy,
}
use cache_server.Steque.Chain.{IsSteque}
use cache_server.Steque.Refine.{Returns, SameOutside, steque}
use cache_server.Steque.Trace.{
  Call, enqueue, push, pop, cycle, size, isempty, front, Agrees, calls, list_call, list_calls,
}
use cache_server.Steque.Trace.Run.{trace-Agrees}
use cache_server.Steque.Destroy.{Freed, destroy-IsSteque}

program : Unit {0}
unfolding new_node load set_next free steque_init steque_enqueue steque_push steque_pop steque_cycle
    steque_front steque_size steque_isempty steque_destroy
program = tt

-- Two nodes, at 1 and 2, with the items 10 and 20.
abbrev two_nodes : Heap ℕ
two_nodes a = write (write (λ _. none) 1 (some (node 10 2))) 2 (some (node 20 0)) a

abbrev two_items : Steque ℕ
two_items = steque 1 2 2 two_nodes

abbrev no_items : Steque ℕ
no_items = steque 0 0 0 (λ _. none)

two_items-IsSteque : IsSteque two_items ((1, 10) ∷ (2, 20) ∷ [])
two_items-IsSteque = record {
  linked = ground arith;
  front = refl;
  back = refl;
  count = refl;
  small = omega arith;
}

no_items-IsSteque : IsSteque no_items []
no_items-IsSteque = record {
  linked = tt;
  front = refl;
  back = refl;
  count = refl;
  small = omega arith;
}

abbrev result : Outcome ℕ ℕ → ℕ
result (ok v s) = v
result _ = 99

-- Enqueue 10 and 20, push 5, rotate: the front is 10, and 5 comes out last.
rotated :
    result (
      (do
        steque_init
        steque_enqueue 1 10
        steque_enqueue 2 20
        steque_push 3 5
        steque_cycle
        _ ← steque_pop
        _ ← steque_pop
        steque_pop)
        no_items)
    ≡ 5
unfolding program
rotated = refl

destroy-IsSteque_example : Returns (steque_destroy 3 two_items) (λ _ t.
    IsSteque t []
    × Freed ((1, 10) ∷ (2, 20) ∷ []) t.heap
    × SameOutside ((1, 10) ∷ (2, 20) ∷ []) two_nodes t.heap)
destroy-IsSteque_example =
    destroy-IsSteque 3 two_items ((1, 10) ∷ (2, 20) ∷ []) two_items-IsSteque (omega arith)

abbrev some_calls : List (Call ℕ)
some_calls = enqueue 10 ∷ push 5 ∷ cycle ∷ pop ∷ size ∷ pop ∷ isempty ∷ front ∷ []

-- Looking at the front of the empty steque ends the process.
some_calls_end : list_calls some_calls [] ≡ none
unfolding list_calls list_call
some_calls_end = refl

trace-Agrees_example :
    Agrees
      (1 + length some_calls)
      (list_calls some_calls [])
      ((steque_init >> calls some_calls 1) no_items)
trace-Agrees_example = trace-Agrees some_calls 1 no_items (λ p le. refl) (omega arith) (omega arith)
