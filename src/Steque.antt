-- ===== src/Steque.antt =====
-- gflib/steque.c and steque.h: a stack-ended queue as a singly linked list of malloc'ed nodes.
-- The struct and the heap that its nodes live on are one state, `Steque`. An operation returns
-- the new state with its result, or faults (a read or write through `NULL` or a dangling pointer),
-- or ends the process with an exit status. `fresh` is the address that `malloc` returns.
-- `N` is a 32-bit `int`: `count` is its bit pattern, so `N++` and `N--` wrap modulo 2 ^ 32.
mod Memory
pub mod Chain
pub mod Refine
pub mod Front
pub mod Cycle
pub mod Destroy
pub mod Trace
mod Examples
use cache_server.Base.{
  ℕ, zero, suc, ◌+◌, ◌-◌, ◌%◌, ◌^◌, Bool, true, false, Option, none, some, ◌==◌, if◌then◌else◌,
}
use cache_server.Base.Int.{ℤ, negsuc}

abbrev pub Ptr : Type 0
Ptr = ℕ

abbrev pub null : Ptr
null = 0

abbrev pub int_mod : ℕ
int_mod = 2 ^ 32

-- `STEQUE_FAILURE`
abbrev pub steque_failure : ℤ
steque_failure = negsuc 0

module _ (A : Type 0) where
  -- `steque_node_t`
  pub record Node : Type 0 where
    pub item : A
    pub next : Ptr

  abbrev pub Heap : Type 0
  Heap = Ptr → Option Node

  -- `steque_t`, and the heap
  pub record Steque : Type 0 where
    pub front : Ptr
    pub back : Ptr
    pub count : ℕ
    pub heap : Heap

pub data Outcome (A B : Type 0) : Type 0 where
  ok : B → Steque A → Outcome A B
  fault : Outcome A B
  exits : ℤ → Outcome A B
  out_of_fuel : Outcome A B

abbrev pub Cmd : Type 0 → Type 0 → Type 0
Cmd A B = Steque A → Outcome A B

module _ {A : Type 0} where
  abbrev pub node : A → Ptr → Node A
  node v q = record { item = v; next = q }

  abbrev pub write : Heap A → Ptr → Option (Node A) → Heap A
  write h p c a = if a == p then c else h a

  abbrev pub pure : {B : Type 0} → B → Cmd A B
  pure b s = ok b s

  abbrev pub and_then : {B C : Type 0} → Outcome A B → (B → Cmd A C) → Outcome A C
  and_then (ok b s) k = k b s
  and_then fault k = fault
  and_then (exits code) k = exits code
  and_then out_of_fuel k = out_of_fuel

  infixl 5 ◌>>=◌ ◌>>◌
  abbrev pub ◌>>=◌ : {B C : Type 0} → Cmd A B → (B → Cmd A C) → Cmd A C
  ◌>>=◌ m k s = and_then (m s) k

  abbrev pub ◌>>◌ : {C : Type 0} → Cmd A (Unit {0}) → Cmd A C → Cmd A C
  m >> n = m >>= λ _. n

  -- The assignments to the struct's fields, and the current struct.
  abbrev pub get : Cmd A (Steque A)
  get s = ok s s

  abbrev pub set_front : Ptr → Cmd A (Unit {0})
  set_front p s = ok tt (record s { front = p })

  abbrev pub set_back : Ptr → Cmd A (Unit {0})
  set_back p s = ok tt (record s { back = p })

  abbrev pub set_count : ℕ → Cmd A (Unit {0})
  set_count n s = ok tt (record s { count = n })

  -- The stores to a node that `malloc` has just returned; writing through `NULL` faults.
  unfoldable pub new_node : Ptr → A → Ptr → Cmd A (Unit {0})
  new_node fresh v q s =
      if fresh == null
      then fault
      else ok tt (record s { heap = write s.heap fresh (some (node v q)) })

  unfoldable pub load : Ptr → Cmd A (Node A)
  load p s = if p == null then fault else elim (s.heap p) [ none ↦ fault | some n ↦ ok n s ]

  abbrev pub store : Ptr → Option (Node A) → Cmd A (Unit {0})
  store p c s = ok tt (record s { heap = write s.heap p c })

  -- `p->next = q`
  unfoldable pub set_next : Ptr → Ptr → Cmd A (Unit {0})
  unfolding load
  set_next p q = do n ← load p; store p (some (node n.item q))

  unfoldable pub free : Ptr → Cmd A (Unit {0})
  unfolding load
  free p = do _ ← load p; store p none

  unfoldable pub steque_init : Cmd A (Unit {0})
  steque_init = do set_front null; set_back null; set_count 0

  unfoldable pub steque_enqueue : Ptr → A → Cmd A (Unit {0})
  steque_enqueue fresh item = do
    new_node fresh item null
    s ← get
    if s.back == null then set_front fresh else set_next s.back fresh
    set_back fresh
    set_count ((s.count + 1) % int_mod)

  pub steque_push : Ptr → A → Cmd A (Unit {0})
  steque_push fresh item = do
    s ← get
    new_node fresh item s.front
    if s.back == null then set_back fresh else pure tt
    set_front fresh
    set_count ((s.count + 1) % int_mod)

  pub steque_size : Cmd A ℕ
  steque_size s = ok s.count s

  pub steque_isempty : Cmd A Bool
  steque_isempty s = ok (s.count == 0) s

  pub steque_pop : Cmd A A
  steque_pop = do
    s ← get
    if s.front == null then (λ _. exits steque_failure) else do
      n ← load s.front
      set_front n.next
      if n.next == null then set_back null else pure tt
      free s.front
      set_count ((s.count + int_mod - 1) % int_mod)
      pure n.item

  pub steque_cycle : Cmd A (Unit {0})
  steque_cycle = do
    s ← get
    if s.back == null then pure tt else do
      set_next s.back s.front
      set_back s.front
      n ← load s.front
      set_front n.next
      set_next s.front null

  pub steque_front : Cmd A A
  steque_front = do
    s ← get
    if s.front == null then (λ _. exits steque_failure) else do n ← load s.front; pure n.item

  -- `while(!steque_isempty(this)) steque_pop(this);`
  pub steque_destroy : ℕ → Cmd A (Unit {0})
  steque_destroy zero = λ _. out_of_fuel
  steque_destroy (suc fuel) = do
    empty ← steque_isempty
    elim empty [ true ↦ pure tt | false ↦ do _ ← steque_pop; steque_destroy fuel ]
