-- ===== src/Steque/Memory.antt =====
-- gflib/steque.c: reads and writes through a pointer to an allocated node.
use cache_server.Base.{◌≡◌, ◌≢◌, false, none, some, arith, ◌==◌}
use cache_server.Steque.{Ptr, null, Steque, Node, node, write, ok, new_node, load, set_next, free}

pub not_null : (p : Ptr) → p ≢ null → (p == null) ≡ false
not_null p ne = ground arith

module _ {A : Type 0} (s : Steque A) (p : Ptr) (real : p ≢ null) where
  pub new_node-ok :
      (v : A) (q : Ptr)
      → new_node p v q s ≡ ok tt (record s { heap = write s.heap p (some (node v q)) })
  unfolding new_node
  new_node-ok v q = rw (not_null p real)

  pub load-ok : (n : Node A) → s.heap p ≡ some n → load p s ≡ ok n s
  unfolding load
  load-ok n at = rw (not_null p real, at)

  pub set_next-ok :
      (n : Node A) (r : Ptr)
      → s.heap p ≡ some n
      → set_next p r s ≡ ok tt (record s { heap = write s.heap p (some (node n.item r)) })
  unfolding set_next
  set_next-ok n r at = rw (not_null p real, at)

  pub free-ok :
      (n : Node A) → s.heap p ≡ some n → free p s ≡ ok tt (record s { heap = write s.heap p none })
  unfolding free
  free-ok n at = rw (not_null p real, at)
