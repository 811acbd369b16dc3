-- ===== src/Channel/Facts/Sent.antt =====
-- cache/handle_with_cache.c: what the handler takes out of the data area and sends.
use native.Mathlib.Nat.{mod-eq_of_lt}
use cache_server.Base.{
  ℕ, ◌+◌, ◌<◌, ◌^◌, ◌≡◌, refl, sym, ap, ◌∙◌, List, ◌++◌, arith, take, drop, append_assoc,
  take-append-drop,
}
use cache_server.Base.Int.{ℤ}
use cache_server.Channel.{Status, writable, readable, Block, chunk, ServerPc, to_size}
use cache_server.Channel.{len_lock, len_hold, len_sleep}
use cache_server.Channel.Invariant.{Slot, Early, Announced}

-- What the handler is about to send, with what is still to come, is the rest of the file.
pub record Pending (bs : List ℕ) (b : Block) (given gone : ℕ) : Type 0 where
  pub moved : given ≡ gone + to_size b.readlen
  pub rest : chunk b ++ drop given bs ≡ drop gone bs

pub Slot-Pending :
    (bs : List ℕ) (b : Block) (given gone : ℕ) (st : Status)
    → given < 2 ^ 64
    → st ≡ readable
    → Slot bs b given gone st
    → Pending bs b given gone
unfolding chunk
Slot-Pending bs b given gone writable lt r s = cc
Slot-Pending bs b given gone readable lt r (n, e, moved, at) =
    let same : to_size b.readlen ≡ n = ap to_size e ∙ mod-eq_of_lt (omega arith) in
    record { moved = rw same moved; rest = rw same at }

-- A chunk in the area means that the length has been announced.
pub late_of_readable :
    (fl : ℤ) (p : ServerPc) (b : Block)
    → Early p b
    → Announced fl p b
    → b.status ≡ readable
    → b.filelen ≡ fl
late_of_readable fl len_lock b (w, r) ann e = cc
late_of_readable fl len_hold b (w, r) ann e = cc
late_of_readable fl len_sleep b h ann e = absurd h
late_of_readable fl p b h ann e = ann

pub Early-take : (p : ServerPc) (b : Block) → Early p b → Early p (record b { status = writable })
Early-take len_lock b (w, r) = (refl, r)
Early-take len_hold b (w, r) = (refl, r)
Early-take len_sleep b h = h
Early-take p b h = tt

pub Announced-take :
    (fl : ℤ) (p : ServerPc) (b : Block)
    → Announced fl p b
    → Announced fl p (record b { status = writable })
Announced-take fl len_lock b h = tt
Announced-take fl len_hold b h = tt
Announced-take fl len_sleep b h = tt
Announced-take fl p b h = h

-- What is sent extends what the client has, and the file stays what it has and what is to come.
pub Sent-chunk :
    (bs out : List ℕ) (b : Block) (given gone : ℕ)
    → Pending bs b given gone
    → out ++ drop gone bs ≡ bs
    → (out ++ chunk b) ++ drop (gone + to_size b.readlen) bs ≡ bs
Sent-chunk bs out b given gone pending e =
    append_assoc out (chunk b) _
    ∙ ap (λ r. out ++ r) (ap (λ k. chunk b ++ drop k bs) (sym pending.moved) ∙ pending.rest)
    ∙ e

pub Sent-part :
    (bs out : List ℕ) (b : Block) (given gone k : ℕ)
    → Pending bs b given gone
    → out ++ drop gone bs ≡ bs
    → (rest : List ℕ) × ((out ++ take k (chunk b)) ++ rest ≡ bs)
Sent-part bs out b given gone k pending e = (
  drop k (chunk b) ++ drop given bs,
  append_assoc out (take k (chunk b)) _
      ∙ ap (λ r. out ++ r)
          (sym (append_assoc (take k (chunk b)) (drop k (chunk b)) (drop given bs))
            ∙ ap (λ r. r ++ drop given bs) (take-append-drop k (chunk b))
            ∙ pending.rest)
      ∙ e,
)
