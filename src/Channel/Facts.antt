-- ===== src/Channel/Facts.antt =====
-- Facts about the data channel's invariant that the steps of both of its threads use
-- (cache/simplecached.c, cache/handle_with_cache.c).
pub mod Sent
use native.Mathlib.Nat.{mod-eq_of_lt}
use cache_server.Base.{
  ℕ, ◌+◌, ◌≤◌, ◌<◌, ◌^◌, ◌≡◌, refl, sym, ap, ◌∙◌, Bool, true, false, inl, inr, Option, none, some,
  List, [], ◌∷◌, ◌++◌, arith, length, take, drop, take-append_left, drop-append_left, drop-add,
  append_assoc, ltb→lt, take-append-drop,
}
use cache_server.Base.Int.{ℤ, ltb_ℤ, is_nonpos}
use cache_server.Channel.{
  Status, writable, readable, Block, is_readable, Holder, nobody, by_server, by_proxy, file_len,
  fill, chunk, ServerPc, ProxyPc, to_size,
}
use cache_server.Channel.{len_lock, len_hold, len_sleep, data_sleep}
use cache_server.Channel.Contract.{contents}
use cache_server.Channel.Invariant.{
  Slot, held_by, ProxySleeps, SignalsProxy, ServerSleeps, SignalsServer, Early, Announced, LateTold,
  Told,
}

pub nonpos-nil : (file : Option (List ℕ)) → is_nonpos (file_len file) ≡ true → contents file ≡ []
unfolding file_len
nonpos-nil none h = refl
nonpos-nil (some []) h = refl
nonpos-nil (some (x ∷ xs)) h = cc

-- A handler that sleeps is about to be woken, or its condition is false.
pub ProxySleeps-signal :
    (q : ProxyPc) (st : Status) (p : ServerPc) → SignalsProxy p → ProxySleeps q st p
ProxySleeps-signal len_sleep st p h = inr h
ProxySleeps-signal (data_sleep fl t) st p h = inr h
ProxySleeps-signal q st p h = tt

pub ProxySleeps-writable :
    (q : ProxyPc) (st : Status) (p : ServerPc) → st ≡ writable → ProxySleeps q st p
ProxySleeps-writable len_sleep st p h = inl h
ProxySleeps-writable (data_sleep fl t) st p h = inl h
ProxySleeps-writable q st p h = tt

pub Slot-writable :
    (bs : List ℕ) (b : Block) (given gone : ℕ) (st : Status)
    → st ≡ writable
    → Slot bs b given gone st
    → given ≡ gone
Slot-writable bs b given gone writable e s = s
Slot-writable bs b given gone readable e s = cc

pub Slot-of_eq :
    (bs : List ℕ) (b : Block) (given gone : ℕ) (st : Status)
    → st ≡ writable
    → given ≡ gone
    → Slot bs b given gone st
Slot-of_eq bs b given gone writable e s = s
Slot-of_eq bs b given gone readable e s = cc

pub server_released :
    (h : Holder) (b : Bool)
    → held_by h ≡ (true, b)
    → ◌≡◌ {A = Bool × Bool} (false, false) (false, b)
server_released nobody b e = cc
server_released by_server b e = ground arith
server_released by_proxy b e = cc

-- While the worker signals nothing, its position does not matter to a sleeping handler.
pub ProxySleeps-quiet :
    (q : ProxyPc) (st : Status) (p p' : ServerPc)
    → ¬ SignalsProxy p
    → ProxySleeps q st p
    → ProxySleeps q st p'
ProxySleeps-quiet len_sleep st p p' quiet (inl h) = inl h
ProxySleeps-quiet len_sleep st p p' quiet (inr h) = absurd (quiet h)
ProxySleeps-quiet (data_sleep fl t) st p p' quiet (inl h) = inl h
ProxySleeps-quiet (data_sleep fl t) st p p' quiet (inr h) = absurd (quiet h)
ProxySleeps-quiet q st p p' quiet h = tt

pub status_of_readable : (st : Status) → is_readable st ≡ true → st ≡ readable
status_of_readable readable h = refl
status_of_readable writable h = cc

pub not_readable : (st : Status) → st ≡ writable → is_readable st ≡ true → ⊥
not_readable readable w h = cc
not_readable writable w h = cc

pub status_of_writable : (st : Status) → is_readable st ≡ false → st ≡ writable
status_of_writable readable h = cc
status_of_writable writable h = refl

-- A chunk that `pread` returns fills the slot between the two counts.
pub Slot-fill :
    (content bs rest : List ℕ) (b : Block) (t gone : ℕ)
    → t ≡ gone
    → drop t content ≡ bs ++ rest
    → Slot content (fill bs b) (t + length bs) gone readable
unfolding fill
Slot-fill content bs rest b t gone e at = (
  length bs,
  refl,
  omega arith,
  rw
      (
        take-append_left bs (drop (length bs) b.area),
        drop-add t (length bs) content,
        at,
        drop-append_left bs rest,
        ← e,
      )
      (sym at),
)

pub proxy_released :
    (h : Holder) (b : Bool)
    → held_by h ≡ (b, true)
    → ◌≡◌ {A = Bool × Bool} (false, false) (b, false)
proxy_released nobody b e = cc
proxy_released by_server b e = cc
proxy_released by_proxy b e = ground arith

-- While the handler signals nothing, its position does not matter to a sleeping worker.
pub ServerSleeps-quiet :
    (p : ServerPc) (st : Status) (q q' : ProxyPc)
    → ¬ SignalsServer q
    → ServerSleeps p st q
    → ServerSleeps p st q'
ServerSleeps-quiet (data_sleep t) st q q' quiet (inl h) = inl h
ServerSleeps-quiet (data_sleep t) st q q' quiet (inr h) = absurd (quiet h)
ServerSleeps-quiet len_lock st q q' quiet h = tt
ServerSleeps-quiet p st q q' quiet h = tt

pub ServerSleeps-signal :
    (p : ServerPc) (st : Status) (q : ProxyPc) → SignalsServer q → ServerSleeps p st q
ServerSleeps-signal (data_sleep t) st q h = inr h
ServerSleeps-signal p st q h = tt

pub test_passes :
    (file : Option (List ℕ)) (t : ℕ) → ltb_ℤ t (file_len file) ≡ true → t < length (contents file)
unfolding file_len
test_passes none t h = cc
test_passes (some bs) t h = ltb→lt t (length bs) h

pub test_fails :
    (file : Option (List ℕ)) (t : ℕ)
    → ltb_ℤ t (file_len file) ≡ false
    → t ≤ length (contents file)
    → t ≡ length (contents file)
unfolding file_len
test_fails none t h le = omega arith
test_fails (some bs) t h le = ground arith

pub Slot-le :
    (bs : List ℕ) (b : Block) (given gone : ℕ) (st : Status)
    → Slot bs b given gone st
    → gone ≤ given
Slot-le bs b given gone writable e = omega arith
Slot-le bs b given gone readable (n, r, e, at) = omega arith

pub Told-move :
    (b : Bool) (q : ProxyPc) (p p' : ServerPc) (st st' : Status)
    → (LateTold b p st → LateTold b p' st')
    → Told b q p st
    → Told b q p' st'
Told-move b len_lock p p' st st' h t = h t
Told-move b len_hold p p' st st' h t = h t
Told-move b len_sleep p p' st st' h t = h t
Told-move b q p p' st st' h t = tt

pub some_follows :
    (file : Option (List ℕ)) → is_nonpos (file_len file) ≡ false → 0 < length (contents file)
unfolding file_len
some_follows none h = cc
some_follows (some []) h = cc
some_follows (some (x ∷ xs)) h = omega arith
