-- ===== src/Channel/Invariant.antt =====
-- What holds between the two threads of the data channel in every reachable state.
use cache_server.Base.{
  ℕ, ◌+◌, ◌≤◌, ◌<◌, ◌^◌, ◌≡◌, refl, Bool, true, false, ◌⊎◌, Option, none, some, List, ◌++◌,
  if◌then◌else◌, length, take, drop,
}
use mathlib.Core.Path.{subst}
use cache_server.Base.Int.{ℤ, pos, is_nonpos}
use cache_server.Channel.{
  Status, writable, readable, Block, Holder, nobody, by_server, by_proxy, Header, ServerPc, ProxyPc,
  Sys, file_len, header_for, to_size,
}
use cache_server.Channel.{
  len_lock, len_hold, len_sleep, len_signal, data_test, data_lock, data_hold, data_sleep,
  data_signal, finished, failed, send_header,
}
use cache_server.Channel.Contract.{contents}

-- Bytes that the worker has put into the area, and that the handler has taken out of it.
abbrev pub stored : ServerPc → ℕ
stored len_lock = 0
stored len_hold = 0
stored len_sleep = 0
stored len_signal = 0
stored (data_test t) = t
stored (data_lock t) = t
stored (data_hold t) = t
stored (data_sleep t) = t
stored (data_signal t) = t
stored (finished t) = t
stored (failed t) = t

abbrev pub taken : ProxyPc → ℕ
taken len_lock = 0
taken len_hold = 0
taken len_sleep = 0
taken (send_header fl) = 0
taken (data_test fl t) = t
taken (data_lock fl t) = t
taken (data_hold fl t) = t
taken (data_sleep fl t) = t
taken (data_signal fl t) = t
taken (finished t) = t
taken (failed t) = t

-- The mutex is held exactly inside the critical sections, and for ever after a failure.
abbrev pub server_in : ServerPc → Bool
server_in len_hold = true
server_in (data_hold t) = true
server_in (failed t) = true
server_in _ = false

abbrev pub proxy_in : ProxyPc → Bool
proxy_in len_hold = true
proxy_in (data_hold fl t) = true
proxy_in (failed t) = true
proxy_in _ = false

abbrev pub held_by : Holder → Bool × Bool
held_by nobody = (false, false)
held_by by_server = (true, false)
held_by by_proxy = (false, true)

abbrev pub Early : ServerPc → Block → Type 0
Early len_lock b = (b.status ≡ writable) × (b.readlen ≡ pos 0)
Early len_hold b = (b.status ≡ writable) × (b.readlen ≡ pos 0)
Early len_sleep b = ⊥
Early _ b = Unit

-- Once the worker has announced the length, the block holds it.
abbrev pub Announced : ℤ → ServerPc → Block → Type 0
Announced fl len_lock b = Unit
Announced fl len_hold b = Unit
Announced fl len_sleep b = Unit
Announced fl _ b = b.filelen ≡ fl

-- The handler's copy of the length.
abbrev pub Copied : ℤ → ProxyPc → Type 0
Copied fl (send_header x) = x ≡ fl
Copied fl (data_test x t) = x ≡ fl
Copied fl (data_lock x t) = x ≡ fl
Copied fl (data_hold x t) = x ≡ fl
Copied fl (data_sleep x t) = x ≡ fl
Copied fl (data_signal x t) = x ≡ fl
Copied fl _ = Unit

-- The header is sent once the handler knows the length, and says it.
abbrev pub Headed : ℤ → ProxyPc → Option Header → Type 0
Headed fl len_lock h = h ≡ none
Headed fl len_hold h = h ≡ none
Headed fl len_sleep h = h ≡ none
Headed fl (send_header x) h = h ≡ none
Headed fl _ h = h ≡ some (header_for fl)

-- Inside the loops there is something left; at the ends of the loops nothing is.
abbrev pub ServerRange : ℕ → ServerPc → Type 0
ServerRange n (data_lock t) = t < n
ServerRange n (data_hold t) = t < n
ServerRange n (data_sleep t) = t < n
ServerRange n (finished t) = t ≡ n
ServerRange n (failed t) = t < n
ServerRange n _ = Unit

abbrev pub ProxyRange : ℕ → ProxyPc → Type 0
ProxyRange n (data_lock fl t) = t < n
ProxyRange n (data_hold fl t) = t < n
ProxyRange n (data_sleep fl t) = t < n
ProxyRange n (finished t) = t ≡ n
ProxyRange n _ = Unit

-- A thread sleeps only while its condition is false or the other is about to signal.
abbrev pub SignalsServer : ProxyPc → Type 0
SignalsServer (data_signal fl t) = Unit
SignalsServer _ = ⊥

abbrev pub SignalsProxy : ServerPc → Type 0
SignalsProxy len_signal = Unit
SignalsProxy (data_signal t) = Unit
SignalsProxy _ = ⊥

abbrev pub ServerSleeps : ServerPc → Status → ProxyPc → Type 0
ServerSleeps (data_sleep t) st q = (st ≡ readable) ⊎ SignalsServer q
ServerSleeps _ st q = Unit

abbrev pub ProxySleeps : ProxyPc → Status → ServerPc → Type 0
ProxySleeps len_sleep st p = (st ≡ writable) ⊎ SignalsProxy p
ProxySleeps (data_sleep fl t) st p = (st ≡ writable) ⊎ SignalsProxy p
ProxySleeps _ st p = Unit

-- A length that no chunk follows stays in the block until the handler has read it.
abbrev pub LateTold : Bool → ServerPc → Status → Type 0
LateTold none_follows len_lock st = Unit
LateTold none_follows len_hold st = Unit
LateTold none_follows len_sleep st = Unit
LateTold none_follows _ st = (none_follows ≡ false) ⊎ (st ≡ readable)

abbrev pub Told : Bool → ProxyPc → ServerPc → Status → Type 0
Told none_follows len_lock p st = LateTold none_follows p st
Told none_follows len_hold p st = LateTold none_follows p st
Told none_follows len_sleep p st = LateTold none_follows p st
Told none_follows _ p st = Unit

-- Between the two counts lies what is in the area: nothing, or the chunk of `readlen` bytes.
abbrev pub Slot : List ℕ → Block → (given gone : ℕ) → Status → Type 0
Slot bs b given gone writable = given ≡ gone
Slot bs b given gone readable =
    (n : ℕ) × (b.readlen ≡ pos n)
    × (given ≡ gone + n)
    × (take n b.area ++ drop given bs ≡ drop gone bs)

-- What the client has got and what is still to come make up the file.
abbrev pub Sent : List ℕ → ProxyPc → List ℕ → Type 0
Sent bs (failed t) out = (rest : List ℕ) × (out ++ rest ≡ bs)
Sent bs q out = out ++ drop (taken q) bs ≡ bs

pub record Inv (file : Option (List ℕ)) (s : Sys) : Type 0 where
  pub small : length (contents file) < 2 ^ 63
  pub holder : held_by s.mem.holder ≡ (server_in s.server, proxy_in s.proxy)
  pub early : Early s.server s.mem.block
  pub announced : Announced (file_len file) s.server s.mem.block
  pub copied : Copied (file_len file) s.proxy
  pub headed : Headed (file_len file) s.proxy s.mem.header
  pub server_range : ServerRange (length (contents file)) s.server
  pub proxy_range : ProxyRange (length (contents file)) s.proxy
  pub bounded : stored s.server ≤ length (contents file)
  pub server_sleeps : ServerSleeps s.server s.mem.block.status s.proxy
  pub proxy_sleeps : ProxySleeps s.proxy s.mem.block.status s.server
  pub told : Told (is_nonpos (file_len file)) s.proxy s.server s.mem.block.status
  pub slot : Slot (contents file) s.mem.block (stored s.server) (taken s.proxy) s.mem.block.status
  pub sent : Sent (contents file) s.proxy s.mem.sent
  pub room : length s.mem.block.area ≡ to_size s.mem.block.datalen

-- The step can be taken only into a state with `P`.
abbrev pub Keeps : (Sys → Type 0) → Option Sys → Type 0
Keeps P none = Unit
Keeps P (some t) = P t

pub Keeps-if :
    (P : Sys → Type 0) (b : Bool) (t : Option Sys)
    → (b ≡ true → Keeps P t)
    → Keeps P (if b then t else none)
Keeps-if P true t h = h refl
Keeps-if P false t h = tt

pub Keeps-ite :
    (P : Sys → Type 0) (b : Bool) (t u : Option Sys)
    → (b ≡ true → Keeps P t)
    → (b ≡ false → Keeps P u)
    → Keeps P (if b then t else u)
Keeps-ite P true t u h k = h refl
Keeps-ite P false t u h k = k refl

pub Keeps-elim : (P : Sys → Type 0) (o : Option Sys) (t : Sys) → Keeps P o → o ≡ some t → P t
Keeps-elim P none t k e = cc
Keeps-elim P (some u) t k e = let same : u ≡ t = cc in subst P same k
