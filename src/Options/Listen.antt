-- ===== src/Options/Listen.antt =====
-- gflib/gfserver.c: what `gfserver_serve` does before its loop, with the settings of a server, and
-- what each worker hands to the handler.
use cache_server.Base.{
  ℕ, zero, suc, ◌+◌, ◌*◌, ◌/◌, ◌%◌, ◌<◌, ◌^◌, ◌≡◌, ◌↔◌, refl, ap, ◌∙◌, Bool, true, Option, none,
  some, List, [], ◌∷◌, arith, get_elem?, length, if◌then◌else◌,
}
use cache_server.Options.Settings.{HandlerFunc, Arg, Settings, replicate}
use cache_server.Options.Setup.{serving}

-- The answers of the calls: the descriptor, or `none`; whether `setsockopt`, `bind` to a port in network
-- order and `listen` with a limit succeed.
pub record Sockets : Type 0 where
  pub socket : Option ℕ
  pub setsockopt : ℕ → Bool
  pub bind : (fd sin_port : ℕ) → Bool
  pub listen : (fd backlog : ℕ) → Bool

-- `htons` on a machine that has the low byte first.
unfoldable pub htons : ℕ → ℕ
htons n = n % 256 * 256 + n / 256 % 256

-- The loop of `spawn_workers` with `n` rounds left: the `id` of each thread.
unfoldable pub spawn_workers : (n i : ℕ) → List ℕ
spawn_workers zero i = []
spawn_workers (suc n) i = i ∷ spawn_workers n (i + 1)

-- `gfserver_serve` returns, or it has a socket that listens and its workers, and goes on with its loop.
pub data Listening : Type 0 where
  gives_up : Listening
  listens : (listenfd : ℕ) (workers : List ℕ) → Listening

unfoldable pub gfserver_listen : Sockets → Settings → Listening
unfolding htons spawn_workers
gfserver_listen os gfs = elim os.socket [
  | none ↦ gives_up
  | some listenfd ↦
      if os.setsockopt listenfd
      then (if os.bind listenfd (htons gfs.port)
          then (if os.listen listenfd gfs.maxnpending
              then listens listenfd (spawn_workers gfs.nthreads 0)
              else gives_up)
          else gives_up)
      else gives_up
]

-- `gfs->handler(.., .., gfs->args[id])`: the function and its argument; `none` if the function or the cell
-- has not been set, or the cell is outside the array.
unfoldable pub handler_call : Settings → (id : ℕ) → Option (HandlerFunc × Arg)
handler_call gfs id = elim gfs.handler [
  | none ↦ none
  | some func ↦ elim (get_elem? gfs.args id) [
    | none ↦ none
    | some cell ↦ elim cell [ none ↦ none | some arg ↦ some (func, arg) ]
  ]
]

spawn_workers-get : (n i j : ℕ) → j < n → get_elem? (spawn_workers n i) j ≡ some (i + j)
unfolding spawn_workers
spawn_workers-get zero i j lt = absurd (omega arith)
spawn_workers-get (suc n) i zero lt = ap some (omega arith)
spawn_workers-get (suc n) i (suc j) lt =
    spawn_workers-get n (i + 1) j (omega arith) ∙ ap some (omega arith)

length-spawn_workers : (n i : ℕ) → length (spawn_workers n i) ≡ n
unfolding spawn_workers
length-spawn_workers zero i = refl
length-spawn_workers (suc n) i = omega (arith, length-spawn_workers n (i + 1))

get-replicate {ℓ} : {A : Type ℓ} (n j : ℕ) (a : A) → j < n → get_elem? (replicate n a) j ≡ some a
get-replicate zero j a lt = absurd (omega arith)
get-replicate (suc n) zero a lt = refl
get-replicate (suc n) (suc j) a lt = get-replicate n j a (omega arith)

-- Swapping the bytes twice gives the port.
htons-twice : (port : ℕ) → port < 2 ^ 16 → htons (htons port) ≡ port
unfolding htons
htons-twice port lt = omega arith

-- A server that a `main` has set up listens if each of the four calls succeeds, and only then, with the
-- port modulo 2^16; it has the workers 0 to `nthreads - 1`, and each calls the handler with
-- the argument that was set.
pub gfserver_listen-workers :
    (os : Sockets) (nthreads port maxnpending : ℕ) (func : HandlerFunc) (a : Arg) (fd : ℕ)
    (ids : List ℕ)
    → (gfserver_listen os (serving nthreads port maxnpending func a) ≡ listens fd ids ↔ (
        (os.socket ≡ some fd)
        × (os.setsockopt fd ≡ true)
        × (os.bind fd (htons (port % 2 ^ 16)) ≡ true)
        × (os.listen fd maxnpending ≡ true)
        × (ids ≡ spawn_workers nthreads 0)))
      × (length (spawn_workers nthreads 0) ≡ nthreads)
      × ((j : ℕ)
          → j < nthreads
          → (get_elem? (spawn_workers nthreads 0) j ≡ some j)
            × (handler_call (serving nthreads port maxnpending func a) j ≡ some (func, a)))
unfolding gfserver_listen handler_call
gfserver_listen-workers os nthreads port maxnpending func a fd ids = (
  (λ e. ground (arith, e), λ h. ground (arith, h)),
  length-spawn_workers nthreads 0,
  λ j lt. (
    spawn_workers-get nthreads 0 j lt ∙ ap some (omega arith),
    rw (handler_call, get-replicate nthreads j (some a) lt) refl,
  ),
)
