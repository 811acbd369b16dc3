-- ===== src/Download/Sequence.antt =====
-- gflib/gfclient_download.c: the downloads that `main` queues, in order, and their files.
use cache_server.Base.{
  ℕ, zero, suc, ◌+◌, ◌%◌, ◌^◌, ◌≤◌, ◌<◌, ◌≡◌, ◌≢◌, refl, ◌∙◌, true, false, Option, some, List, [],
  ◌∷◌, leb, ltb, length, get_or, map, arith,
}
use cache_server.Base.Int.{ℤ, pos}
use cache_server.Text.{Bytes}
use cache_server.Text.Tokens.{All}
use cache_server.Options.{run, Answer, getopt_loop}
use cache_server.Options.Tools.{DownloadClient, download_defaults, download_option}
use cache_server.Pool.{rounds}
use cache_server.Workload.{workload_init}
use cache_server.Workload.Load.{IsPath, lines, workload_init-lines}
use cache_server.Workload.RoundRobin.{workload_get_path-get_or}
use cache_server.Download.{Item}
use cache_server.Download.Requests.{
  local_path, int_product, request_loop, queue_requests, download_main,
}
use cache_server.Download.Local.{local_name, local_name-injective, local_path-local_name}

abbrev pub tail : Bytes → Bytes
tail [] = []
tail (_ ∷ path) = path

-- The request with number `i`, counted from 0: the paths come round in turn.
abbrev pub item_at : (server : Bytes) (port : ℕ) (paths : List Bytes) → ℕ → Item
item_at server port paths i =
    let path = get_or paths (i % length paths) [] in
    record { local_path = local_name (tail path) i; req_path = path; server = server; port = port }

abbrev pub tabulate {ℓ} : {A : Type ℓ} → (n from : ℕ) → (ℕ → A) → List A
tabulate zero from f = []
tabulate (suc n) from f = f from ∷ tabulate n (from + 1) f

All-get_or {ℓ} :
    {A : Type ℓ} (P : A → Type 0) (xs : List A) (i : ℕ) (d : A)
    → All P xs
    → i < length xs
    → P (get_or xs i d)
All-get_or P [] i d all lt = absurd (omega arith)
All-get_or P (x ∷ xs) zero d all lt = all.0
All-get_or P (x ∷ xs) (suc i) d all lt = All-get_or P xs i d all.1 (omega arith)

local_path-tail :
    (path : Bytes) (n : ℕ) → IsPath path → local_path path n ≡ some (local_name (tail path) n)
local_path-tail [] n is = absurd (omega (arith, is.1))
local_path-tail (c ∷ path) n is = local_path-local_name c path n (omega (arith, is.2))

module _ (server : Bytes) (port : ℕ) (paths : List Bytes) (are : All IsPath paths)
    (some_path : 1 ≤ length paths) where
  request_loop-tabulate :
      (n k : ℕ)
      → request_loop n server port (record { paths = paths; counter = k }) k
        ≡ run (tabulate n k (item_at server port paths))
  unfolding request_loop
  request_loop-tabulate zero k = refl
  request_loop-tabulate (suc n) k =
      let path = get_or paths (k % length paths) [] in
      let is : IsPath path = All-get_or IsPath paths (k % length paths) [] are (omega arith) in
      let short : ltb 256 (length path) ≡ false = ground (arith, is.2) in
      rw
        (
          request_loop,
          workload_get_path-get_or paths k some_path,
          short,
          local_path-tail path k is,
          request_loop-tabulate n (k + 1),
        )
        refl

-- No item occurs twice.
abbrev pub Distinct : List Bytes → Type 0
Distinct [] = Unit
Distinct (x ∷ xs) = All (λ y. y ≢ x) xs × Distinct xs

-- The files of the downloads.
abbrev pub targets : List Item → List Bytes
targets items = map (λ it. it.local_path) items

module _ (server : Bytes) (port : ℕ) (paths : List Bytes) where
  later-ne :
      (n from i : ℕ)
      → i < from
      → from + n ≤ 2 ^ 31
      → All
          (λ y. y ≢ (item_at server port paths i).local_path)
          (targets (tabulate n from (item_at server port paths)))
  later-ne zero from i lt fits = tt
  later-ne (suc n) from i lt fits =
      let j_tail = tail (get_or paths (from % length paths) []) in
      let i_tail = tail (get_or paths (i % length paths) []) in
      (
        λ same.
            let equal : from ≡ i =
              local_name-injective j_tail i_tail from i (omega arith) (omega arith) same in
            absurd (omega (arith, equal)),
        later-ne n (from + 1) i (omega arith) (omega arith),
      )

  tabulate-Distinct :
      (n from : ℕ)
      → from + n ≤ 2 ^ 31
      → Distinct (targets (tabulate n from (item_at server port paths)))
  tabulate-Distinct zero from fits = tt
  tabulate-Distinct (suc n) from fits = (
    later-ne n (from + 1) from (omega arith) (omega arith),
    tabulate-Distinct n (from + 1) (omega arith),
  )

int_product-fits : (a b : ℤ) (n : ℕ) → int_product a b ≡ some (pos n) → n < 2 ^ 31
unfolding int_product
int_product-fits a b n e = ground (arith, e)

queue_requests-tabulate :
    (o : DownloadClient) (paths : List Bytes) (n : ℕ)
    → All IsPath paths
    → 1 ≤ length paths
    → int_product o.nrequests o.nthreads ≡ some (pos n)
    → queue_requests o (record { paths = paths; counter = 0 })
      ≡ run (rounds o.nthreads, tabulate n 0 (item_at o.server o.port paths))
unfolding queue_requests
queue_requests-tabulate o paths n are some_path total =
    rw (queue_requests, total, request_loop-tabulate o.server o.port paths are some_path n 0) refl

module _ (open_file : Bytes → Option Bytes) (options : List Answer) (o : DownloadClient)
    (paths : List Bytes) (n : ℕ) where
  -- If the options are accepted and the workload file has 1 to 100 paths of visible bytes, of 1 to
  -- 255 bytes each, on lines, and the number of requests per thread times the number of threads is
  -- an `int` that is not negative, the client queues that many downloads: the paths in turn, from
  -- the given server and port, each to a file of its own: no two downloads have the same local
  -- path.
  pub download_main-items :
      getopt_loop download_option options download_defaults ≡ run o
      → open_file o.workload_path ≡ some (lines paths)
      → All IsPath paths
      → 1 ≤ length paths
      → length paths ≤ 100
      → int_product o.nrequests o.nthreads ≡ some (pos n)
      → (download_main open_file options
          ≡ run (rounds o.nthreads, tabulate n 0 (item_at o.server o.port paths)))
        × Distinct (targets (tabulate n 0 (item_at o.server o.port paths)))
  unfolding download_main
  download_main-items parsed opened are some_path fit total =
      let fits : leb (length paths) 100 ≡ true = ground (arith, fit) in
      let loads : workload_init (some (lines paths))
          ≡ run (some (record { paths = paths; counter = 0 })) =
        workload_init-lines paths are ∙ rw fits refl in
      let small = int_product-fits o.nrequests o.nthreads n total in
      (
        rw (parsed, opened, loads) (queue_requests-tabulate o paths n are some_path total),
        tabulate-Distinct o.server o.port paths n 0 (omega arith),
      )
