-- ===== src/Pool/Paths.antt =====
-- gflib/gfserver.c and cache/handle_with_cache.c: the path of a request fits a message to the cache process.
use cache_server.Base.{
  ℕ, zero, suc, ◌+◌, ◌≤◌, ◌<◌, ◌≡◌, ◌≢◌, refl, ap, Bool, Option, get_or, none, some, List, [], ◌∷◌,
  ◌++◌, ◌==◌, leb, length, length-append, length-take, length-drop, map, take, drop, Bool-cases,
  Option-cases, inl, inr, if◌then◌else◌, arith,
}
use cache_server.Base.Int.{ℤ, pos, negsuc}
use cache_server.Text.{Bytes, cstring, codes}
use cache_server.Rio.{
  delim_at, restart, Answer, Got, readheader, header_loop, header_round, rio_readn,
}
use cache_server.Getfile.{parse_head, parse_string, skip_spaces, word, toupper, starts_with}
use cache_server.Server.{request_path}
use cache_server.Options.{fault}
use cache_server.Pool.Sharing.{request_cache}

length-cstring : (s : Bytes) → length (cstring s) ≤ length s
unfolding cstring
length-cstring [] = omega arith
length-cstring (c ∷ s) = ground (arith, length-cstring s)

length-word : (s : Bytes) → length ((word s).0) ≤ length s
unfolding word
length-word [] = omega arith
length-word (c ∷ s) = ground (arith, length-word s)

length-skip_spaces : (s : Bytes) → length (skip_spaces s) ≤ length s
length-skip_spaces [] = omega arith
length-skip_spaces (c ∷ s) = ground (arith, length-skip_spaces s)

length-map : (f : ℕ → ℕ) (s : Bytes) → length (map f s) ≡ length s
length-map f [] = refl
length-map f (c ∷ s) = ap suc (length-map f s)

abbrev first_word : Bytes → Option (Bytes × Bytes)
first_word [] = none
first_word (c ∷ s) = some (word (c ∷ s))

length-first_word :
    (s path rest : Bytes) → first_word s ≡ some (path, rest) → length path ≤ length s
length-first_word [] path rest e = cc e
length-first_word (c ∷ s) path rest e = ground (arith, e, length-word (c ∷ s))

path-length :
    (s path : Bytes)
    → elim (first_word s) [ none ↦ none | some (path, rest) ↦ some path ] ≡ some path
    → length path ≤ length s
path-length s path e = elim (Option-cases (first_word s)) [
  | inl stuck ↦ let nothing = rw stuck at e in cc nothing
  | inr ((found, rest), first) ↦
      let same = rw first at e in ground (arith, same, length-first_word s found rest first)
]

parse_string-length :
    (head path : Bytes) → parse_string head ≡ some path → length path ≤ length head
unfolding parse_string
parse_string-length head path e =
    let upper = map toupper (take 13 head) ++ drop 13 head in
    let size : length upper ≡ length head = omega (
      arith,
      length-append (map toupper (take 13 head)) (drop 13 head),
      length-map toupper (take 13 head),
      length-take 13 head,
      length-drop 13 head,
    ) in
    elim (Bool-cases (starts_with (codes "GETFILE GET /") upper)) [
      | inl get ↦
          let read = rw (parse_string, get) at e in
          let target = skip_spaces (drop 12 upper) in
          omega (
            arith,
            path-length target path read,
            length-skip_spaces (drop 12 upper),
            length-drop 12 upper,
            size,
          )
      | inr other ↦ let nothing = rw (parse_string, other) at e in cc nothing
    ]

module _ (got : Got) (next : ℕ) (buf : Bytes) (more : ℕ → Bytes → Got) (bound : ℕ) where
  header_round-length :
      (r : Option ℤ)
      → got.result ≡ r
      → length buf < bound
      → ((n : ℕ) (c : ℕ) → length ((more n (buf ++ c ∷ [])).bytes) ≤ bound)
      → length ((header_round got next buf more).bytes) ≤ bound
  header_round-length none e room rest = rw (header_round, e) (omega arith)
  header_round-length (some (negsuc _)) e room rest = rw (header_round, e) (omega arith)
  header_round-length (some (pos zero)) e room rest = rw (header_round, e) (omega arith)
  header_round-length (some (pos (suc _))) e room rest =
      let c = get_or got.bytes 0 0 in
      let next' = if c == delim_at next then next + 1 else restart c in
      elim (Bool-cases (leb 4 next')) [
        | inl end ↦ rw (header_round, e, end) (omega (arith, length-append buf (c ∷ [])))
        | inr open_still ↦ rw (header_round, e, open_still) (rest next' c)
      ]

header_loop-length :
    (rounds : ℕ) (script : List Answer) (incoming : Bytes) (next : ℕ) (buf : Bytes)
    → length ((header_loop rounds script incoming next buf).bytes) ≤ length buf + rounds
unfolding header_loop
header_loop-length zero script incoming next buf = omega arith
header_loop-length (suc rounds) script incoming next buf =
    let got = rio_readn script incoming 1 in
    header_round-length got next buf
      (λ next' buf'. header_loop rounds got.answers got.incoming next' buf')
      (length buf + suc rounds) got.result refl (omega arith)
      (λ n c. omega (
        arith,
        header_loop-length rounds got.answers got.incoming n (buf ++ c ∷ []),
        length-append buf (c ∷ []),
      ))

request_path-parse_head :
    (head : Got) (path : Bytes) (r : Option ℤ)
    → head.result ≡ r
    → request_path head ≡ some path
    → parse_head head.bytes ≡ some path
unfolding request_path
request_path-parse_head head path none r e = let nothing = rw (request_path, r) at e in cc nothing
request_path-parse_head head path (some (negsuc _)) r e =
    let nothing = rw (request_path, r) at e in cc nothing
request_path-parse_head head path (some (pos zero)) r e =
    let nothing = rw (request_path, r) at e in cc nothing
request_path-parse_head head path (some (pos (suc _))) r e = rw (request_path, r) at e

-- The server's path has less than 200 bytes, however the request arrives.
request_path-length :
    (script : List Answer) (incoming path : Bytes)
    → request_path (readheader script incoming) ≡ some path
    → length path < 200
unfolding readheader parse_head
request_path-length script incoming path e =
    let head = readheader script incoming in
    let parsed = request_path-parse_head head path head.result refl e in
    omega (
      arith,
      parse_string-length (cstring head.bytes) path parsed,
      length-cstring head.bytes,
      header_loop-length 199 script incoming 0 [],
    )

not_fault :
    (path : Bytes) (shmid segsize : ℕ) (sent : Bool)
    → length path < 200
    → request_cache path shmid segsize sent ≢ fault
unfolding request_cache
not_fault path shmid segsize sent short e = ground (arith, short, e)

-- The path that the server reads from a request, however it arrives, fits the path of the message
-- to the cache process: `strcpy` in `request_cache` does not overflow.
pub request_path-fits :
    (script : List Answer) (incoming path : Bytes) (shmid segsize : ℕ) (sent : Bool)
    → request_path (readheader script incoming) ≡ some path
    → request_cache path shmid segsize sent ≢ fault
request_path-fits script incoming path shmid segsize sent e =
    not_fault path shmid segsize sent (request_path-length script incoming path e)
