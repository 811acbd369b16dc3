-- ===== src/Pool/Examples.antt =====
-- cache/handle_with_cache.c: two segments.
use cache_server.Base.{
  ℕ, zero, suc, ◌+◌, ◌≡◌, ◌≢◌, refl, arith, true, none, some, List, [], ◌∷◌, ◌++◌,
}
use cache_server.Text.{codes, cstring}
use cache_server.Rio.{Answer, moves, readheader, header_loop, crlf_crlf}
use cache_server.Getfile.{parse_head, parse_string, word}
use cache_server.Server.{request_path}
use cache_server.Options.{fault, run}
use cache_server.Pool.Sharing.{
  Sharing, Event, called, requested, received, finished, failed, start_sharing, request_cache,
  pop_segment, send_request, receive_request, push_segment, give_up, step, steps,
}
use cache_server.Pool.Ownership.{uses, all_uses, segments_conserved}
use cache_server.Pool.Exhausted.{failures, IsExhausted, exhausted}
use cache_server.Pool.Paths.{request_path-fits}
use cache_server.Steque.{Steque}
use cache_server.Base.Int.{pos, negsuc}
use cache_server.Steque.Chain.{Cells, items, IsSteque}
use cache_server.Steque.Refine.{Returns}
use cache_server.Pool.{init_cache_handlers, clean_cache_handlers}
use cache_server.Pool.Segments.{init-clean}

-- What the statics hold before.
abbrev statics : Steque ℕ
statics = record { front = 0; back = 0; count = 0; heap = λ p. none }

init-clean_example :
    Returns
      (init_cache_handlers (some 5) (λ k. some (k + 4)) (λ i. some (40 + i)) (λ i. i + 1) 2 statics)
      (λ msqid t.
        (msqid ≡ 9)
        × ((ys : Cells ℕ) × IsSteque t ys × (items ys ≡ 40 ∷ 41 ∷ []))
        × Returns (clean_cache_handlers 3 (pos msqid) t) (λ c u.
          (c.segments ≡ 40 ∷ 41 ∷ [])
          × (c.queues ≡ pos 9 ∷ [])
          × (c.msqid ≡ negsuc 0)
          × IsSteque u []))
init-clean_example =
    init-clean (λ i. some (40 + i)) (λ i. i + 1) (λ j e. omega (arith, e))
      (λ j k e. omega (arith, e)) (40 ∷ 41 ∷ []) 5 9 (λ k. some (k + 4)) statics refl
      (refl, (refl, tt)) (λ j. refl) (omega arith)

-- Two requests: one is served, the other one's client has gone.
abbrev two_requests : List Event
two_requests =
    called (codes "/a")
    ∷ called (codes "/b")
    ∷ requested 1 true
    ∷ received
    ∷ failed 0
    ∷ requested 0 true
    ∷ received
    ∷ finished 0
    ∷ []

abbrev one_lost : Sharing
one_lost = record {
  free = 40 ∷ [];
  asking = [];
  messages = [];
  serving = [];
  attached = 41 ∷ 40 ∷ [];
  lost = 41 ∷ [];
}

run_two : steps 8803 two_requests (start_sharing (40 ∷ 41 ∷ [])) ≡ run one_lost
unfolding steps step pop_segment send_request receive_request push_segment give_up request_cache
run_two = refl

segments_conserved_example : all_uses 41 one_lost ≡ uses (λ (n : ℕ). n) 41 (40 ∷ 41 ∷ [])
segments_conserved_example = segments_conserved 8803 41 (40 ∷ 41 ∷ []) two_requests one_lost run_two

-- Two requests at once, for different paths, whose clients have gone.
abbrev both_gone : List Event
both_gone =
    called (codes "/a")
    ∷ called (codes "/b")
    ∷ requested 1 true
    ∷ requested 0 true
    ∷ received
    ∷ received
    ∷ failed 1
    ∷ failed 0
    ∷ called (codes "/c")
    ∷ []

abbrev all_lost : Sharing
all_lost = record {
  free = [];
  asking = [];
  messages = [];
  serving = [];
  attached = 41 ∷ 40 ∷ [];
  lost = 41 ∷ 40 ∷ [];
}

run_both : steps 8803 both_gone (start_sharing (40 ∷ 41 ∷ [])) ≡ run all_lost
unfolding steps step pop_segment send_request receive_request push_segment give_up request_cache
run_both = refl

two_failures : failures 8803 both_gone (start_sharing (40 ∷ 41 ∷ [])) ≡ 2
unfolding failures step pop_segment send_request receive_request push_segment give_up request_cache
two_failures = refl

exhausted_example : IsExhausted all_lost
exhausted_example = exhausted 8803 (40 ∷ 41 ∷ []) both_gone all_lost run_both two_failures

-- A segment is free again, and given to the next handler, while the worker of the last request still has it.
overlap :
    steps 8803
      (called (codes "/a") ∷ requested 0 true ∷ received ∷ finished 0 ∷ called (codes "/b") ∷ [])
      (start_sharing (40 ∷ []))
    ≡ run (record {
      free = [];
      asking = (40, codes "/b") ∷ [];
      messages = [];
      serving = [];
      attached = 40 ∷ [];
      lost = [];
    })
unfolding steps step pop_segment send_request receive_request push_segment give_up request_cache
overlap = refl

-- Calls that read a byte each.
abbrev single_bytes : ℕ → List Answer
single_bytes zero = []
single_bytes (suc n) = moves 1 ∷ single_bytes n

request_a :
    request_path (readheader (single_bytes 19) (codes "GETFILE GET /a " ++ crlf_crlf))
    ≡ some (codes "/a")
unfolding request_path parse_head parse_string cstring word readheader header_loop
request_a = refl

request_path-fits_example : request_cache (codes "/a") 40 8803 true ≢ fault
request_path-fits_example =
    request_path-fits (single_bytes 19) (codes "GETFILE GET /a " ++ crlf_crlf) (codes "/a") 40 8803
      true request_a
