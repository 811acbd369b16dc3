-- ===== src/Channel/Examples.antt =====
-- cache/simplecached.c and cache/handle_with_cache.c: whole transfers by evaluation, and each
-- theorem at a state that such a transfer reaches.
use cache_server.Base.{
  ℕ, zero, suc, ◌+◌, ◌*◌, ◌≤◌, ◌≡◌, ◌≢◌, refl, ◌⊎◌, true, false, Option, none, some, List, [], ◌∷◌,
  ◌++◌, arith, length,
}
use cache_server.Base.Int.{pos, negsuc}
use cache_server.Text.{codes}
use cache_server.Rio
use cache_server.Rio.{moves}
use cache_server.Getfile.{gfc_ok, gf_ok, format_header, format_long, digits}
use cache_server.Getfile.Request.{request_text}
use cache_server.Client.{connected, gfc_perform}
use cache_server.Channel.Client.{client_gets_file}
use cache_server.Channel.{
  Block, writable, Sys, sys, finished, failed, wrote_all, PreadAnswer, error, serve_cache,
  handle_with_cache, serve_at, handle_at, to_size, start, signed_sub, file_ok, file_not_found,
  by_server,
}
use cache_server.Channel.Contract.{Step, serves, handles, wakes_server, Answers}
use cache_server.Channel.Invariant.{server_in, proxy_in, taken}
use cache_server.Channel.Delivery.{
  wire, response, Fits, Served, delivered, exclusive_and_safe, failed_read_strands,
}
use cache_server.Channel.Progress.{
  good_answer, good_answer-Answers, Sound, ServerFinished, ProxyFinished, progress,
}
use cache_server.Channel.Termination.{Run, stop, more, woken, Run-Reach, bounded_run, completed_run}
use cache_server.Channel.Livelock.{livelock}

-- The bookkeeping takes 168 bytes, and two more are for data.
abbrev old : Block
old = record {
  datalen = pos 0;
  filelen = pos 0;
  readlen = pos 0;
  status = writable;
  area = 0 ∷ 0 ∷ [];
}

abbrev empty_area : Block
empty_area = record old { area = [] }

record Trace (file : Option (List ℕ)) (s : Sys) : Type 0 where
  count : ℕ
  last : Sys
  run : Run file s count 0 last

-- The worker moves if it can, else the handler.
handle_next :
    (file : Option (List ℕ)) (s : Sys) (tr : Trace file s) (o : Option Sys)
    → handle_with_cache wrote_all tr.last ≡ o
    → Trace file s
handle_next file s tr none e = tr
handle_next file s tr (some t) e = record {
  count = suc tr.count;
  last = t;
  run = more tr.run (handles wrote_all e);
}

serve_next :
    (file : Option (List ℕ)) (s : Sys) (tr : Trace file s) (a : PreadAnswer)
    → Answers file (to_size tr.last.mem.block.datalen) tr.last.server a
    → (o : Option Sys) → serve_cache file a tr.last ≡ o
    → Trace file s
unfolding handle_next
serve_next file s tr a ans none e = handle_next file s tr (handle_with_cache wrote_all tr.last) refl
serve_next file s tr a ans (some t) e = record {
  count = suc tr.count;
  last = t;
  run = more tr.run (serves a ans e);
}

trace : (file : Option (List ℕ)) (s : Sys) → ℕ → Trace file s
unfolding serve_next serve_cache handle_with_cache serve_at handle_at
trace file s zero = record { count = 0; last = s; run = stop }
trace file s (suc n) =
    let tr = trace file s n in
    let count = to_size tr.last.mem.block.datalen in
    let a = good_answer file count tr.last.server in
    serve_next file s tr a (good_answer-Answers file count tr.last.server)
      (serve_cache file a tr.last) refl

abbrev file : Option (List ℕ)
file = some (7 ∷ 8 ∷ 9 ∷ [])

abbrev first : Sys
first = start 168 170 old

file-Fits : Fits file 168 170 old
unfolding start
file-Fits = record { area = refl; small = omega arith }

abbrev whole : Trace file first
whole = trace file first 60

whole_proxy : whole.last.proxy ≡ finished 3
unfolding trace start
whole_proxy = refl

whole_sent : (whole.last.mem.sent ≡ 7 ∷ 8 ∷ 9 ∷ []) × (whole.last.mem.header ≡ some (file_ok 3))
unfolding trace start
whole_sent = (refl, refl)

absent_header : (trace none first 60).last.mem.header ≡ some file_not_found
unfolding trace start
absent_header = refl

header_whole : whole.last.mem.header_cut ≡ none
unfolding trace start
header_whole = refl

delivered_example :
    Served file 3 whole.last.mem.header whole.last.mem.sent × (wire whole.last.mem ≡ response file)
delivered_example = delivered file-Fits (Run-Reach whole.run) 3 whole_proxy header_whole

-- Half-way: the first two bytes have been sent.
abbrev half : Trace file first
half = trace file first 16

exclusive_and_safe_example :
    ((rest : List ℕ) × (half.last.mem.sent ++ rest ≡ 7 ∷ 8 ∷ 9 ∷ []))
    × (¬ ((server_in half.last.server ≡ true) × (proxy_in half.last.proxy ≡ true)))
    × (to_size half.last.mem.block.datalen ≡ length half.last.mem.block.area)
exclusive_and_safe_example = exclusive_and_safe file-Fits (Run-Reach half.run)

half-Sound : Sound half.last
unfolding trace start
half-Sound = (λ x. x, λ x. x)

progress_example :
    ((t : Sys) × Step file half.last t × Sound t)
    ⊎ (ServerFinished half.last.server × ProxyFinished half.last.proxy)
progress_example = progress file-Fits (Run-Reach half.run) half-Sound

room : 1 ≤ to_size (signed_sub 170 168)
unfolding start
room = omega arith

-- The worker is woken with no signal on the way.
bounded_run_example : half.count ≤ 12 * 3 + 18 + 2 * 1
bounded_run_example = bounded_run file-Fits room (woken half.run wakes_server)

whole-Sound : Sound whole.last
unfolding trace start
whole-Sound = (λ x. x, λ x. x)

whole_stuck : ¬ ((t : Sys) × Step file whole.last t × Sound t)
unfolding trace start
whole_stuck (t, serves a ans e, ok) = cc
whole_stuck (t, handles a e, ok) = cc

completed_run_example :
    (t : ℕ) × (whole.last.proxy ≡ finished t)
    × Served file t whole.last.mem.header whole.last.mem.sent
    × (wire whole.last.mem ≡ response file)
completed_run_example = completed_run file-Fits room whole.run whole-Sound header_whole whole_stuck

-- The worker's first read fails.
abbrev before : Trace file first
before = trace file first 4

abbrev after : Sys
after =
    sys (record (before.last.mem) { block = record (before.last.mem.block) { readlen = negsuc 0 } })
      (failed 0) before.last.proxy

after-Run : Run file first 5 0 after
unfolding trace start
after-Run = more before.run (serves error tt refl)

failed_read_strands_example : (after.mem.holder ≡ by_server) × ((n : ℕ) → after.proxy ≢ finished n)
failed_read_strands_example = failed_read_strands file-Fits (Run-Reach after-Run) 0 refl

-- The segment has room for the bookkeeping only.
abbrev no_room : Sys
no_room = start 168 168 empty_area

no_room-Fits : Fits file 168 168 empty_area
unfolding start
no_room-Fits = record { area = refl; small = omega arith }

abbrev turns : Trace file no_room
turns = trace file no_room 40

livelock_example :
    (taken turns.last.proxy ≡ 0)
    × (¬ ProxyFinished turns.last.proxy)
    × (Sound turns.last → (t : Sys) × Step file turns.last t × Sound t)
livelock_example = livelock (omega arith) no_room-Fits (Run-Reach turns.run)

-- Calls that move a byte each.
abbrev single_bytes : ℕ → List Rio.Answer
single_bytes zero = []
single_bytes (suc n) = moves 1 ∷ single_bytes n

abbrev three : List ℕ
three = 7 ∷ 8 ∷ 9 ∷ []

ok_header : length (format_header gf_ok (length three)) ≡ 16
unfolding format_header format_long digits
ok_header = refl

client_gets_file_example :
    gfc_perform connected
      (single_bytes 19)
      (single_bytes 19)
      false
      (wire whole.last.mem)
      (codes "/a")
    ≡ some (record {
      result = some (pos 0);
      status = gfc_ok;
      len = length three;
      actual = length three;
      sent = request_text (codes "/a");
      file = three;
    })
client_gets_file_example =
    client_gets_file three 168 170 old whole.last 3 (single_bytes 19) (single_bytes 19) false
      (codes "/a") file-Fits (Run-Reach whole.run) whole_proxy header_whole (omega arith) tt
      (rw ok_header tt)
