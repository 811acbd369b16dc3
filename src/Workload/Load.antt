-- ===== src/Workload/Load.antt =====
-- gflib/workload.c: a workload file with a path on each line is loaded in order.
use cache_server.Base.{
  ℕ, zero, suc, ◌+◌, ◌≤◌, ◌<◌, ◌≡◌, refl, ap, ◌∙◌, true, false, some, List, [], ◌∷◌, ◌++◌, leb,
  length, length-append, append_assoc, append-nil, Bool-cases, inl, inr, if◌then◌else◌, arith,
}
use cache_server.Text.{Bytes}
use cache_server.Text.Tokens.{All}
use cache_server.Getfile.{scan_word}
use cache_server.Getfile.Words.{IsVisible, word-space}
use cache_server.Options.{Start, fault, run}
use cache_server.Workload.{words_loop, workload_init}

-- A path that fits `temp_buf` with its NUL.
abbrev pub IsPath : Bytes → Type 0
IsPath path = All IsVisible path × (1 ≤ length path) × (length path < 256)

-- The file with a path on each line.
pub lines : List Bytes → Bytes
lines [] = []
lines (path ∷ paths) = path ++ b'\n' ∷ lines paths

scan_word-visible :
    (path rest : Bytes)
    → All IsVisible path
    → 1 ≤ length path
    → scan_word (path ++ b'\n' ∷ rest) ≡ some (path, b'\n' ∷ rest)
scan_word-visible [] rest visible some_byte = absurd (omega arith)
scan_word-visible (c ∷ path) rest visible some_byte =
    rw (scan_word, visible.0.1) (ap some (word-space (c ∷ path) rest b'\n' visible refl))

words_loop-newline :
    (fuel : ℕ) (file : Bytes) (paths : List Bytes)
    → 1 ≤ fuel
    → words_loop fuel (b'\n' ∷ file) paths ≡ words_loop fuel file paths
unfolding words_loop
words_loop-newline zero file paths h = absurd (omega arith)
words_loop-newline (suc fuel) file paths h = refl

abbrev pub loaded : ℕ → List Bytes → Start (List Bytes)
loaded n paths = if leb n 100 then run paths else fault

words_loop-lines :
    (fuel : ℕ) (paths before : List Bytes)
    → All IsPath paths
    → length before ≤ 100
    → length (lines paths) < fuel
    → words_loop fuel (lines paths) before ≡ loaded (length before + length paths) (before ++ paths)
unfolding words_loop lines
words_loop-lines zero paths before are fits enough = absurd (omega arith)
words_loop-lines (suc fuel) [] before are fits enough =
    let small : leb (length before + 0) 100 ≡ true = ground arith in
    rw (words_loop, small, append-nil before) refl
words_loop-lines (suc fuel) (path ∷ paths) before ((visible, some_byte, short), are) fits enough =
    let word = scan_word-visible path (lines paths) visible some_byte in
    let short' : leb 256 (length path) ≡ false = ground (arith, short) in
    let size = length-append path (b'\n' ∷ lines paths) in
    elim (Bool-cases (leb 100 (length before))) [
      | inl full ↦
          let over : leb (length before + suc (length paths)) 100 ≡ false = ground (arith, full) in
          rw (words_loop, word, short', full, over) refl
      | inr room ↦
          let rest =
            words_loop-lines fuel paths (before ++ path ∷ []) are
              (ground (arith, room, length-append before (path ∷ []))) (omega (arith, size)) in
          let count : length (before ++ path ∷ []) + length paths
              ≡ length before + suc (length paths) =
            omega (arith, length-append before (path ∷ [])) in
          rw (words_loop, word, short', room)
            (words_loop-newline fuel (lines paths) (before ++ path ∷ []) (omega (arith, size))
              ∙ rest
              ∙ ap (λ n. loaded n ((before ++ path ∷ []) ++ paths)) count
              ∙ ap (loaded (length before + suc (length paths)))
                  (append_assoc before (path ∷ []) paths))
    ]

-- A workload file of visible paths of 1 to 255 bytes, each on a line, is loaded in order if there
-- are at most 100 of them; with more, a path is written behind the array.
pub workload_init-lines :
    (paths : List Bytes)
    → All IsPath paths
    → workload_init (some (lines paths)) ≡ (
        if leb (length paths) 100
        then run (some (record { paths = paths; counter = 0 }))
        else fault)
unfolding workload_init
workload_init-lines paths are =
    let loop =
      words_loop-lines (length (lines paths) + 1) paths [] are (omega arith) (omega arith) in
    elim (Bool-cases (leb (length paths) 100)) [
      | inl fits ↦
          let fits' : leb (0 + length paths) 100 ≡ true = ground (arith, fits) in
          rw (workload_init, loop, fits', fits) refl
      | inr over ↦
          let over' : leb (0 + length paths) 100 ≡ false = ground (arith, over) in
          rw (workload_init, loop, over', over) refl
    ]
