-- ===== src/Workload/Fuel.antt =====
-- gflib/workload.c: each round of the loop takes a byte of the file, so no file needs more fuel.
use cache_server.Base.{
  ℕ, zero, suc, ◌≤◌, ◌<◌, ◌≡◌, refl, ap, false, some, List, [], ◌∷◌, ◌++◌, length, Option-cases,
  inl, inr, arith,
}
use cache_server.Text.{Bytes}
use cache_server.Getfile.{skip_spaces, scan_word, word, is_space}
use cache_server.Workload.{words_loop}

length-rest : (s : Bytes) → length ((word s).1) ≤ length s
unfolding word
length-rest [] = omega arith
length-rest (c ∷ s) = ground (arith, length-rest s)

length-skip_spaces : (s : Bytes) → length (skip_spaces s) ≤ length s
length-skip_spaces [] = omega arith
length-skip_spaces (c ∷ s) = ground (arith, length-skip_spaces s)

-- What is left after the white space starts with a byte of a word.
skip_spaces-visible :
    (s : Bytes) (c : ℕ) (rest : Bytes) → skip_spaces s ≡ c ∷ rest → is_space c ≡ false
skip_spaces-visible [] c rest e = cc e
skip_spaces-visible (d ∷ s) c rest e = ground (arith, e, skip_spaces-visible s c rest)

word-shorter : (c : ℕ) (s : Bytes) → is_space c ≡ false → length ((word (c ∷ s)).1) < length (c ∷ s)
unfolding word
word-shorter c s visible = ground (arith, visible, length-rest s)

scan_word-shorter :
    (s : Bytes) (u w rest : Bytes)
    → skip_spaces s ≡ u
    → scan_word s ≡ some (w, rest)
    → length rest < length s
scan_word-shorter s [] w rest skipped e = let nothing = rw (scan_word, skipped) at e in cc nothing
scan_word-shorter s (c ∷ u) w rest skipped e =
    let read : some (word (c ∷ u)) ≡ some (w, rest) = rw (scan_word, skipped) at e in
    let left : (word (c ∷ u)).1 ≡ rest = cc read in
    let shorter = word-shorter c u (skip_spaces-visible s c u skipped) in
    omega (arith, ap length left, shorter, ap length skipped, length-skip_spaces s)

-- Any two amounts of fuel above the length of the file give the same result.
pub words_loop-fuel :
    (m n : ℕ) (file : Bytes) (paths : List Bytes)
    → length file < m
    → length file < n
    → words_loop m file paths ≡ words_loop n file paths
unfolding words_loop
words_loop-fuel zero n file paths h k = absurd (omega arith)
words_loop-fuel (suc m) zero file paths h k = absurd (omega arith)
words_loop-fuel (suc m) (suc n) file paths h k = elim (Option-cases (scan_word file)) [
  | inl end ↦ rw (words_loop, end) refl
  | inr ((w, rest), read) ↦
      let shorter = scan_word-shorter file (skip_spaces file) w rest refl read in
      let more =
        words_loop-fuel m n rest (paths ++ w ∷ []) (omega (arith, shorter))
          (omega (arith, shorter)) in
      rw (words_loop, read, more) refl
]
