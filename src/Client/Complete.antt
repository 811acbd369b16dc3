-- ===== src/Client/Complete.antt =====
-- gflib/gfclient.c: `recvfile` receives the whole file if it arrives.
use mathlib.Core.Path.{subst}
use cache_server.Base.{
  ℕ, zero, suc, ◌+◌, ◌-◌, ◌≤◌, ◌<◌, ◌≡◌, refl, sym, ap, ◌∙◌, true, some, List, [], ◌∷◌, ◌++◌, arith,
  length, length-drop, length-take, take, drop, take-append-drop, append_assoc, append-nil,
  Bool-cases, inl, inr, ◌==◌,
}
use cache_server.Base.Int.{pos}
use cache_server.Text.{Bytes}
use cache_server.Rio.{Answer, Got, rio_readn}
use cache_server.Rio.Write.{Patient}
use cache_server.Rio.Complete.{AllRead, rio_readn-all}
use cache_server.Client.{Received, block, receive_round, receive_loop, recvfile}

abbrev pub AllReceived : ℕ → Bytes → Bytes → Received → Type 0
AllReceived k file rest r =
    (r.over ≡ true) × (r.rem ≡ 0) × (r.file ≡ file) × (r.incoming ≡ rest) × Patient k r.answers

nil_of_length : (b : Bytes) → length b ≡ 0 → b ≡ []
nil_of_length [] h = refl
nil_of_length (c ∷ b) h = absurd (omega (arith, h))

-- A round that reads `a`, where `b` is still to come.
receive_round-all :
    (a b rest file : Bytes) (n k : ℕ) (got : Got) (more : ℕ → Bytes → Received)
    → length a ≡ suc n
    → AllRead (length b + k) a (b ++ rest) got
    → AllReceived k ((file ++ a) ++ b) rest (more (length b) (file ++ a))
    → AllReceived k ((file ++ a) ++ b) rest (receive_round got (length a + length b) file more)
receive_round-all a b rest file n k got more size (bytes, incoming, result, patient) next =
    let r : got.result ≡ some (pos (suc n)) = result ∙ ap (λ m. some (pos m)) size in
    let rem : length a + length b - suc n ≡ length b = omega (arith, size) in
    let total = length a + length b in
    elim (Bool-cases (total - suc n == 0)) [
      | inl z ↦
          let empty : length b ≡ 0 = ground (arith, z, rem) in
          let nil : b ≡ [] = nil_of_length b empty in
          let spare : length b + k ≡ k = omega (arith, empty) in
          let step : receive_round got total file more ≡ record {
            over = true;
            rem = 0;
            file = file ++ got.bytes;
            incoming = got.incoming;
            answers = got.answers;
          } =
            rw (receive_round, r, z) refl in
          subst (AllReceived k ((file ++ a) ++ b) rest) (sym step) (
            refl,
            refl,
            ap (λ s. file ++ s) bytes
                ∙ sym (append-nil (file ++ a))
                ∙ ap (λ s. (file ++ a) ++ s) (sym nil),
            incoming ∙ ap (λ s. s ++ rest) nil,
            subst (λ m. Patient m got.answers) spare patient,
          )
      | inr z ↦
          let step : receive_round got total file more ≡ more (total - suc n) (file ++ got.bytes) =
            rw (receive_round, r, z) refl in
          subst (AllReceived k ((file ++ a) ++ b) rest)
            (sym (
              step
              ∙ ap (λ m. more m (file ++ got.bytes)) rem
              ∙ ap (λ s. more (length b) (file ++ s)) bytes))
            next
    ]

-- Nothing is left to read.
receive_round-none :
    (k : ℕ) (rest file : Bytes) (got : Got) (more : ℕ → Bytes → Received)
    → AllRead k [] rest got
    → AllReceived k (file ++ []) rest (receive_round got 0 file more)
receive_round-none k rest file got more (bytes, incoming, result, patient) =
    rw (receive_round, result) (refl, refl, sym (append-nil file), incoming, patient)

-- A round of the loop.
abbrev round_at : ℕ → List Answer → Bytes → Bytes → (count total : ℕ) → Received
round_at fuel script file stream count total =
    let got = rio_readn script stream count in
    receive_round got total file
      (λ rem' file'. receive_loop fuel got.answers got.incoming rem' file')

receive_loop-all :
    (fuel : ℕ) (script : List Answer) (t rest file : Bytes) (k : ℕ)
    → length t < fuel
    → Patient (length t + k) script
    → AllReceived k (file ++ t) rest (receive_loop fuel script (t ++ rest) (length t) file)
unfolding receive_loop
receive_loop-all zero script t rest file k lt p = absurd (omega arith)
receive_loop-all (suc fuel) script [] rest file k lt p =
    let got = rio_readn script rest 0 in
    receive_round-none k rest file got
      (λ rem' file'. receive_loop fuel got.answers got.incoming rem' file')
      (rio_readn-all script [] rest k p)
receive_loop-all (suc fuel) script (c ∷ u) rest file k lt p =
    let t = c ∷ u in
    let m = block (length t) in
    let a = take m t in
    let b = drop m t in
    let m_le : m ≤ length t = ground arith in
    let m_pos : 0 < m = ground arith in
    let cut : a ++ b ≡ t = take-append-drop m t in
    let size_a : length a ≡ m = omega (arith, length-take m t, m_le) in
    let size_b : length b ≡ length t - m = omega (arith, length-drop m t) in
    let suc_a : length a ≡ suc (m - 1) = omega (arith, size_a, m_pos) in
    let total : length a + length b ≡ length t = omega (arith, size_a, size_b, m_le) in
    let calls : length t + k ≡ length a + (length b + k) = omega (arith, total) in
    let read =
      rio_readn-all script a (b ++ rest) (length b + k) (subst (λ n. Patient n script) calls p) in
    let got = rio_readn script (a ++ (b ++ rest)) (length a) in
    let next =
      receive_loop-all fuel got.answers b rest (file ++ a) k (omega (arith, lt, size_b, m_pos))
        read.3 in
    let round =
      receive_round-all a b rest file (m - 1) k got
        (λ rem' file'. receive_loop fuel got.answers got.incoming rem' file') suc_a read
        (subst
          (λ s.
            AllReceived k ((file ++ a) ++ b) rest
              (receive_loop fuel got.answers s (length b) (file ++ a)))
          (sym read.1) next) in
    let same : round_at fuel script file (t ++ rest) m (length t)
        ≡ round_at fuel script file (a ++ (b ++ rest)) (length a) (length a + length b) =
      ap (λ s. round_at fuel script file s m (length t))
        (ap (λ s. s ++ rest) (sym cut) ∙ append_assoc a b rest)
      ∙ ap (λ q. round_at fuel script file (a ++ (b ++ rest)) q (length t)) (sym size_a)
      ∙ ap (λ n. round_at fuel script file (a ++ (b ++ rest)) (length a) n) (sym total) in
    subst (λ s. AllReceived k s rest (round_at fuel script file (t ++ rest) m (length t)))
      (append_assoc file a b ∙ ap (λ s. file ++ s) cut)
      (subst (AllReceived k ((file ++ a) ++ b) rest) (sym same) round)

-- If the bytes that the header announces arrive, the write callback gets them all, `rem` is 0, and
-- nothing after them is read.
pub recvfile-all :
    (script : List Answer) (file rest : Bytes) (k : ℕ)
    → Patient (length file + k) script
    → AllReceived k file rest (recvfile script (file ++ rest) (length file))
unfolding recvfile
recvfile-all script file rest k p =
    receive_loop-all (length file + 1) script file rest [] k (omega arith) p
