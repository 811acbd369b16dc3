-- ===== src/Rio/Complete.antt =====
-- gflib/gf-student.h: `rio_readn` reads all that it is asked for, if it arrives.
use mathlib.Core.Path.{subst}
use cache_server.Base.{
  Bool, ℕ, zero, suc, ◌+◌, ◌-◌, ◌≤◌, ◌≡◌, refl, sym, ap, ◌∙◌, some, true, List, [], ◌∷◌, ◌++◌,
  arith, length, length-drop, length-take, take, drop, take-append-drop, append_assoc, append-nil,
}
use cache_server.Base.Int.{pos}
use cache_server.Text.{Bytes}
use cache_server.Rio.{
  Answer, moves, interrupted, refused, Got, read_loop, rio_readn, write_loop, rio_writen,
}
use cache_server.Rio.Write.{Patient}

Patient-weaken : (n : ℕ) (script : List Answer) → Patient (suc n) script → Patient n script
Patient-weaken zero script p = tt
Patient-weaken (suc n) [] p = p
Patient-weaken (suc n) (moves zero ∷ script) p = p
Patient-weaken (suc n) (moves (suc k) ∷ script) p = Patient-weaken n script p
Patient-weaken (suc n) (interrupted ∷ script) p = Patient-weaken (suc n) script p
Patient-weaken (suc n) (refused ∷ script) p = p

Patient-less : (d n : ℕ) (script : List Answer) → Patient (d + n) script → Patient n script
Patient-less zero n script p = let e : 0 + n ≡ n = omega arith in subst (λ m. Patient m script) e p
Patient-less (suc d) n script p =
    let e : suc d + n ≡ suc (d + n) = omega arith in
    Patient-less d n script (Patient-weaken (d + n) script (subst (λ m. Patient m script) e p))

pub Patient-le : (m n : ℕ) (script : List Answer) → m ≤ n → Patient n script → Patient m script
Patient-le m n script le p =
    let e : n ≡ n - m + m = omega arith in
    Patient-less (n - m) m script (subst (λ m. Patient m script) e p)

take_both : (n : ℕ) (t rest : Bytes) → take (length t) (take n (t ++ rest)) ≡ take n t
take_both zero [] rest = refl
take_both (suc n) [] rest = refl
take_both zero (c ∷ t) rest = refl
take_both (suc n) (c ∷ t) rest = ap (λ s. c ∷ s) (take_both n t rest)

drop_both : (n : ℕ) (t rest : Bytes) → drop (length (take n t)) (t ++ rest) ≡ drop n t ++ rest
drop_both zero t rest = refl
drop_both (suc n) [] rest = refl
drop_both (suc n) (c ∷ t) rest = drop_both n t rest

abbrev pub AllRead : ℕ → Bytes → Bytes → Got → Type 0
AllRead k got rest g =
    (g.bytes ≡ got)
    × (g.incoming ≡ rest)
    × (g.result ≡ some (pos (length got)))
    × Patient k g.answers

read_loop-all :
    (script : List Answer) (t rest got : Bytes) (k : ℕ)
    → Patient (length t + k) script
    → AllRead k (got ++ t) rest (read_loop script (t ++ rest) (length t) got)
unfolding read_loop
read_loop-all script [] rest got k p =
    let e : 0 + k ≡ k = omega arith in
    (
      sym (append-nil got),
      refl,
      ap (λ s. some (pos (length s))) (sym (append-nil got)),
      subst (λ m. Patient m script) e p,
    )
read_loop-all [] (c ∷ t) rest got k p =
    let e : length (c ∷ t) + k ≡ suc (length t + k) = omega arith in
    elim (subst (λ m. Patient m []) e p) [ ]
read_loop-all (moves zero ∷ script) (c ∷ t) rest got k p =
    let e : length (c ∷ t) + k ≡ suc (length t + k) = omega arith in
    elim (subst (λ m. Patient m (moves zero ∷ script)) e p) [ ]
read_loop-all (refused ∷ script) (c ∷ t) rest got k p =
    let e : length (c ∷ t) + k ≡ suc (length t + k) = omega arith in
    elim (subst (λ m. Patient m (refused ∷ script)) e p) [ ]
read_loop-all (interrupted ∷ script) (c ∷ t) rest got k p =
    let e : length (c ∷ t) + k ≡ suc (length t + k) = omega arith in
    let q : Patient (suc (length t + k)) script =
      subst (λ m. Patient m (interrupted ∷ script)) e p in
    read_loop-all script (c ∷ t) rest got k (subst (λ m. Patient m script) (sym e) q)
read_loop-all (moves (suc j) ∷ script) (c ∷ t) rest got k p =
    let e : length (c ∷ t) + k ≡ suc (length t + k) = omega arith in
    let q : Patient (length t + k) script = subst (λ m. Patient m (moves (suc j) ∷ script)) e p in
    let part = c ∷ take j t in
    let left = drop j t in
    let same : c ∷ take (length t) (take j (t ++ rest)) ≡ part =
      ap (λ s. c ∷ s) (take_both j t rest) in
    let size : suc (length t) - length part ≡ length left =
      omega (arith, length-take j t, length-drop j t) in
    let joined : (got ++ part) ++ left ≡ got ++ c ∷ t =
      append_assoc got part left ∙ ap (λ s. got ++ c ∷ s) (take-append-drop j t) in
    let all =
      read_loop-all script left rest (got ++ part) k
        (Patient-le (length left + k) (length t + k) script (omega (arith, length-drop j t)) q) in
    let run : read_loop (moves (suc j) ∷ script) (c ∷ t ++ rest) (suc (length t)) got
        ≡ read_loop script (left ++ rest) (length left) (got ++ part) =
      ap
        (λ s.
          read_loop script (drop (length s) (c ∷ t ++ rest)) (suc (length t) - length s) (got ++ s))
        same
      ∙ ap (λ r. read_loop script r (suc (length t) - length part) (got ++ part))
          (drop_both j t rest)
      ∙ ap (λ n. read_loop script (left ++ rest) n (got ++ part)) size in
    subst (AllRead k (got ++ c ∷ t) rest) (sym run) (
      subst (λ b. AllRead k b rest (read_loop script (left ++ rest) (length left) (got ++ part)))
        joined all)

pub rio_readn-all :
    (script : List Answer) (t rest : Bytes) (k : ℕ)
    → Patient (length t + k) script
    → AllRead k t rest (rio_readn script (t ++ rest) (length t))
unfolding rio_readn
rio_readn-all script t rest k p = read_loop-all script t rest [] k p

write_loop-left :
    (script : List Answer) (e : Bool) (n : ℕ) (rem sent : Bytes) (k : ℕ)
    → Patient (length rem + k) script
    → Patient k (write_loop script e n rem sent).answers
unfolding write_loop
write_loop-left script e n [] sent k p =
    let q : 0 + k ≡ k = omega arith in subst (λ m. Patient m script) q p
write_loop-left [] e n (b ∷ rem) sent k p =
    let q : length (b ∷ rem) + k ≡ suc (length rem + k) = omega arith in
    elim (subst (λ m. Patient m []) q p) [ ]
write_loop-left (moves zero ∷ script) e n (b ∷ rem) sent k p =
    let q : length (b ∷ rem) + k ≡ suc (length rem + k) = omega arith in
    elim (subst (λ m. Patient m (moves zero ∷ script)) q p) [ ]
write_loop-left (refused ∷ script) e n (b ∷ rem) sent k p =
    let q : length (b ∷ rem) + k ≡ suc (length rem + k) = omega arith in
    elim (subst (λ m. Patient m (refused ∷ script)) q p) [ ]
write_loop-left (interrupted ∷ script) e n (b ∷ rem) sent k p =
    let q : length (b ∷ rem) + k ≡ suc (length rem + k) = omega arith in
    let r : Patient (suc (length rem + k)) script =
      subst (λ m. Patient m (interrupted ∷ script)) q p in
    write_loop-left script true n (b ∷ rem) sent k (subst (λ m. Patient m script) (sym q) r)
write_loop-left (moves (suc j) ∷ script) e n (b ∷ rem) sent k p =
    let q : length (b ∷ rem) + k ≡ suc (length rem + k) = omega arith in
    let r : Patient (length rem + k) script = subst (λ m. Patient m (moves (suc j) ∷ script)) q p in
    write_loop-left script e n (drop j rem) (sent ++ b ∷ take j rem) k (
      Patient-le (length (drop j rem) + k) (length rem + k) script
        (omega (arith, length-drop j rem)) r)

-- What a complete `rio_writen` leaves.
pub rio_writen-left :
    (script : List Answer) (e : Bool) (buf : Bytes) (k : ℕ)
    → Patient (length buf + k) script
    → Patient k (rio_writen script e buf).answers
unfolding rio_writen
rio_writen-left script e buf k p = write_loop-left script e (length buf) buf [] k p
