-- ===== src/Rio/Write.antt =====
-- gflib/gf-student.h: `rio_writen` sends the buffer, all of it or a prefix.
use cache_server.Base.{
  ℕ, zero, suc, ◌≤◌, ◌≡◌, refl, sym, ap, ◌∙◌, ◌↔◌, true, false, Bool, some, List, [], ◌∷◌, ◌++◌,
  arith, length, length-drop, take, drop, take-append-drop, append_assoc, append-nil,
}
use cache_server.Base.Int.{pos}
use cache_server.Text.{Bytes}
use cache_server.Rio.{Answer, moves, interrupted, refused, Written, write_loop, rio_writen}

-- At least `n` calls make progress, and the others are interrupted.
abbrev pub Patient : ℕ → List Answer → Type 0
Patient zero script = Unit
Patient (suc n) [] = ⊥
Patient (suc n) (moves zero ∷ script) = ⊥
Patient (suc n) (moves (suc k) ∷ script) = Patient n script
Patient (suc n) (interrupted ∷ script) = Patient (suc n) script
Patient (suc n) (refused ∷ script) = ⊥

-- What is sent, and what is left: nothing exactly if the result is the length.
abbrev pub Sends : Bytes → Written → Type 0
Sends buf w =
    (left : Bytes) × (w.sent ++ left ≡ buf) × ((w.result ≡ some (pos (length buf))) ↔ (left ≡ []))

module _ (buf : Bytes) where
  write_loop-Sends :
      (script : List Answer) (e : Bool) (rem sent : Bytes)
      → sent ++ rem ≡ buf
      → Sends buf (write_loop script e (length buf) rem sent)
  unfolding write_loop
  write_loop-Sends script e [] sent h = ([], h, ((λ _. refl), λ _. refl))
  write_loop-Sends [] e (b ∷ rem) sent h = (b ∷ rem, h, ((λ q. cc), λ q. cc))
  write_loop-Sends (moves zero ∷ script) true (b ∷ rem) sent h =
      write_loop-Sends script true (b ∷ rem) sent h
  write_loop-Sends (moves zero ∷ script) false (b ∷ rem) sent h = (b ∷ rem, h, ((λ q. cc), λ q. cc))
  write_loop-Sends (moves (suc k) ∷ script) e (b ∷ rem) sent h =
      write_loop-Sends script e (drop (suc k) (b ∷ rem)) (sent ++ take (suc k) (b ∷ rem)) (
        append_assoc sent (take (suc k) (b ∷ rem)) (drop (suc k) (b ∷ rem))
        ∙ ap (λ s. sent ++ s) (take-append-drop (suc k) (b ∷ rem))
        ∙ h)
  write_loop-Sends (interrupted ∷ script) e (b ∷ rem) sent h =
      write_loop-Sends script true (b ∷ rem) sent h
  write_loop-Sends (refused ∷ script) e (b ∷ rem) sent h = (b ∷ rem, h, ((λ q. cc), λ q. cc))

-- Whatever the answers, `rio_writen` sends a prefix of the buffer, and it returns the buffer's length
-- exactly if it has sent all of it.
pub rio_writen-Sends :
    (script : List Answer) (e : Bool) (buf : Bytes) → Sends buf (rio_writen script e buf)
unfolding rio_writen
rio_writen-Sends script e buf = write_loop-Sends buf script e buf [] refl

write_loop-all :
    (script : List Answer) (e : Bool) (n m : ℕ) (rem sent : Bytes)
    → length rem ≤ m
    → Patient m script
    → ((write_loop script e n rem sent).result ≡ some (pos n))
      × ((write_loop script e n rem sent).sent ≡ sent ++ rem)
unfolding write_loop
write_loop-all script e n m [] sent le p = (refl, sym (append-nil sent))
write_loop-all script e n zero (b ∷ rem) sent le p = absurd (omega arith)
write_loop-all [] e n (suc m) (b ∷ rem) sent le p = elim p [ ]
write_loop-all (moves zero ∷ script) e n (suc m) (b ∷ rem) sent le p = elim p [ ]
write_loop-all (moves (suc k) ∷ script) e n (suc m) (b ∷ rem) sent le p =
    let (r, s) =
      write_loop-all script e n m (drop (suc k) (b ∷ rem)) (sent ++ take (suc k) (b ∷ rem))
        (omega (arith, length-drop k rem)) p in
    (
      r,
      s
          ∙ append_assoc sent (take (suc k) (b ∷ rem)) (drop (suc k) (b ∷ rem))
          ∙ ap (λ s. sent ++ s) (take-append-drop (suc k) (b ∷ rem)),
    )
write_loop-all (interrupted ∷ script) e n (suc m) (b ∷ rem) sent le p =
    write_loop-all script true n (suc m) (b ∷ rem) sent le p
write_loop-all (refused ∷ script) e n (suc m) (b ∷ rem) sent le p = elim p [ ]

-- If no call is refused and as many calls as there are bytes make progress, `rio_writen` returns
-- the length and has sent the buffer; interrupted calls change nothing.
pub rio_writen-all :
    (script : List Answer) (e : Bool) (buf : Bytes)
    → Patient (length buf) script
    → ((rio_writen script e buf).result ≡ some (pos (length buf)))
      × ((rio_writen script e buf).sent ≡ buf)
unfolding rio_writen
rio_writen-all script e buf p =
    write_loop-all script e (length buf) (length buf) buf [] (omega arith) p
