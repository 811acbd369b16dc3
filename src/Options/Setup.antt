-- ===== src/Options/Setup.antt =====
-- gflib/gfserver.c: the settings that the `main` functions leave behind.
use mathlib.Core.List.{append_assoc}
use cache_server.Base.{
  ℕ, zero, suc, ◌+◌, ◌%◌, ◌^◌, ◌≡◌, refl, ap, sym, ◌∙◌, true, Option, none, some, List, [], ◌∷◌,
  ◌++◌, length, length-append, ltb, lt→ltb, arith,
}
use cache_server.Options.{run}
use cache_server.Options.Settings.{HandlerFunc, Arg, Settings, replicate, set, arg_loop, set_up}

set-middle {ℓ} :
    {A : Type ℓ} (xs : List A) (x y : A) (ys : List A)
    → set (xs ++ x ∷ ys) (length xs) y ≡ (xs ++ y ∷ []) ++ ys
set-middle [] x y ys = refl
set-middle (z ∷ xs) x y ys = ap (λ zs. z ∷ zs) (set-middle xs x y ys)

abbrev with_args : Settings → List (Option Arg) → Settings
with_args gfs args = record gfs { args = args }

arg_loop-with_args :
    (n : ℕ) (a : Arg) (gfs : Settings) (done : List (Option Arg))
    → arg_loop n (length done) a (with_args gfs (done ++ replicate n none))
      ≡ run (with_args gfs (done ++ replicate n (some a)))
unfolding arg_loop
arg_loop-with_args zero a gfs done = refl
arg_loop-with_args (suc n) a gfs done =
    let inside : ltb (length done) (length (done ++ none ∷ replicate n none)) ≡ true =
      lt→ltb _ _ (omega (arith, length-append done (none ∷ replicate n none))) in
    let more : length (done ++ some a ∷ []) ≡ length done + 1 = length-append done (some a ∷ []) in
    rw (inside, set-middle done none (some a) (replicate n none), sym more)
      (arg_loop-with_args n a gfs (done ++ some a ∷ [])
        ∙ ap (λ args. run (with_args gfs args))
            (append_assoc done (some a ∷ []) (replicate n (some a))))

abbrev pub serving : (nthreads port maxnpending : ℕ) → HandlerFunc → Arg → Settings
serving nthreads port maxnpending func a = record {
  nthreads = nthreads;
  args = replicate nthreads (some a);
  maxnpending = maxnpending;
  port = port % 2 ^ 16;
  handler = some func;
}

-- Each worker's argument is set, and no cell outside the array is written.
pub set_up-serving :
    (nthreads port maxnpending : ℕ) (func : HandlerFunc) (a : Arg)
    → set_up nthreads port maxnpending func a ≡ run (serving nthreads port maxnpending func a)
unfolding set_up
set_up-serving nthreads port maxnpending func a =
    arg_loop-with_args nthreads a (serving nthreads port maxnpending func a) []
