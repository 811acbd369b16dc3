-- ===== src/Options/Loop.antt =====
-- The loop over the options, for every `main`: what it accepts, and that the last of an option counts.
use cache_server.Base.{
  ℕ, ◌≡◌, ◌↔◌, refl, ap, sym, ◌∙◌, Bool, true, ◌&&◌, Option, none, some, List, [], ◌∷◌, ◌==◌,
  if◌then◌else◌, arith,
}
use cache_server.Text.{Bytes}
use cache_server.Options.{Start, exits, fault, run, then_start, Answer, getopt_loop}

module _ {ℓ} {A : Type ℓ} where
  pub run_inj : {a b : A} → run a ≡ run b → a ≡ b
  run_inj h = cc h

  pub then_start-run {κ} :
      {B : Type κ} (s : Start A) (next : A → Start B) (b : B)
      → then_start s next ≡ run b
      → (a : A) × (s ≡ run a) × (next a ≡ run b)
  then_start-run (exits code) next b e = cc e
  then_start-run fault next b e = cc e
  then_start-run (run a) next b e = (a, refl, e)

&&_true : (a b : Bool) → (a && b) ≡ true → (a ≡ true) × (b ≡ true)
&&_true a b h = ground arith

-- The argument of the last option with a character, if there is one.
unfoldable pub last_arg : ℕ → List Answer → Option Bytes
last_arg c [] = none
last_arg c ((k, arg) ∷ rest) = elim (last_arg c rest) [
  | some a ↦ some a
  | none ↦ if k == c then some arg else none
]

abbrev pub value_or {ℓ} : {V : Type ℓ} → (Bytes → V) → V → Option Bytes → V
value_or conv default none = default
value_or conv default (some arg) = conv arg

abbrev pub all_known : (ℕ → Bool) → List Answer → Bool
all_known known [] = true
all_known known ((k, arg) ∷ rest) = known k && all_known known rest

module _ {ℓ} {A : Type ℓ} (apply : ℕ → Bytes → A → A) where
  abbrev pub apply_all : List Answer → A → A
  apply_all [] a = a
  apply_all ((k, arg) ∷ rest) a = apply_all rest (apply k arg a)

  pub apply_all-last_arg :
      (V : Type 0) (get : A → V) (c : ℕ) (conv : Bytes → V)
      → ((k : ℕ) (arg : Bytes) (a : A) → get (apply k arg a) ≡ (if k == c then conv arg else get a))
      → (options : List Answer) (a : A)
      → get (apply_all options a) ≡ value_or conv (get a) (last_arg c options)
  unfolding last_arg
  apply_all-last_arg V get c conv h [] a = refl
  apply_all-last_arg V get c conv h ((k, arg) ∷ rest) a =
      ground (arith, apply_all-last_arg V get c conv h rest (apply k arg a), h k arg a)

  -- The known options are applied, and no other lets the process go on.
  abbrev pub Applies : (ℕ → Bool) → (ℕ → Bytes → A → Start A) → Type ℓ
  Applies known option =
      (k : ℕ) (arg : Bytes) (a : A)
      → (known k ≡ true → option k arg a ≡ run (apply k arg a))
        × ((b : A) → option k arg a ≡ run b → known k ≡ true)

  module _ (known : ℕ → Bool) (option : ℕ → Bytes → A → Start A) (h : Applies known option) where
    pub getopt_loop-known :
        (options : List Answer) (a : A)
        → all_known known options ≡ true
        → getopt_loop option options a ≡ run (apply_all options a)
    unfolding getopt_loop
    getopt_loop-known [] a e = refl
    getopt_loop-known ((k, arg) ∷ rest) a e =
        let (first, others) = &&_true (known k) (all_known known rest) e in
        rw ((h k arg a).0 first) (getopt_loop-known rest (apply k arg a) others)

    pub getopt_loop-run :
        (options : List Answer) (a b : A)
        → getopt_loop option options a ≡ run b
        → (all_known known options ≡ true) × (b ≡ apply_all options a)
    unfolding getopt_loop
    getopt_loop-run [] a b e = (refl, sym (run_inj e))
    getopt_loop-run ((k, arg) ∷ rest) a b e =
        let (c, first, last) = then_start-run (option k arg a) (getopt_loop option rest) b e in
        let known_first = (h k arg a).1 c first in
        let same : c ≡ apply k arg a = run_inj (sym first ∙ (h k arg a).0 known_first) in
        let (more, all) =
          getopt_loop-run rest (apply k arg a) b (ap (getopt_loop option rest) (sym same) ∙ last) in
        (rw known_first more, all)

    -- What follows the loop is run on the values of the last options.
    pub loop_iff {κ μ} :
        {B : Type κ} (Q : Type μ) (go : A → Start B) (options : List Answer) (a last : A) (w : B)
        → apply_all options a ≡ last
        → go last ≡ run w ↔ Q
        → then_start (getopt_loop option options a) go ≡ run w
          ↔ ((all_known known options ≡ true) × Q)
    loop_iff Q go options a last w is_last iff = (
      λ e.
          let (o, parsed, gone) = then_start-run _ _ w e in
          let (all, o_last) = getopt_loop-run options a o parsed in
          (all, iff.0 (ap go (sym is_last ∙ sym o_last) ∙ gone)),
      λ h. let parsed = getopt_loop-known options a h.0 ∙ ap run is_last in rw parsed (iff.1 h.1),
    )

-- Tests that let a value pass unchanged, and then a start.
pub guards_then {ℓ κ μ ν} :
    {A : Type ℓ} {B : Type κ} (P : Type μ) (Q : Type ν) (guards : A → Start A) (start : A → Start B)
    (a : A) (w : B)
    → ((b : A) → guards a ≡ run b → P × (b ≡ a))
    → (P → guards a ≡ run a)
    → start a ≡ run w ↔ Q
    → then_start (guards a) start ≡ run w ↔ (P × Q)
guards_then P Q guards start a w check pass starts = (
  λ e.
      let (b, passed, started) = then_start-run _ _ w e in
      let (p, same) = check b passed in (p, starts.0 (ap start (sym same) ∙ started)),
  λ h. rw (pass h.0) (starts.1 h.1),
)

-- Tests that let a value pass unchanged, and then a start that succeeds.
pub guards_iff {ℓ κ μ} :
    {A : Type ℓ} {B : Type κ} (P : Type μ) (guards : A → Start A) (start : A → Start B) (a : A)
    (w result : B)
    → ((b : A) → guards a ≡ run b → P × (b ≡ a))
    → (P → guards a ≡ run a)
    → start a ≡ run result
    → then_start (guards a) start ≡ run w ↔ (P × (w ≡ result))
guards_iff P guards start a w result check pass starts = (
  λ e.
      let (b, passed, started) = then_start-run _ _ w e in
      let (p, same) = check b passed in (p, run_inj (sym started ∙ ap start same ∙ starts)),
  λ h. rw (pass h.0) (starts ∙ ap run (sym h.1)),
)
