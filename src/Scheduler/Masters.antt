-- ===== src/Scheduler/Masters.antt =====
-- tap/control/command_scheduler.cpp: the lifetimes of schedulers, and the master among them.
use lateral_root.Prelude.{
  subst, ℕ, ◌+◌, ◌≤◌, ◌≡◌, ap, ◌∙◌, sym, Bool, true, false, List, [], ◌∷◌, ◌++◌, arith,
  if◌then◌else◌, Bool-cases, inl, inr,
}
use lateral_root.Objects.{Statics}
use lateral_root.Scheduler.{Scheduler, construct_scheduler, destruct_scheduler, raise_error}

-- The schedulers that are alive, with the static members.
pub record Living (W : Type 0) : Type 0 where
  pub schedulers : List (Scheduler W)
  pub statics : Statics

abbrev pub flag : Bool → ℕ
flag b = if b then 1 else 0

abbrev pub count_masters : {W : Type 0} → List (Scheduler W) → ℕ
count_masters [] = 0
count_masters (s ∷ xs) = flag s.is_master_scheduler + count_masters xs

-- A scheduler is constructed or destructed.
pub data Lifetime {W : Type 0} : Living W → Living W → Type 0 where
  begins :
      (l : Living W) (master : Bool) (function : ℕ) (w : W)
      → Lifetime l (record {
        schedulers = (construct_scheduler master function l.statics w).0 ∷ l.schedulers;
        statics = (construct_scheduler master function l.statics w).1;
      })
  ends :
      (xs ys : List (Scheduler W)) (s : Scheduler W) (g : Statics)
      → Lifetime
          (record { schedulers = xs ++ s ∷ ys; statics = g })
          (record { schedulers = xs ++ ys; statics = destruct_scheduler s g })

pub data Lifetimes {W : Type 0} (start : Statics) : Living W → Type 0 where
  nobody : Lifetimes start (record { schedulers = []; statics = start })
  and_then : {l l' : Living W} → Lifetimes start l → Lifetime l l' → Lifetimes start l'

abbrev OneMaster : {W : Type 0} → Living W → Type 0
OneMaster l = count_masters l.schedulers ≡ flag l.statics.master_scheduler_exists

count_masters-++ :
    {W : Type 0} (xs ys : List (Scheduler W))
    → count_masters (xs ++ ys) ≡ count_masters xs + count_masters ys
count_masters-++ [] ys = omega arith
count_masters-++ (x ∷ xs) ys = ground (arith, count_masters-++ xs ys)

begins-OneMaster :
    {W : Type 0} (l : Living W) (master : Bool) (function : ℕ) (w : W)
    → OneMaster l
    → flag (construct_scheduler master function l.statics w).0.is_master_scheduler
        + count_masters l.schedulers
      ≡ flag (construct_scheduler master function l.statics w).1.master_scheduler_exists
unfolding construct_scheduler raise_error
begins-OneMaster l false function w h = elim (Bool-cases l.statics.master_scheduler_exists) [
  | inl e ↦ (let k : count_masters l.schedulers ≡ flag true = h ∙ ap flag e in rw e (omega arith))
  | inr e ↦ (let k : count_masters l.schedulers ≡ flag false = h ∙ ap flag e in rw e (omega arith))
]
begins-OneMaster l true function w h = elim (Bool-cases l.statics.master_scheduler_exists) [
  | inl e ↦ (let k : count_masters l.schedulers ≡ flag true = h ∙ ap flag e in rw e (omega arith))
  | inr e ↦ (let k : count_masters l.schedulers ≡ flag false = h ∙ ap flag e in rw e (omega arith))
]

ends-OneMaster :
    {W : Type 0} (xs ys : List (Scheduler W)) (s : Scheduler W) (g : Statics)
    → count_masters (xs ++ s ∷ ys) ≡ flag g.master_scheduler_exists
    → count_masters (xs ++ ys) ≡ flag (destruct_scheduler s g).master_scheduler_exists
unfolding destruct_scheduler
ends-OneMaster xs ys s g h =
    let k = sym (count_masters-++ xs (s ∷ ys)) ∙ h in
    let p = count_masters-++ xs ys in
    elim (Bool-cases s.is_master_scheduler) [
      | inl e ↦ elim (Bool-cases g.master_scheduler_exists) [
        | inl f ↦
            (let j : count_masters xs + (1 + count_masters ys) ≡ 1 =
                ap (λ b. count_masters xs + (flag b + count_masters ys)) (sym e) ∙ k ∙ ap flag f in
              rw e (omega arith))
        | inr f ↦
            (let j : count_masters xs + (1 + count_masters ys) ≡ 0 =
                ap (λ b. count_masters xs + (flag b + count_masters ys)) (sym e) ∙ k ∙ ap flag f in
              rw e (omega arith))
      ]
      | inr e ↦
          (let j : count_masters xs + (0 + count_masters ys) ≡ flag g.master_scheduler_exists =
              ap (λ b. count_masters xs + (flag b + count_masters ys)) (sym e) ∙ k in
            rw e (omega arith))
    ]

flag-le : (b : Bool) → flag b ≤ 1
flag-le true = omega arith
flag-le false = omega arith

Lifetime-OneMaster : {W : Type 0} {l l' : Living W} → OneMaster l → Lifetime l l' → OneMaster l'
Lifetime-OneMaster h (begins l master function w) = begins-OneMaster l master function w h
Lifetime-OneMaster h (ends xs ys s g) = ends-OneMaster xs ys s g h

lifetimes-OneMaster :
    {W : Type 0} {start : Statics} {l : Living W}
    → start.master_scheduler_exists ≡ false
    → Lifetimes start l
    → OneMaster l
lifetimes-OneMaster h nobody = ap flag (sym h)
lifetimes-OneMaster h (and_then r t) = Lifetime-OneMaster (lifetimes-OneMaster h r) t

-- If no master scheduler exists at the start, then however schedulers are constructed and
-- destructed, at most one living scheduler is the master scheduler, and there is one exactly when
-- the static flag is set.
pub Lifetimes-OneMaster :
    {W : Type 0} (start : Statics)
    → start.master_scheduler_exists ≡ false
    → (l : Living W) → Lifetimes start l
    → (count_masters l.schedulers ≡ flag l.statics.master_scheduler_exists)
      × (count_masters l.schedulers ≤ 1)
Lifetimes-OneMaster start h l r =
    let k = lifetimes-OneMaster h r in
    (k, subst (λ n. n ≤ 1) (sym k) (flag-le l.statics.master_scheduler_exists))
