-- ===== src/EasyServer/Counts.antt =====
-- The counters of an EasyServer, over all its contexts.
use flinter.Base.{
  ℕ, zero, suc, ◌+◌, ◌<◌, ◌≤◌, ◌≡◌, refl, ◌==◌, if◌then◌else◌, false, ap, arith, Bool-cases, inl,
  inr,
}
use flinter.Base.Map.{total}
use flinter.EasyServer.{IoContext, is_outgoing}

unfoldable pub sum_to : ℕ → (ℕ → ℕ) → ℕ
sum_to zero f = 0
sum_to (suc n) f = f n + sum_to n f

-- A function of one place changes one term of a sum.
module _ {A : Type 0} (t : ℕ) (x : A) (f : A → ℕ) (g : ℕ → A) where
  sum_to-beyond :
      (n : ℕ) → n < suc t → sum_to n (λ u. f (if t == u then x else g u)) ≡ sum_to n (λ u. f (g u))
  unfolding sum_to
  sum_to-beyond zero h = refl
  sum_to-beyond (suc n) h =
      let other : (t == n) ≡ false = ground arith in
      rw other (omega (arith, sum_to-beyond n (omega arith)))

  pub sum_to-set :
      (n : ℕ)
      → t < n
      → sum_to n (λ u. f (if t == u then x else g u)) + f (g t) ≡ f x + sum_to n (λ u. f (g u))
  unfolding sum_to
  sum_to-set zero h = ground arith
  sum_to-set (suc n) h = elim (Bool-cases (t == n)) [
    | inl same ↦
        let e : t ≡ n = ground arith in
        rw same (omega (arith, sum_to-beyond n (omega (arith, e)), ap (λ u. f (g u)) e))
    | inr other ↦ rw other (omega (arith, sum_to-set n (ground (arith, other))))
  ]

-- The linkages of a context that the server has accepted, and those that it has connected.
abbrev pub one_in : ℕ → ℕ → ℕ
one_in c l = if is_outgoing c then 0 else 1

abbrev pub one_out : ℕ → ℕ → ℕ
one_out c l = if is_outgoing c then 1 else 0

unfoldable pub ins : IoContext → ℕ
ins ioc = total one_in ioc.linkages

unfoldable pub outs : IoContext → ℕ
outs ioc = total one_out ioc.linkages

pub sum_to-bound : (n t : ℕ) (f : ℕ → ℕ) → t < n → f t ≤ sum_to n f
unfolding sum_to
sum_to-bound zero t f h = ground arith
sum_to-bound (suc n) t f h = elim (Bool-cases (t == n)) [
  | inl same ↦ let e : t ≡ n = ground arith in omega (arith, ap f e)
  | inr other ↦ omega (arith, sum_to-bound n t f (ground (arith, other)))
]
