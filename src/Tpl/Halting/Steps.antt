-- ===== src/Tpl/Halting/Steps.antt =====
-- What a computation needs to end: the templates of a group, and a rank that bounds how many templates
-- it may still enter by their names.
use cartograph_nvim.Base.{ℕ, ◌+◌, ◌-◌, ◌*◌, ◌≤◌, ◌≡◌, ◌≢◌, refl, sym, ◌∙◌, arith}
use mathlib.Core.Path.{subst}
use cartograph_nvim.Tpl.Host.{Group}
use cartograph_nvim.Tpl.World.{Inner, World, out_of_fuel, Result, ok, panics, M, continue, ◌>>=◌}
use cartograph_nvim.Tpl.Halting.Spare.{spare, Grows, spare-Grows}

-- The state of an execution as far as ends go: its templates stay, its depth is the same again, and no
-- name counts fewer running includes.
pub record Kept (s t : Inner) : Type 0 where
  pub group : t.group ≡ s.group
  pub depth : t.depth ≡ s.depth
  pub included : Grows s.included t.included

pub Kept-refl : (s : Inner) → Kept s s
Kept-refl s = record { group = refl; depth = refl; included = λ k. omega arith }

pub Kept-trans : (s t u : Inner) → Kept s t → Kept t u → Kept s u
Kept-trans s t u p q = record {
  group = q.group ∙ p.group;
  depth = q.depth ∙ p.depth;
  included = λ k. omega (arith, p.included k, q.included k);
}

-- How many templates may still be entered: each include starts again at depth 0.
abbrev pub rank : Group → Inner → ℕ
rank g s = spare g.templates s.included * 100001 + (100000 - s.depth)

-- A state over the templates of `g` whose rank is `r` at most.
pub record Ready (g : Group) (r : ℕ) (s : Inner) : Type 0 where
  pub group : s.group ≡ g
  pub depth : s.depth ≤ 100000
  pub bound : rank g s ≤ r

pub Kept-Ready : (g : Group) (r : ℕ) (s t : Inner) → Kept s t → Ready g r s → Ready g r t
Kept-Ready g r s t k p = record {
  group = k.group ∙ p.group;
  depth = omega (arith, k.depth, p.depth);
  bound = omega (arith, k.depth, p.bound, spare-Grows g.templates s.included t.included k.included);
}

-- A computation that ends: with any result but an end of fuel.
pub record Ended {A : Type 0} (w : World) (x : Result A × World) : Type 0 where
  pub ends : x.0 ≢ panics out_of_fuel
  pub kept : Kept w.inner x.1.inner

module _ (g : Group) (r : ℕ) where
  abbrev pub Ends : (A : Type 0) → M A → M A → Type 0
  Ends A m m' = (w : World) → Ready g r w.inner → Ended w (m w)

  pub same_inner :
      {A : Type 0} (w : World) (a : A) (w' : World) → w'.inner ≡ w.inner → Ended w (ok a, w')
  same_inner w a w' e = record {
    ends = λ p. cc p;
    kept = subst (Kept w.inner) (sym e) (Kept-refl w.inner);
  }

  continue-Ended :
      {A B : Type 0} (w : World) (f : A → M B) (x : Result A × World)
      → ((a : A) → Ends B (f a) (f a))
      → Ready g r w.inner
      → Ended w x
      → Ended w (continue f x.0 x.1)
  continue-Ended w f (ok a, w') q p k =
      let next = q a w' (Kept-Ready g r w.inner w'.inner k.kept p) in
      record { ends = next.ends; kept = Kept-trans _ _ _ k.kept next.kept }
  continue-Ended w f (panics e, w') q p k = record { ends = λ z. k.ends cc; kept = k.kept }

  pub Ends-bind :
      (A B : Type 0) (m m' : M A) (f f' : A → M B)
      → Ends A m m'
      → ((a : A) → Ends B (f a) (f' a))
      → Ends B (m >>= f) (m' >>= f')
  unfolding ◌>>=◌
  Ends-bind A B m m' f f' p q w ready = continue-Ended w f (m w) q ready (p w ready)
