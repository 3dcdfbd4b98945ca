-- ===== src/Tree/Reachable.antt =====
-- The states that the methods of the class OperationTree in parser/cc/tree.cc lead to.
use dynare.Base.{ℕ, ◌≤◌, ◌<◌, ◌≡◌, subst, none, ok, length}
use dynare.Tree.{
  UnaryCode, BinaryCode, OperationTree, M, new_tree, add_nulary, add_unary, add_binary,
  add_derivative, nularify, forget_derivative_maps, num_constants,
}
use dynare.Tree.Invariant.{IsTree}
use dynare.Tree.Meaning.{Arithmetic}
use dynare.Tree.Nulary.{new_tree_run}
use dynare.Tree.Incidence.{IsExact}
use dynare.Tree.NularyExact.{nularify-IsExact}
use dynare.Tree.Calculus.{IsSound, Term, unary-Gives, binary-Gives}
use dynare.Tree.Derived.{add_derivative-Derives}
use dynare.Tree.Sound.{constants_tree-IsSound, add_nulary-Gives, forget_derivative_maps-IsSound}
use dynare.Tree.Growth.{Builds}

-- The constructor, and the calls on terms of the tree. As the documentation of `nularify` asks, the
-- derivatives are forgotten after it.
pub data Reachable : OperationTree → Type 0 where
  constructed : {r : ℕ} {t : OperationTree} → new_tree ≡ ok (r, t) → Reachable t
  new_atom : {r : ℕ} {t u : OperationTree} → Reachable t → add_nulary t ≡ ok (r, u) → Reachable u
  new_unary :
      {r : ℕ} {t u : OperationTree} (code : UnaryCode) (i : ℕ)
      → Reachable t
      → i < length t.terms
      → add_unary code i t ≡ ok (r, u)
      → Reachable u
  new_binary :
      {r : ℕ} {t u : OperationTree} (code : BinaryCode) (i j : ℕ)
      → Reachable t
      → i < length t.terms
      → j < length t.terms
      → add_binary code i j t ≡ ok (r, u)
      → Reachable u
  differentiated :
      {r : ℕ} {t u : OperationTree} (fuel i v : ℕ)
      → Reachable t
      → i < length t.terms
      → i < fuel
      → add_derivative fuel i v t ≡ ok (r, u)
      → Reachable u
  nularised :
      {t u : OperationTree} (i : ℕ)
      → Reachable t
      → num_constants ≤ i
      → i < length t.terms
      → nularify i t ≡ ok u
      → Reachable (forget_derivative_maps u)
  forgotten : {t : OperationTree} → Reachable t → Reachable (forget_derivative_maps t)

module _ {D : Type 0} (a : Arithmetic D) (env : ℕ → D) where
  -- The tree that a computation leaves, where it is known to leave a sound one.
  left-IsSound :
      {t u : OperationTree} {m : M ℕ} {r : ℕ} {P : ℕ → OperationTree → Type 0}
      → Builds t m (λ r' u'. IsSound a env u' × P r' u')
      → m t ≡ ok (r, u)
      → IsSound a env u
  left-IsSound b e = subst (IsSound a env) (cc (b.returns, e)) b.holds.0

  some-Term : (t : OperationTree) (i : ℕ) → i < length t.terms → Term a env t i none
  some-Term t i h = (h, λ y e. absurd (cc e))

  -- In every state that the constructor and the calls on terms of the tree lead to, the tree's invariant
  -- holds, the incidence set of a term has the nulary terms that occur in it and no other, and a registered
  -- derivative has the value that the rules of calculus give.
  pub Reachable-IsSound : {t : OperationTree} → Reachable t → IsSound a env t
  Reachable-IsSound (constructed e) =
      subst (IsSound a env) (cc (new_tree_run, e)) (constants_tree-IsSound a env)
  Reachable-IsSound (new_atom {t} c e) =
      left-IsSound (add_nulary-Gives a env t (Reachable-IsSound c)) e
  Reachable-IsSound (new_unary {t} code i c h e) =
      left-IsSound (unary-Gives a env t (Reachable-IsSound c) code (some-Term t i h)) e
  Reachable-IsSound (new_binary {t} code i j c h h' e) =
      left-IsSound
        (binary-Gives a env t (Reachable-IsSound c) code (some-Term t i h) (some-Term t j h')) e
  Reachable-IsSound (differentiated {t} fuel i v c h k e) =
      left-IsSound (add_derivative-Derives a env fuel i v t (Reachable-IsSound c) h k) e
  Reachable-IsSound (nularised {t} {u} i c above h e) =
      let s = Reachable-IsSound c in
      let x = nularify-IsExact t s.tree s.exact i above h in
      forget_derivative_maps-IsSound a env u (subst IsTree (cc (x.1, e)) x.3)
        (subst IsExact (cc (x.1, e)) x.2)
  Reachable-IsSound (forgotten {t} c) =
      let s = Reachable-IsSound c in forget_derivative_maps-IsSound a env t s.tree s.exact
