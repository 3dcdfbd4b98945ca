-- ===== src/Equivalence/Members.antt =====
-- The constructor of EquivalenceSet ends, and its members are different partitions.
use mathlib.Core.List.{append_assoc, append-nil}
use dynare.Base.{
  ℕ, zero, suc, ◌+◌, ◌-◌, ◌*◌, ◌≤◌, ◌≡◌, refl, ap, sym, ◌∙◌, subst, List, [], ◌∷◌, ◌++◌, true, ok,
  arith, length, ltb, ◌==◌, ==_iff,
}
use dynare.Equivalence.{Equivalence, finest, coarsest, singletons_from}
use dynare.Equivalence.Partition.{IsPartition}
use dynare.Equivalence.Glue.{finest-IsPartition, coarsest-IsPartition}
use dynare.Equivalence.Sets.{Building, add_parents, pop_front, add_loop, equivalence_set}
use dynare.Equivalence.Grown.{
  IsMember, AllMembers, NoRepeat, potential, weight, AllMembers-append, weight-append, Grown,
  Grown-refl, Grown-trans, add_parents-Grown,
}

potential-pos : (k : ℕ) → 1 ≤ potential k
unfolding potential
potential-pos zero = omega arith
potential-pos (suc k) = omega arith

potential-suc : (k : ℕ) → potential (suc k) ≡ 1 + suc k * (suc k * potential k)
unfolding potential
potential-suc k = refl

-- A member adds parents of less weight than its own.
parents :
    (n : ℕ) (e : Equivalence) (b : Building)
    → IsMember n e
    → NoRepeat b.equis
    → (b' : Building) × (add_parents e b ≡ ok b') × Grown n (potential (length e.classes) - 1) b b'
unfolding add_parents
parents n e b w h = go (length e.classes) refl
  where
    go :
        (m : ℕ)
        → length e.classes ≡ m
        → (b' : Building) × (add_parents e b ≡ ok b')
          × Grown n (potential (length e.classes) - 1) b b'
    go zero q = absurd (omega (arith, w.2))
    go (suc zero) q = absurd (omega (arith, w.2))
    go (suc (suc zero)) q =
        let test : (length e.classes == 2) ≡ true = (==_iff _ _).1 q in
        (b, rw (test, add_parents), Grown-refl n (potential (length e.classes) - 1) b h)
    go (suc (suc (suc k))) q =
        let (b', r, g) = add_parents-Grown n e w (suc (suc k)) q (omega arith) b h in
        let bound : potential (length e.classes)
            ≡ 1 + suc (suc (suc k)) * (suc (suc (suc k)) * potential (suc (suc k))) =
          ap potential q ∙ potential-suc (suc (suc k)) in
        (b', r, Grown-trans g (Grown-refl n 0 b' g.no_repeat) (omega (arith, bound)))

add_loop-members :
    (fuel n : ℕ) (equis added : List Equivalence)
    → AllMembers n equis
    → NoRepeat equis
    → AllMembers n added
    → weight added ≤ fuel
    → (new : List Equivalence) × (add_loop fuel equis added ≡ ok (equis ++ new))
      × AllMembers n new
      × NoRepeat (equis ++ new)
unfolding add_loop pop_front
add_loop-members fuel n equis [] h k l le =
    ([], ap ok (sym (append-nil equis)), tt, subst NoRepeat (sym (append-nil equis)) k)
add_loop-members zero n equis (e ∷ es) h k l le =
    absurd (omega (arith, potential-pos (length e.classes)))
add_loop-members (suc fuel) n equis (e ∷ es) h k l le =
    let (b, q, g) = parents n e (record { equis = equis; added = e ∷ es }) l.0 k in
    let (more, r, m, nr) =
      add_loop-members fuel n (equis ++ g.new) (es ++ g.new)
        (AllMembers-append n equis g.new h g.new_members) (subst NoRepeat g.equis_grow g.no_repeat)
        (AllMembers-append n es g.new l.1 g.new_members)
        (omega (arith, weight-append es g.new, g.light, potential-pos (length e.classes))) in
    let same : add_loop fuel b.equis (pop_front b.added) ≡ ok (equis ++ (g.new ++ more)) =
      ap (λ x. add_loop fuel x (pop_front b.added)) g.equis_grow
      ∙ ap (λ y. add_loop fuel (equis ++ g.new) (pop_front y)) g.added_grow
      ∙ r
      ∙ ap ok (append_assoc equis g.new more) in
    (
      g.new ++ more,
      rw q same,
      AllMembers-append n g.new more g.new_members m,
      subst NoRepeat (append_assoc equis g.new more) nr,
    )

length-singletons : (n i : ℕ) → length (singletons_from n i) ≡ n
unfolding singletons_from
length-singletons zero i = refl
length-singletons (suc n) i = ap suc (length-singletons n (i + 1))

finest-IsMember : (m : ℕ) → IsMember (suc (suc m)) (finest (suc (suc m)))
unfolding finest
finest-IsMember m =
    (refl, finest-IsPartition (suc (suc m)), omega (arith, length-singletons (suc (suc m)) 0))

length-finest : (n : ℕ) → length (finest n).classes ≡ n
unfolding finest
length-finest n = length-singletons n 0

-- For a set of two items or more the constructor ends within as many rounds as the potential of the
-- finest equivalence: it raises nothing, and its members are the finest equivalence, then partitions of
-- the set in two classes or more, and the coarsest, a partition too; no member before the coarsest is
-- equal to a later one of these.
pub equivalence_set-members :
    (fuel m : ℕ)
    → potential (suc (suc m)) ≤ fuel
    → (new : List Equivalence) × (equivalence_set fuel (suc (suc m))
        ≡ ok ((finest (suc (suc m)) ∷ new) ++ coarsest (suc (suc m)) ∷ []))
      × AllMembers (suc (suc m)) new
      × NoRepeat (finest (suc (suc m)) ∷ new)
      × IsPartition (suc (suc m)) (coarsest (suc (suc m))).classes
unfolding equivalence_set
equivalence_set-members fuel m le =
    let n : ℕ = suc (suc m) in
    let first = finest n in
    let w = finest-IsMember m in
    let (b, q, g) = parents n first (record { equis = first ∷ []; added = [] }) w (tt, tt) in
    let (more, r, h, nr) =
      add_loop-members fuel n (first ∷ g.new) g.new (w, g.new_members)
        (subst NoRepeat g.equis_grow g.no_repeat) g.new_members
        (omega (arith, g.light, ap potential (length-finest n))) in
    let same : add_loop fuel b.equis b.added ≡ ok (first ∷ (g.new ++ more)) =
      ap (λ x. add_loop fuel x b.added) g.equis_grow
      ∙ ap (λ y. add_loop fuel (first ∷ g.new) y) g.added_grow
      ∙ r in
    let test : ltb 1 n ≡ true = ground arith in
    (
      g.new ++ more,
      rw q (rw same (rw test refl)),
      AllMembers-append n g.new more g.new_members h,
      nr,
      coarsest-IsPartition (suc m),
    )
