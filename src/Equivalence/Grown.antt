-- ===== src/Equivalence/Grown.antt =====
-- Adding parents keeps a list of different partitions, and how much it adds.
use mathlib.Core.List.{append_assoc, append-nil}
use native.Mathlib.Nat.{mul-le-mul_right, suc-mul}
use dynare.Base.{
  ℕ, zero, suc, ◌+◌, ◌-◌, ◌*◌, ◌≤◌, ◌<◌, ◌≡◌, ◌⊎◌, refl, ap, sym, ◌∙◌, subst, List, [], ◌∷◌, ◌++◌,
  true, false, ok, arith, length, ◌==◌, Bool-cases, inl, inr,
}
use dynare.Equivalence.{Equivalence, glue, equal}
use dynare.Equivalence.Partition.{IsPartition}
use dynare.Equivalence.Glue.{IsGlued, glue-IsGlued}
use dynare.Equivalence.Sets.{Building, has_member, try_pair, try_row, try_rows, add_parents}

-- A partition of n items in two classes or more.
abbrev pub IsMember : ℕ → Equivalence → Type 0
IsMember n e = (e.n ≡ n) × IsPartition e.n e.classes × (2 ≤ length e.classes)

abbrev pub AllMembers : ℕ → List Equivalence → Type 0
AllMembers n [] = Unit
AllMembers n (e ∷ es) = IsMember n e × AllMembers n es

abbrev pub Differs : Equivalence → List Equivalence → Type 0
Differs e [] = Unit
Differs e (f ∷ fs) = (equal e f ≡ false) × Differs e fs

-- No member is equal to a later one.
abbrev pub NoRepeat : List Equivalence → Type 0
NoRepeat [] = Unit
NoRepeat (e ∷ es) = Differs e es × NoRepeat es

-- How many rounds an equivalence with `k` classes may cause.
unfoldable pub potential : ℕ → ℕ
potential zero = 1
potential (suc k) = 1 + suc k * (suc k * potential k)

abbrev pub weight : List Equivalence → ℕ
weight [] = 0
weight (e ∷ es) = potential (length e.classes) + weight es

pub AllMembers-append :
    (n : ℕ) (es fs : List Equivalence) → AllMembers n es → AllMembers n fs → AllMembers n (es ++ fs)
AllMembers-append n [] fs h k = k
AllMembers-append n (e ∷ es) fs h k = (h.0, AllMembers-append n es fs h.1 k)

pub weight-append : (es fs : List Equivalence) → weight (es ++ fs) ≡ weight es + weight fs
weight-append [] fs = omega arith
weight-append (e ∷ es) fs = omega (arith, weight-append es fs)

Differs-snoc :
    (e ns : Equivalence) (es : List Equivalence)
    → equal e ns ≡ false
    → Differs e es
    → Differs e (es ++ ns ∷ [])
Differs-snoc e ns [] h k = (h, tt)
Differs-snoc e ns (f ∷ fs) h k = (k.0, Differs-snoc e ns fs h k.1)

NoRepeat-snoc :
    (ns : Equivalence) (es : List Equivalence)
    → has_member ns es ≡ false
    → NoRepeat es
    → NoRepeat (es ++ ns ∷ [])
unfolding has_member
NoRepeat-snoc ns [] h k = (tt, tt)
NoRepeat-snoc ns (e ∷ es) h k =
    (Differs-snoc e ns es (ground arith) k.0, NoRepeat-snoc ns es (ground arith) k.1)

-- Adding parents puts new members behind both lists, of no more weight than `bound`.
pub record Grown (n bound : ℕ) (b b' : Building) : Type 0 where
  pub new : List Equivalence
  pub equis_grow : b'.equis ≡ b.equis ++ new
  pub added_grow : b'.added ≡ b.added ++ new
  pub new_members : AllMembers n new
  pub no_repeat : NoRepeat b'.equis
  pub light : weight new ≤ bound

pub Grown-refl : (n bound : ℕ) (b : Building) → NoRepeat b.equis → Grown n bound b b
Grown-refl n bound b h = record {
  new = [];
  equis_grow = sym (append-nil _);
  added_grow = sym (append-nil _);
  new_members = tt;
  no_repeat = h;
  light = omega arith;
}

pub Grown-trans :
    {n k l m : ℕ} {b b' b'' : Building}
    → Grown n k b b'
    → Grown n l b' b''
    → k + l ≤ m
    → Grown n m b b''
Grown-trans {n} {b} g h le = record {
  new = g.new ++ h.new;
  equis_grow =
      h.equis_grow ∙ ap (λ es. es ++ h.new) g.equis_grow ∙ append_assoc b.equis g.new h.new;
  added_grow =
      h.added_grow ∙ ap (λ es. es ++ h.new) g.added_grow ∙ append_assoc b.added g.new h.new;
  new_members = AllMembers-append n g.new h.new g.new_members h.new_members;
  no_repeat = h.no_repeat;
  light = omega (arith, weight-append g.new h.new, g.light, h.light);
}

module _ (n : ℕ) (e : Equivalence) (w : IsMember n e) (k : ℕ) (size : length e.classes ≡ suc k)
    (three : 2 ≤ k) where
  try_pair-Grown :
      (i1 i2 : ℕ) (b : Building)
      → NoRepeat b.equis
      → i1 < i2
      → i2 < suc k
      → (b' : Building) × (try_pair e i1 i2 b ≡ ok b') × Grown n (potential k) b b'
  unfolding try_pair
  try_pair-Grown i1 i2 b h lt le =
      let (c, d, ns, f, g, q, glued) =
        glue-IsGlued e i1 i2 w.1 (omega (arith, size)) (omega (arith, size)) (λ r. omega arith) in
      go ns q glued (Bool-cases (has_member ns b.equis))
    where
      go :
          {c d : List ℕ} (ns : Equivalence)
          → glue e i1 i2 ≡ ok ns
          → IsGlued e c d ns
          → (has_member ns b.equis ≡ true) ⊎ (has_member ns b.equis ≡ false)
          → (b' : Building) × (try_pair e i1 i2 b ≡ ok b') × Grown n (potential k) b b'
      go ns q glued (inl r) = (b, rw (q, try_pair) (rw r refl), Grown-refl n (potential k) b h)
      go ns q glued (inr r) =
          let less : length ns.classes ≡ k = omega (arith, glued.one_less, size) in
          (
            record { equis = b.equis ++ ns ∷ []; added = b.added ++ ns ∷ [] },
            rw (q, try_pair) (rw r refl),
            record {
              new = ns ∷ [];
              equis_grow = refl;
              added_grow = refl;
              new_members = ((glued.same_n ∙ w.0, glued.partition, omega (arith, less)), tt);
              no_repeat = NoRepeat-snoc ns b.equis r h;
              light = rw less (omega arith);
            },
          )

  try_row-Grown :
      (count i1 i2 : ℕ) (b : Building)
      → NoRepeat b.equis
      → i1 < i2
      → i2 + count ≤ suc k
      → (b' : Building) × (try_row count e i1 i2 b ≡ ok b') × Grown n (count * potential k) b b'
  unfolding try_row
  try_row-Grown zero i1 i2 b h lt le = (b, refl, Grown-refl n (0 * potential k) b h)
  try_row-Grown (suc count) i1 i2 b h lt le =
      let (b1, e1, g1) = try_pair-Grown i1 i2 b h lt (omega arith) in
      let (b2, e2, g2) =
        try_row-Grown count i1 (i2 + 1) b1 g1.no_repeat (omega arith) (omega arith) in
      (b2, rw (e1, e2) refl, Grown-trans g1 g2 (omega (arith, suc-mul count (potential k))))

  try_rows-Grown :
      (count i1 : ℕ) (b : Building)
      → NoRepeat b.equis
      → i1 + count ≤ suc k
      → (b' : Building) × (try_rows count e i1 b ≡ ok b')
        × Grown n (count * (suc k * potential k)) b b'
  unfolding try_rows
  try_rows-Grown zero i1 b h le = (b, refl, Grown-refl n (0 * (suc k * potential k)) b h)
  try_rows-Grown (suc count) i1 b h le =
      let rounds : ℕ = length e.classes - (i1 + 1) in
      let (b1, e1, g1) = try_row-Grown rounds i1 (i1 + 1) b h (omega arith) (omega (arith, size)) in
      let (b2, e2, g2) = try_rows-Grown count (i1 + 1) b1 g1.no_repeat (omega arith) in
      let few : rounds * potential k ≤ suc k * potential k =
        mul-le-mul_right (potential k) (omega (arith, size)) in
      (
        b2,
        rw (e1, e2) refl,
        Grown-trans g1 g2 (omega (arith, suc-mul count (suc k * potential k), few)),
      )

  pub add_parents-Grown :
      (b : Building)
      → NoRepeat b.equis
      → (b' : Building) × (add_parents e b ≡ ok b') × Grown n (suc k * (suc k * potential k)) b b'
  unfolding add_parents
  add_parents-Grown b h =
      let (b', q, g) = try_rows-Grown (suc k) 0 b h (omega arith) in
      let test : (length e.classes == 2) ≡ false = ground (arith, size) in
      let test' : (length e.classes == 1) ≡ false = ground (arith, size) in
      let all : try_rows (length e.classes) e 0 b ≡ ok b' =
        subst (λ m. try_rows m e 0 b ≡ ok b') (sym size) q in
      (b', rw (test, test') all, g)
