-- ===== src/Atoms/Map.antt =====
-- What parser/cc/dynamic_atoms.cc uses of `std::map`: an association list in the order of the keys.
use dynare.Base.{
  ℕ, ◌≡◌, List, [], ◌∷◌, Option, none, some, Bool, true, false, not, ◌&&◌, if◌then◌else◌, ltb,
  arith,
}

-- The order of the keys, `<` of the source.
pub record Order (K : Type 0) : Type 0 where
  pub lt : K → K → Bool

pub record IsOrder (K : Type 0) ⦃o : Order K⦄ : Type 0 where
  pub irreflexive : (a : K) → o.lt a a ≡ false
  pub transitive : (a b c : K) → o.lt a b ≡ true → o.lt b c ≡ true → o.lt a c ≡ true
  pub total : (a b : K) → o.lt a b ≡ false → o.lt b a ≡ false → a ≡ b

instance abbrev pub numbers : Order ℕ
numbers = record { lt = ltb }

pub numbers-IsOrder : IsOrder ℕ
numbers-IsOrder = ground arith

-- Keys of which neither is less are one key.
abbrev pub same_key : {K : Type 0} ⦃o : Order K⦄ → K → K → Bool
same_key ⦃o⦄ j k = not (o.lt j k) && not (o.lt k j)

module _ {K V : Type 0} ⦃o : Order K⦄ where
  unfoldable pub find_key : K → List (K × V) → Option V
  find_key k [] = none
  find_key k ((j, w) ∷ m) = if same_key j k then some w else find_key k m

  -- `emplace` keeps the entry of a key that is there already.
  unfoldable pub emplace_key : K → V → List (K × V) → List (K × V)
  emplace_key k v [] = (k, v) ∷ []
  emplace_key k v ((j, w) ∷ m) =
      let rest = emplace_key k v m in
      if o.lt k j then (k, v) ∷ (j, w) ∷ m else if o.lt j k then (j, w) ∷ rest else (j, w) ∷ m

  -- A change of the value that an iterator points to.
  unfoldable pub put_key : K → V → List (K × V) → List (K × V)
  put_key k v [] = []
  put_key k v ((j, w) ∷ m) =
      let rest = put_key k v m in if same_key j k then (j, v) ∷ m else (j, w) ∷ rest

  unfoldable pub erase_key : K → List (K × V) → List (K × V)
  erase_key k [] = []
  erase_key k ((j, w) ∷ m) = let rest = erase_key k m in if same_key j k then m else (j, w) ∷ rest

  -- The keys increase.
  abbrev pub Above : K → List (K × V) → Type 0
  Above k [] = Unit
  Above k ((j, w) ∷ m) = (o.lt k j ≡ true) × Above k m

  abbrev pub IsMap : List (K × V) → Type 0
  IsMap [] = Unit
  IsMap ((k, v) ∷ m) = Above k m × IsMap m
