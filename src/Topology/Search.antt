-- ===== src/Topology/Search.antt =====
-- What a search of a table finds.
use z_ipc.Base.{
  ℕ, zero, suc, Bool, true, false, Option, none, some, [], ◌∷◌, ◌==◌, ◌≡◌, ◌<◌, ◌≤◌, ◌+◌, arith,
  refl, ap, if_elim, Bool-cases, inl, inr,
}
use z_ipc.Topology.{Name, Table, LinkEntry, same_name, topology_find_link_index, find_from}
use mathlib.Core.Path.{subst, ap₂}

pub same_name-eq : (a b : Name) → same_name a b ≡ true → a ≡ b
unfolding same_name
same_name-eq [] [] h = refl
same_name-eq [] (y ∷ ys) h = absurd cc
same_name-eq (x ∷ xs) [] h = absurd cc
same_name-eq (x ∷ xs) (y ∷ ys) h =
    let first : x ≡ y = ground (arith, h) in
    let rest : xs ≡ ys = same_name-eq xs ys (ground (arith, h)) in ap₂ ◌∷◌ first rest

pub same_name_refl : (a : Name) → same_name a a ≡ true
unfolding same_name
same_name_refl [] = refl
same_name_refl (x ∷ xs) = ground (arith, same_name_refl xs)

-- What a search finds: the entry is accepted, or none is.
unfoldable pub Found : {A : Type 0} → (A → Bool) → (ℕ → A) → ℕ → ℕ → Option ℕ → Type 0
Found test at n i none = (k : ℕ) → i ≤ k → k < i + n → test (at k) ≡ false
Found test at n i (some j) = (i ≤ j) × (j < i + n) × (test (at j) ≡ true)

Found-next :
    {A : Type 0} (test : A → Bool) (at : ℕ → A) (n i : ℕ) (r : Option ℕ)
    → test (at i) ≡ false
    → Found test at n (suc i) r
    → Found test at (suc n) i r
unfolding Found
Found-next test at n i none skip f = λ k low high. elim (Bool-cases (i == k)) [
  | inl same ↦ let is : i ≡ k = ground (arith, same) in subst (λ m. test (at m) ≡ false) is skip
  | inr other ↦ f k (ground (arith, other, low)) (omega arith)
]
Found-next test at n i (some j) skip f = (omega (arith, f.0), omega (arith, f.1), f.2)

pub find_from-Found :
    {A : Type 0} (test : A → Bool) (at : ℕ → A) (n i : ℕ)
    → Found test at n i (find_from test at n i)
unfolding find_from Found
find_from-Found test at zero i = λ k low high. absurd (omega arith)
find_from-Found test at (suc n) i =
    if_elim (Found test at (suc n) i) (test (at i)) (λ hit. (omega arith, omega arith, hit))
      λ miss.
        Found-next test at n i (find_from test at n (suc i)) miss
          (find_from-Found test at n (suc i))

-- A link is found under its name where no other has it.
pub find_link_index_lem :
    (links : Table LinkEntry) (k : ℕ)
    → k < links.count
    → ((j : ℕ) → j < links.count → (links.at j).name ≡ (links.at k).name → j ≡ k)
    → topology_find_link_index links (links.at k).name ≡ some k
unfolding topology_find_link_index Found
find_link_index_lem links k low only =
    go (find_from (λ other. same_name other.name (links.at k).name) links.at links.count 0)
      (find_from-Found (λ other. same_name other.name (links.at k).name) links.at links.count 0)
  where
    go :
        (r : Option ℕ)
        → Found (λ other. same_name other.name (links.at k).name) links.at links.count 0 r
        → r ≡ some k
    go none f =
        let miss = f k (omega arith) (omega (arith, low)) in
        absurd (ground (arith, miss, same_name_refl (links.at k).name))
    go (some j) f =
        ap some (only j (omega (arith, f.1)) (same_name-eq (links.at j).name (links.at k).name f.2))
