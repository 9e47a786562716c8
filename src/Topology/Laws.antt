-- ===== src/Topology/Laws.antt =====
-- Theorems on registration: the table of links keeps its names apart, and holds what was registered.
use z_ipc.Base.{
  ℕ, suc, Bool, true, false, Option, none, some, leb, ◌==◌, not, ◌≡◌, ◌≢◌, ◌<◌, ◌≤◌, arith, refl,
  sym, ap, ◌∙◌, if_elim, Bool-cases, inl, inr, update, update_self, update_ne, ◌⊎◌,
}
use z_ipc.Status.{Status, ok, is_ok, invalid_argument, no_buffer}
use z_ipc.Topology.{Table, LinkEntry, same_name, max_links, put_at, topology_find_link_index}
use z_ipc.Topology.Register.{
  register_link, register_at, register_new, replace, append_link, find_link_id, override,
}
use mathlib.Core.Path.{subst}
use z_ipc.Topology.Search.{same_name-eq, same_name_refl, find_from-Found, Found}

-- No two links have the same name, and there are at most as many as the table holds.
pub record IsRegistry (links : Table LinkEntry) : Type 0 where
  pub bounded : links.count ≤ max_links
  pub distinct :
      (i j : ℕ) → i < links.count → j < links.count → (links.at i).name ≡ (links.at j).name → i ≡ j

-- What a registration of `l` leaves of the links.
pub record Registers (policy : ℕ) (links : Table LinkEntry) (l : LinkEntry)
    (r : Status × Table LinkEntry) : Type 0 where
  pub registry : IsRegistry r.1
  pub registered : is_ok r.0 ≡ true → (k : ℕ) × (k < r.1.count) × (r.1.at k ≡ l)
  pub kept :
      (k : ℕ)
      → k < links.count
      → l.name ≢ (links.at k).name
      → l.link_id ≢ (links.at k).link_id
      → (k < r.1.count) × (r.1.at k ≡ links.at k)
  pub strict :
      (policy == override) ≡ false
      → (k : ℕ) → k < links.count
      → (k < r.1.count) × (r.1.at k ≡ links.at k)

refuses :
    (policy : ℕ) (links : Table LinkEntry) (l : LinkEntry) (status : Status)
    → is_ok status ≡ false
    → IsRegistry links
    → Registers policy links l (status, links)
refuses policy links l status bad z = record {
  registry = z;
  registered = λ good. absurd cc;
  kept = λ k low _ _. (low, refl);
  strict = λ _ k low. (low, refl);
}

written_name :
    (f : ℕ → LinkEntry) (i : ℕ) (l : LinkEntry) (a : ℕ)
    → (i == a) ≡ true
    → (update f i l a).name ≡ l.name
written_name f i l a here =
    let is : update f i l a ≡ l = ground (arith, here) in ap (λ (e : LinkEntry). e.name) is

other_name :
    (f : ℕ → LinkEntry) (i : ℕ) (l : LinkEntry) (a : ℕ)
    → (i == a) ≡ false
    → (update f i l a).name ≡ (f a).name
other_name f i l a away =
    let is : update f i l a ≡ f a = ground (arith, away) in ap (λ (e : LinkEntry). e.name) is

-- Writing one entry keeps names apart if no other entry below the new count has its name.
write-distinct :
    (f : ℕ → LinkEntry) (count i : ℕ) (l : LinkEntry)
    → ((a b : ℕ)
        → a < count
        → b < count
        → (i == a) ≡ false
        → (i == b) ≡ false
        → (f a).name ≡ (f b).name
        → a ≡ b)
    → ((k : ℕ) → k < count → (i == k) ≡ false → (f k).name ≢ l.name)
    → (a b : ℕ) → a < count
    → b < count
    → (update f i l a).name ≡ (update f i l b).name
    → a ≡ b
write-distinct f count i l apart only a b la lb same = elim (Bool-cases (i == a)) [
  | inl ia ↦ elim (Bool-cases (i == b)) [
    | inl ib ↦ ground (arith, ia, ib)
    | inr nb ↦
        absurd (only b lb nb (sym (other_name f i l b nb) ∙ sym same ∙ written_name f i l a ia))
  ]
  | inr na ↦ elim (Bool-cases (i == b)) [
    | inl ib ↦ absurd (only a la na (sym (other_name f i l a na) ∙ same ∙ written_name f i l b ib))
    | inr nb ↦ apart a b la lb na nb (sym (other_name f i l a na) ∙ same ∙ other_name f i l b nb)
  ]
]

module _ (policy : ℕ) (links : Table LinkEntry) (l : LinkEntry) (z : IsRegistry links) where
  put-Registers :
      (policy == override) ≡ true
      → (i : ℕ) → i < links.count
      → ((k : ℕ) → k < links.count → (i == k) ≡ false → (links.at k).name ≢ l.name)
      → (l.name ≡ (links.at i).name) ⊎ (l.link_id ≡ (links.at i).link_id)
      → Registers policy links l (ok, put_at links i l)
  put-Registers allowed i low only touched = record {
    registry = record {
      bounded = z.bounded;
      distinct =
          write-distinct links.at links.count i l
            (λ a b la lb na nb same. z.distinct a b la lb same) only;
    };
    registered = λ good. (i, low, update_self links.at i l);
    kept = λ k kl name id. (
      kl,
      update_ne links.at i k l (λ is. elim touched [
        | inl n ↦ name (n ∙ ap (λ m. (links.at m).name) is)
        | inr d ↦ id (d ∙ ap (λ m. (links.at m).link_id) is)
      ]),
    );
    strict = λ other k low. absurd (ground (arith, allowed, other));
  }

  push-Registers :
      ((k : ℕ) → k < links.count → (links.at k).name ≢ l.name)
      → Registers policy links l (append_link l links)
  unfolding append_link
  push-Registers new =
      if_elim (Registers policy links l) (leb max_links links.count)
        (λ full. refuses policy links l no_buffer refl z)
        λ room. record {
          registry = record {
            bounded = ground (arith, room);
            distinct =
                write-distinct links.at (suc links.count) links.count l
                  (λ a b la lb na nb same.
                    z.distinct a b (ground (arith, la, na)) (ground (arith, lb, nb)) same)
                  (λ k kl away. new k (ground (arith, kl, away)));
          };
          registered = λ good. (links.count, omega arith, update_self links.at links.count l);
          kept = λ k kl name id. (
            omega (arith, kl),
            update_ne links.at links.count k l (λ is. absurd (omega (arith, kl, is))),
          );
          strict = λ other k kl. (
            omega (arith, kl),
            update_ne links.at links.count k l (λ is. absurd (omega (arith, kl, is))),
          );
        }

  replace-Registers :
      (i : ℕ)
      → i < links.count
      → ((k : ℕ) → k < links.count → (i == k) ≡ false → (links.at k).name ≢ l.name)
      → (l.name ≡ (links.at i).name) ⊎ (l.link_id ≡ (links.at i).link_id)
      → Registers policy links l (replace policy l links i)
  replace-Registers i low only touched =
      if_elim (Registers policy links l) (not (policy == override))
        (λ refused. refuses policy links l invalid_argument refl z)
        λ allowed. put-Registers (ground (arith, allowed)) i low only touched

  new-Registers :
      (r : Option ℕ)
      → ((k : ℕ) → k < links.count → (links.at k).name ≢ l.name)
      → ((j : ℕ) → r ≡ some j → (j < links.count) × (l.link_id ≡ (links.at j).link_id))
      → Registers policy links l (register_new policy l links r)
  new-Registers none new has = push-Registers new
  new-Registers (some j) new has =
      let h = has j refl in replace-Registers j h.0 (λ k kl away. new k kl) (inr h.1)

  id_found :
      (j : ℕ)
      → find_link_id l links ≡ some j
      → (j < links.count) × (l.link_id ≡ (links.at j).link_id)
  unfolding Found
  id_found j =
      let test : LinkEntry → Bool = λ other. other.link_id == l.link_id in
      if_elim (λ r. r ≡ some j → (j < links.count) × (l.link_id ≡ (links.at j).link_id))
        (l.link_id == 0) (λ zero_id is. absurd cc)
        λ some_id is.
          let f =
            subst (Found test links.at links.count 0) is
              (find_from-Found test links.at links.count 0) in
          (omega (arith, f.1), ground (arith, f.2))

  at-Registers :
      (r : Option ℕ)
      → Found (λ other. same_name other.name l.name) links.at links.count 0 r
      → Registers policy links l (register_at policy l links r)
  unfolding Found
  at-Registers none f =
      new-Registers (find_link_id l links)
        (λ k kl same.
          let miss = f k (omega arith) (omega (arith, kl)) in
          let hit = ap (λ n. same_name n l.name) same ∙ same_name_refl l.name in
          absurd (ground (arith, hit, miss)))
        id_found
  at-Registers (some i) f =
      let found : (links.at i).name ≡ l.name = same_name-eq (links.at i).name l.name f.2 in
      replace-Registers i (omega (arith, f.1))
        (λ k kl away same.
          let is = z.distinct i k (omega (arith, f.1)) kl (found ∙ sym same) in
          ground (arith, away, is))
        (inl (sym found))

  pub link-Registers : Registers policy links l (register_link policy l links)
  unfolding register_link topology_find_link_index
  link-Registers =
      at-Registers (topology_find_link_index links l.name)
        (find_from-Found (λ other. same_name other.name l.name) links.at links.count 0)
