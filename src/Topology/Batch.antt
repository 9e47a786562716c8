-- ===== src/Topology/Batch.antt =====
-- Theorems on the registration of a list of links.
use z_ipc.Base.{
  ℕ, true, false, some, List, [], ◌∷◌, ◌==◌, ◌≡◌, ◌≢◌, ◌<◌, arith, refl, sym, ap, ◌∙◌, if_elim,
}
use z_ipc.Status.{Status, is_ok}
use z_ipc.Topology.{Table, LinkEntry, same_name, topology_find_link_index}
use z_ipc.Topology.Register.{
  Topology, register_link, register_links, repeated, link_valid, validate_links, override,
}
use z_ipc.Topology.Laws.{link-Registers, Registers, IsRegistry}
use z_ipc.Topology.Search.{find_link_index_lem, same_name_refl}
use mathlib.Core.Path.{subst}

-- No link of the list has the name or the identity of `l`.
pub AllApart : LinkEntry → List LinkEntry → Type 0
AllApart l [] = Unit
AllApart l (other ∷ rest) = (l.name ≢ other.name) × (l.link_id ≢ other.link_id) × AllApart l rest

-- Nor any link the name or the identity of another.
pub Separate : List LinkEntry → Type 0
Separate [] = Unit
Separate (l ∷ rest) = AllApart l rest × Separate rest

-- Every link of the list is somewhere in the table.
pub HasAll : Table LinkEntry → List LinkEntry → Type 0
HasAll links [] = Unit
HasAll links (l ∷ rest) = ((k : ℕ) × (k < links.count) × (links.at k ≡ l)) × HasAll links rest

-- Every link of the list is found under its name.
unfoldable pub FindsAll : Table LinkEntry → List LinkEntry → Type 0
FindsAll links [] = Unit
FindsAll links (l ∷ rest) =
    ((k : ℕ) × (topology_find_link_index links l.name ≡ some k) × (links.at k ≡ l))
    × FindsAll links rest

-- What a registration of a list leaves of the links.
pub record RegistersAll (policy : ℕ) (links : Table LinkEntry) (config : List LinkEntry)
    (r : Status × Table LinkEntry) : Type 0 where
  pub registry : IsRegistry r.1
  pub registered : is_ok r.0 ≡ true → HasAll r.1 config
  pub kept :
      (k : ℕ)
      → k < links.count
      → AllApart (links.at k) config
      → (k < r.1.count) × (r.1.at k ≡ links.at k)
  pub strict :
      (policy == override) ≡ false
      → (k : ℕ) → k < links.count
      → (k < r.1.count) × (r.1.at k ≡ links.at k)

-- A link that is refused ends the registration.
stops :
    (policy : ℕ) (links : Table LinkEntry) (l : LinkEntry) (rest : List LinkEntry)
    (r : Status × Table LinkEntry)
    → is_ok r.0 ≡ false
    → Registers policy links l r
    → RegistersAll policy links (l ∷ rest) r
unfolding AllApart
stops policy links l rest r bad s = record {
  registry = s.registry;
  registered = λ good. absurd (ground (arith, bad, good));
  kept = λ k low apart. s.kept k low (λ is. apart.0 (sym is)) (λ is. apart.1 (sym is));
  strict = s.strict;
}

continues :
    (policy : ℕ) (links : Table LinkEntry) (l : LinkEntry) (rest : List LinkEntry)
    (r later : Status × Table LinkEntry)
    → is_ok r.0 ≡ true
    → AllApart l rest
    → Registers policy links l r
    → RegistersAll policy r.1 rest later
    → RegistersAll policy links (l ∷ rest) later
unfolding AllApart HasAll
continues policy links l rest r later good apart s a = record {
  registry = a.registry;
  registered = λ fine.
      let (k, low, is) = s.registered good in
      let after = a.kept k low (subst (λ e. AllApart e rest) (sym is) apart) in
      ((k, after.0, after.1 ∙ is), a.registered fine);
  kept = λ k low away.
      let first = s.kept k low (λ is. away.0 (sym is)) (λ is. away.1 (sym is)) in
      let after = a.kept k first.0 (subst (λ e. AllApart e rest) (sym first.1) away.2) in
      (after.0, after.1 ∙ first.1);
  strict = λ other k low.
      let first = s.strict other k low in
      let after = a.strict other k first.0 in (after.0, after.1 ∙ first.1);
}

pub register_links_lem :
    (policy : ℕ) (config : List LinkEntry) (links : Table LinkEntry)
    → IsRegistry links
    → Separate config
    → RegistersAll policy links config (register_links policy config links)
unfolding register_links Separate HasAll
register_links_lem policy [] links z apart = record {
  registry = z;
  registered = λ good. tt;
  kept = λ k low _. (low, refl);
  strict = λ _ k low. (low, refl);
}
register_links_lem policy (l ∷ rest) links z apart =
    let r = register_link policy l links in
    let s = link-Registers policy links l z in
    if_elim (RegistersAll policy links (l ∷ rest)) (is_ok r.0)
      (λ good.
        continues policy links l rest r (register_links policy rest r.1) good apart.0 s
          (register_links_lem policy rest r.1 s.registry apart.1))
      λ bad. stops policy links l rest r bad s

-- A table with distinct names finds what it has.
pub finds_all :
    (links : Table LinkEntry) (config : List LinkEntry)
    → IsRegistry links
    → HasAll links config
    → FindsAll links config
unfolding HasAll FindsAll
finds_all links [] z has = tt
finds_all links (l ∷ rest) z has =
    let (k, low, is) = has.0 in
    let found = find_link_index_lem links k low (λ j lj same. z.distinct j k lj low same) in
    (
      (k, ap (λ (e : LinkEntry). topology_find_link_index links e.name) (sym is) ∙ found, is),
      finds_all links rest z has.1,
    )

repeated-AllApart :
    (l : LinkEntry) (rest : List LinkEntry)
    → (l.link_id == 0) ≡ false
    → repeated l rest ≡ false
    → AllApart l rest
unfolding repeated AllApart
repeated-AllApart l [] some_id h = tt
repeated-AllApart l (other ∷ rest) some_id h = (
  (λ is.
      let hit = ap (same_name l.name) (sym is) ∙ same_name_refl l.name in
      absurd (ground (arith, hit, h))),
  (λ is. absurd (ground (arith, is, some_id, h))),
  repeated-AllApart l rest some_id (ground (arith, h)),
)

module _ {P T : Type 0} (t : Topology P T) where
  pub validate_links-Separate :
      (config : List LinkEntry) → is_ok (validate_links t config) ≡ true → Separate config
  unfolding validate_links Separate link_valid
  validate_links-Separate [] good = tt
  validate_links-Separate (l ∷ rest) good = (
    repeated-AllApart l rest (ground (arith, good)) (ground (arith, good)),
    validate_links-Separate rest (ground (arith, good)),
  )
