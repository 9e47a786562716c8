-- ===== src/Topology/Config.antt =====
-- Theorems on zipc_topology_register_config: what it registers can be opened.
use mathlib.Core.List.{List, [], ◌∷◌}
use z_ipc.Base.{
  ◌∙◌, refl, ltb, ap, ◌<◌, none, not, if_elim, arith, false, some, true, ◌≡◌, Option, ℕ, ◌==◌,
}
use z_ipc.Topology.Register.{
  register_links, open_both, open_at, override, open_declared, link_open, topology_register_config,
  topology_validate, validate_links, link_valid, is_some, Topology, Opening, declared,
}
use z_ipc.Status.{invalid_argument, is_ok, Status}
use z_ipc.Topology.{topology_find_link_index, topology_find, Table, LinkEntry}
use z_ipc.Topology.Laws.{IsRegistry}
use z_ipc.Topology.Batch.{finds_all, validate_links-Separate, register_links_lem, FindsAll}
use mathlib.Core.Path.{ap₂}

is_some-some : {A : Type 0} (r : Option A) → is_some r ≡ true → (a : A) × (r ≡ some a)
is_some-some none h = absurd cc
is_some-some (some a) h = (a, refl)

module _ {P T R : Type 0} (create : Opening P T → Status × Option R) where
  -- Opening the link by its name is creating it, with the pool and the transport bound to the names
  -- that it has.
  pub record Opens (t : Topology P T) (l : LinkEntry) : Type 0 where
    pub pool : P
    pub transport : T
    pub pool_bound : topology_find t.pools l.pool_name ≡ some pool
    pub transport_bound : topology_find t.transports l.transport_name ≡ some transport
    pub opened : link_open t l.name create ≡ create (declared pool transport l)

  unfoldable pub OpensAll : Topology P T → List LinkEntry → Type 0
  OpensAll t [] = Unit
  OpensAll t (l ∷ rest) = Opens t l × OpensAll t rest

  -- What a registration makes of the topology: the names stay distinct; a success can open every
  -- link of the configuration; a configuration that is not valid changes nothing; no policy but
  -- the override changes a link that was there; and the bindings stay.
  pub record RegistersConfig (t : Topology P T) (config : List LinkEntry) (policy : ℕ)
      (r : Status × Topology P T) : Type 0 where
    pub registry : IsRegistry r.1.links
    pub opens : is_ok r.0 ≡ true → OpensAll r.1 config
    pub invalid : is_ok (topology_validate t config) ≡ false → r.1 ≡ t
    pub strict :
        (policy == override) ≡ false
        → (k : ℕ) → k < t.links.count
        → (k < r.1.links.count) × (r.1.links.at k ≡ t.links.at k)
    pub bindings : (r.1.pools ≡ t.pools) × (r.1.transports ≡ t.transports)

  module _ (t : Topology P T) where
    abbrev with_links : Table LinkEntry → Topology P T
    with_links links = record t { links = links }

    valid-Opens :
        (l : LinkEntry) (links : Table LinkEntry)
        → link_valid t l ≡ true
        → (k : ℕ) → topology_find_link_index links l.name ≡ some k
        → links.at k ≡ l
        → Opens (with_links links) l
    unfolding link_valid link_open open_declared
    valid-Opens l links good k found is =
        let (pool, is_pool) =
          is_some-some (topology_find t.pools l.pool_name) (ground (arith, good)) in
        let (transport, is_transport) =
          is_some-some (topology_find t.transports l.transport_name) (ground (arith, good)) in
        record {
          pool = pool;
          transport = transport;
          pool_bound = is_pool;
          transport_bound = is_transport;
          opened =
              ap (open_at (with_links links) l.name create) found
              ∙ ap (λ e. open_declared (with_links links) e create) is
              ∙ ap₂ (open_both l create) is_pool is_transport;
        }

    all-OpensAll :
        (config : List LinkEntry) (links : Table LinkEntry)
        → is_ok (validate_links t config) ≡ true
        → FindsAll links config
        → OpensAll (with_links links) config
    unfolding validate_links FindsAll OpensAll
    all-OpensAll [] links good has = tt
    all-OpensAll (l ∷ rest) links good has =
        let (k, found, is) = has.0 in
        (
          valid-Opens l links (ground (arith, good)) k found is,
          all-OpensAll rest links (ground (arith, good)) has.1,
        )

    validate_links_of :
        (config : List LinkEntry)
        → is_ok (topology_validate t config) ≡ true
        → is_ok (validate_links t config) ≡ true
    unfolding topology_validate
    validate_links_of config good = ground (arith, good)

    refused-RegistersConfig :
        (config : List LinkEntry) (policy : ℕ) (status : Status)
        → is_ok status ≡ false
        → IsRegistry t.links
        → RegistersConfig t config policy (status, t)
    refused-RegistersConfig config policy status bad z = record {
      registry = z;
      opens = λ good. absurd (ground (arith, bad, good));
      invalid = λ _. refl;
      strict = λ _ k low. (low, refl);
      bindings = (refl, refl);
    }

    -- A registration of a configuration of links, where the names of the links before are distinct,
    -- keeps them distinct; if it succeeds, every link of the configuration is opened by its name,
    -- with the pool and the transport bound to the names it gives; if the configuration is not
    -- valid nothing changes; under another policy than the override no link that was there
    -- changes; and the bindings never do.
    pub topology_register_config_lem :
        (config : List LinkEntry) (policy : ℕ)
        → IsRegistry t.links
        → RegistersConfig t config policy (topology_register_config t config policy)
    unfolding topology_register_config
    topology_register_config_lem config policy z =
        if_elim (RegistersConfig t config policy) (not (is_ok (topology_validate t config)))
          (λ bad.
            refused-RegistersConfig config policy (topology_validate t config) (ground (arith, bad))
              z)
          λ valid.
            if_elim (RegistersConfig t config policy) (ltb override policy)
              (λ bad. refused-RegistersConfig config policy invalid_argument refl z)
              λ known.
                let good = validate_links_of config (ground (arith, valid)) in
                let a =
                  register_links_lem policy config t.links z
                    (validate_links-Separate t config good) in
                let links = (register_links policy config t.links).1 in
                record {
                  registry = a.registry;
                  opens = λ fine.
                      all-OpensAll config links good
                        (finds_all links config a.registry (a.registered fine));
                  invalid = λ bad. absurd (ground (arith, valid, bad));
                  strict = a.strict;
                  bindings = (refl, refl);
                }
