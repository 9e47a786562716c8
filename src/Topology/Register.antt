-- ===== src/Topology/Register.antt =====
-- Validation and registration of declared links (src/core/zipc.c: zipc_topology_validate to
-- zipc_topology_register_config), the older zipc_topology_register, and zipc_link_open.
use z_ipc.Base.{
  ℕ, Bool, true, false, Option, none, some, List, [], ◌∷◌, ltb, leb, ◌==◌, ◌&&◌, ◌||◌, not, length,
}
use z_ipc.Base.{if◌then◌else◌}
use z_ipc.Status.{Status, ok, is_ok, invalid_argument, no_buffer, component_id_valid}
use z_ipc.Link.Create.{LinkConfig}
use z_ipc.Topology.{
  Name, Table, LinkEntry, Binding, same_name, max_links, max_pools, max_transports, find_index,
  put_at, push, topology_name_valid, topology_find, topology_find_link_index, topology_bind,
}

-- `zipc_link_definition_t`
pub record Definition : Type 0 where
  pub name : Name
  pub config : LinkConfig

-- What zipc_link_open hands to zipc_link_create: the configuration that it puts together, or the one
-- of a definition.
pub data Opening (P T : Type 0) : Type 0 where
  declared : P → T → LinkEntry → Opening P T
  defined : LinkConfig → Opening P T

-- The bindings and the links of the process; `P` is a pointer to a pool that is not NULL, `T` the
-- configuration of a transport.
pub record Topology (P T : Type 0) : Type 0 where
  pub pools : Table (Binding P)
  pub transports : Table (Binding T)
  pub links : Table LinkEntry
  pub definitions : List Definition

abbrev pub is_some {ℓ} : {A : Type ℓ} → Option A → Bool
is_some none = false
is_some (some x) = true

-- The number of ZIPC_LINK_ROLE_CONSUMER, the last role, and of ZIPC_TOPOLOGY_OVERRIDE, the last
-- policy.
abbrev pub last_role : ℕ
last_role = 2

abbrev pub override : ℕ
override = 2

-- A link has the name or the identity of one behind it.
unfoldable pub repeated : LinkEntry → List LinkEntry → Bool
repeated l [] = false
repeated l (other ∷ rest) =
    same_name l.name other.name
    || (not (l.link_id == 0) && (l.link_id == other.link_id))
    || repeated l rest

module _ {P T : Type 0} where
  unfoldable pub topology_bind_pool : Topology P T → Name → P → Status × Topology P T
  topology_bind_pool t name pool =
      let (status, pools) = topology_bind max_pools t.pools name pool in
      (status, record t { pools = pools })

  unfoldable pub topology_bind_transport : Topology P T → Name → T → Status × Topology P T
  topology_bind_transport t name transport =
      let (status, transports) = topology_bind max_transports t.transports name transport in
      (status, record t { transports = transports })

  -- The arrays are cleared too, which no call reads past their counts.
  unfoldable pub topology_reset : Topology P T → Topology P T
  topology_reset t = record {
    pools = record (t.pools) { count = 0 };
    transports = record (t.transports) { count = 0 };
    links = record (t.links) { count = 0 };
    definitions = [];
  }

  unfoldable pub link_valid : Topology P T → LinkEntry → Bool
  link_valid t l =
      topology_name_valid l.name
      && topology_name_valid l.pool_name
      && topology_name_valid l.transport_name
      && not (l.link_id == 0)
      && component_id_valid l.local_component
      && component_id_valid l.remote_component
      && leb l.role last_role
      && not (l.local_component == l.remote_component)
      && is_some (topology_find t.pools l.pool_name)
      && is_some (topology_find t.transports l.transport_name)

  unfoldable pub validate_links : Topology P T → List LinkEntry → Status
  validate_links t [] = ok
  validate_links t (l ∷ rest) =
      let later = validate_links t rest in
      if not (link_valid t l) || repeated l rest then invalid_argument else later

  unfoldable pub topology_validate : Topology P T → List LinkEntry → Status
  topology_validate t config =
      if (length config == 0) || ltb max_links (length config)
      then invalid_argument
      else validate_links t config

-- Over the link of the same name or identity, where the policy allows it.
abbrev pub replace : ℕ → LinkEntry → Table LinkEntry → ℕ → Status × Table LinkEntry
replace policy l links i =
    if not (policy == override) then (invalid_argument, links) else (ok, put_at links i l)

abbrev pub find_link_id : LinkEntry → Table LinkEntry → Option ℕ
find_link_id l links =
    if l.link_id == 0 then none else find_index (λ other. other.link_id == l.link_id) links

unfoldable pub append_link : LinkEntry → Table LinkEntry → Status × Table LinkEntry
append_link l links = if leb max_links links.count then (no_buffer, links) else (ok, push links l)

-- One round of the registration.
abbrev pub register_new : ℕ → LinkEntry → Table LinkEntry → Option ℕ → Status × Table LinkEntry
register_new policy l links (some j) = replace policy l links j
register_new policy l links none = append_link l links

abbrev pub register_at : ℕ → LinkEntry → Table LinkEntry → Option ℕ → Status × Table LinkEntry
register_at policy l links (some i) = replace policy l links i
register_at policy l links none = register_new policy l links (find_link_id l links)

unfoldable pub register_link : ℕ → LinkEntry → Table LinkEntry → Status × Table LinkEntry
register_link policy l links = register_at policy l links (topology_find_link_index links l.name)

-- A link that is refused ends the registration; those before it stay.
unfoldable pub register_links : ℕ → List LinkEntry → Table LinkEntry → Status × Table LinkEntry
register_links policy [] links = (ok, links)
register_links policy (l ∷ rest) links =
    let (status, links1) = register_link policy l links in
    let later = register_links policy rest links1 in
    if is_ok status then later else (status, links1)

module _ {P T : Type 0} where
  unfoldable pub topology_register_config :
      Topology P T → List LinkEntry → ℕ → Status × Topology P T
  topology_register_config t config policy =
      let status = topology_validate t config in
      let (registered, links) = register_links policy config t.links in
      if not (is_ok status)
      then (status, t)
      else if ltb override policy
      then (invalid_argument, t)
      else (registered, record t { links = links })

  -- `create` is zipc_link_create; the link is none where `*link` was not written.
  abbrev pub open_both :
      {R : Type 0}
      → LinkEntry
      → (Opening P T → Status × Option R)
      → Option P
      → Option T
      → Status × Option R
  open_both l create none transport = (invalid_argument, none)
  open_both l create (some pool) none = (invalid_argument, none)
  open_both l create (some pool) (some transport) = create (declared pool transport l)

  unfoldable pub open_declared :
      {R : Type 0}
      → Topology P T
      → LinkEntry
      → (Opening P T → Status × Option R)
      → Status × Option R
  open_declared t l create =
      open_both l create (topology_find t.pools l.pool_name)
        (topology_find t.transports l.transport_name)

  unfoldable pub open_defined :
      {R : Type 0} → List Definition → Name → (Opening P T → Status × Option R) → Status × Option R
  open_defined [] name create = (invalid_argument, none)
  open_defined (d ∷ rest) name create =
      if same_name d.name name then create (defined d.config) else open_defined rest name create

  abbrev pub open_at :
      {R : Type 0}
      → Topology P T
      → Name
      → (Opening P T → Status × Option R)
      → Option ℕ
      → Status × Option R
  open_at t name create none = open_defined t.definitions name create
  open_at t name create (some i) = open_declared t (t.links.at i) create

  unfoldable pub link_open :
      {R : Type 0} → Topology P T → Name → (Opening P T → Status × Option R) → Status × Option R
  link_open t name create = open_at t name create (topology_find_link_index t.links name)

-- The older registration, of definitions that replace those before.
unfoldable pub redefined : Definition → List Definition → Bool
redefined d [] = false
redefined d (other ∷ rest) = same_name d.name other.name || redefined d rest

unfoldable pub definitions_valid : List Definition → Bool
definitions_valid [] = true
definitions_valid (d ∷ rest) =
    component_id_valid d.config.local_component
    && component_id_valid d.config.remote_component
    && not (d.config.local_component == d.config.remote_component)
    && not (redefined d rest)
    && definitions_valid rest

unfoldable pub topology_register :
    {P T : Type 0} → Topology P T → List Definition → Status × Topology P T
topology_register t definitions =
    if (length definitions == 0) || not (definitions_valid definitions)
    then (invalid_argument, t)
    else (ok, record t { definitions = definitions })
