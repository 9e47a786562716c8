-- ===== src/Topology.antt =====
-- The process's table of declared links, and of the pools and transports they name
-- (src/core/zipc.c: topology_name_valid to zipc_topology_bind_transport, zipc_link_open). A name is
-- the list of its characters.
pub mod Register
mod Search
pub mod Laws
mod Batch
pub mod Config
pub mod Text
pub mod Words
pub mod Parser
pub mod Numerals
pub mod Render
mod Lines
pub mod Written
mod Sections
mod Reading
pub mod RoundTrip
use z_ipc.Base.{
  ℕ, zero, suc, Bool, true, false, Option, none, some, List, [], ◌∷◌, ltb, leb, ◌==◌, ◌&&◌, not,
  ◌+◌, update, length,
}
use z_ipc.Base.{if◌then◌else◌}
use z_ipc.Status.{Status, ok, invalid_argument, no_buffer}

abbrev pub Name : Type 0
Name = List ℕ

-- `strcmp` of two names is 0.
unfoldable pub same_name : Name → Name → Bool
same_name [] [] = true
same_name [] (y ∷ ys) = false
same_name (x ∷ xs) [] = false
same_name (x ∷ xs) (y ∷ ys) = (x == y) && same_name xs ys

-- ZIPC_TOPOLOGY_NAME_MAX and the sizes of the tables.
abbrev pub name_max : ℕ
name_max = 63

abbrev pub max_links : ℕ
max_links = 64

abbrev pub max_pools : ℕ
max_pools = 32

abbrev pub max_transports : ℕ
max_transports = 64

-- An array and the number of its entries in use.
pub record Table {ℓ} (A : Type ℓ) : Type ℓ where
  pub count : ℕ
  pub at : ℕ → A

-- The first of the `n` entries from `i` on that the test accepts.
unfoldable pub find_from {ℓ} : {A : Type ℓ} → (A → Bool) → (ℕ → A) → ℕ → ℕ → Option ℕ
find_from test at zero i = none
find_from test at (suc n) i =
    let rest = find_from test at n (suc i) in if test (at i) then some i else rest

abbrev pub find_index {ℓ} : {A : Type ℓ} → (A → Bool) → Table A → Option ℕ
find_index test table = find_from test table.at table.count 0

abbrev pub put_at {ℓ} : {A : Type ℓ} → Table A → ℕ → A → Table A
put_at table i x = record table { at = update table.at i x }

abbrev pub push {ℓ} : {A : Type ℓ} → Table A → A → Table A
push table x = record { count = suc table.count; at = update table.at table.count x }

-- `zipc_pool_binding_t` and `zipc_transport_binding_t`
pub record Binding {ℓ} (A : Type ℓ) : Type ℓ where
  pub name : Name
  pub value : A

-- `zipc_topology_link_config_t` and `zipc_topology_link_entry_t`, which have the same fields
pub record LinkEntry : Type 0 where
  pub name : Name
  pub link_id : ℕ
  pub pool_name : Name
  pub transport_name : Name
  pub local_component : ℕ
  pub remote_component : ℕ
  pub local_epoch : ℕ
  pub role : ℕ
  pub hop_limit : ℕ
  pub default_deadline_ns : ℕ
  pub timeout_ticks : ℕ

unfoldable pub topology_name_valid : Name → Bool
topology_name_valid name = not (length name == 0) && leb (length name) name_max

unfoldable pub topology_find {ℓ} : {A : Type ℓ} → Table (Binding A) → Name → Option A
topology_find bindings name = elim (find_index (λ b. same_name b.name name) bindings) [
  | none ↦ none
  | some i ↦ some ((bindings.at i).value)
]

unfoldable pub topology_find_link_index : Table LinkEntry → Name → Option ℕ
topology_find_link_index links name = find_index (λ l. same_name l.name name) links

-- What a bind of a new or an old name makes of the bindings, of which there are at most `most`.
unfoldable pub topology_bind {ℓ} :
    {A : Type ℓ} → ℕ → Table (Binding A) → Name → A → Status × Table (Binding A)
topology_bind most bindings name value =
    if not (topology_name_valid name)
    then (invalid_argument, bindings)
    else elim (find_index (λ b. same_name b.name name) bindings) [
      | some i ↦ (ok, put_at bindings i (record (bindings.at i) { value = value }))
      | none ↦
          if leb most bindings.count
          then (no_buffer, bindings)
          else (ok, push bindings (record { name = name; value = value }))
    ]
