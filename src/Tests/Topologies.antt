-- ===== src/Tests/Topologies.antt =====
-- A process with one pool and one transport, and a configuration of two links between components 3
-- and 5.
use z_ipc.Base.{inr, inl, if◌then◌else◌, true, ℕ, ◌≡◌, refl, arith, Option, some}
use mathlib.Core.List.{[], ◌∷◌}
use z_ipc.Status.{invalid_argument, component_id_valid, Status, ok}
use z_ipc.Topology.{
  push, topology_find_link_index, same_name, find_from, topology_find, topology_name_valid,
  LinkEntry,
}
use z_ipc.Topology.Register.{
  append_link, register_link, register_links, repeated, link_valid, validate_links,
  topology_validate, Topology, Opening, topology_register_config,
}
use z_ipc.Topology.Laws.{IsRegistry}
use z_ipc.Topology.Config.{topology_register_config_lem, RegistersConfig}
use z_ipc.Topology.Text.{
  skip_spaces, digit, digits, number, strtoull_from, strtoull, parse_up_to, topology_parse_u64,
  trim_back, trim_front, topology_trim, String,
}
use z_ipc.Topology.Parser.{
  lines, split_at, set_field, begin_section, parse_line, parse_lines, topology_parse,
  topology_load_string,
}
use z_ipc.Topology.RoundTrip.{topology_load_string-render, AllWritable, all_in_range}
use z_ipc.Topology.Written.{render, IsWritable}
use z_ipc.Topology.Numerals.{plain}
use z_ipc.Topology.Render.{lacks}

abbrev link_forth : LinkEntry
link_forth = record {
  name = 102 ∷ [];
  link_id = 1;
  pool_name = 112 ∷ [];
  transport_name = 116 ∷ [];
  local_component = 3;
  remote_component = 5;
  local_epoch = 0;
  role = 1;
  hop_limit = 0;
  default_deadline_ns = 0;
  timeout_ticks = 0;
}

abbrev link_back : LinkEntry
link_back = record link_forth { name = 98 ∷ []; link_id = 2; role = 2 }

-- Pools and transports are numbers here. A link `x` with the identity 2 is declared before.
abbrev topology : Topology ℕ ℕ
topology = record {
  pools = record { count = 1; at = λ i. record { name = 112 ∷ []; value = 40 } };
  transports = record { count = 1; at = λ i. record { name = 116 ∷ []; value = 41 } };
  links = record { count = 1; at = λ i. record link_back { name = 120 ∷ [] } };
  definitions = [];
}

topology-IsRegistry : IsRegistry topology.links
topology-IsRegistry = record { bounded = omega arith; distinct = λ i j li lj same. omega arith }

abbrev created : Opening ℕ ℕ → Status × Option ℕ
created o = (ok, some 7)

-- With the override the two links are registered, one of them over the link that was there; else
-- the registration is refused.
overrides : (topology_register_config topology (link_forth ∷ link_back ∷ []) 2).0 ≡ ok
unfolding topology_register_config topology_validate validate_links link_valid topology_name_valid
    topology_find find_from same_name repeated register_links register_link topology_find_link_index
    append_link component_id_valid
overrides = refl

topology_register_config_lem_example :
    RegistersConfig created topology
      (link_forth ∷ link_back ∷ [])
      2
      (topology_register_config topology (link_forth ∷ link_back ∷ []) 2)
topology_register_config_lem_example =
    topology_register_config_lem created topology (link_forth ∷ link_back ∷ []) 2
      topology-IsRegistry

-- "# a link\n[link.f]\nid = 0x10\npool=p\ntransport = t\nlocal=3\nremote=5\nrole=producer\n"
abbrev text : String
text =
    35 ∷ 32 ∷ 97 ∷ 32 ∷ 108 ∷ 105 ∷ 110 ∷ 107 ∷ 10 ∷ 91 ∷ 108 ∷ 105 ∷ 110 ∷ 107 ∷ 46 ∷ 102 ∷ 93 ∷ 10
    ∷ 105 ∷ 100 ∷ 32 ∷ 61 ∷ 32 ∷ 48 ∷ 120 ∷ 49 ∷ 48 ∷ 10 ∷ 112 ∷ 111 ∷ 111 ∷ 108 ∷ 61 ∷ 112 ∷ 10
    ∷ 116 ∷ 114 ∷ 97 ∷ 110 ∷ 115 ∷ 112 ∷ 111 ∷ 114 ∷ 116 ∷ 32 ∷ 61 ∷ 32 ∷ 116 ∷ 10 ∷ 108 ∷ 111 ∷ 99
    ∷ 97 ∷ 108 ∷ 61 ∷ 51 ∷ 10 ∷ 114 ∷ 101 ∷ 109 ∷ 111 ∷ 116 ∷ 101 ∷ 61 ∷ 53 ∷ 10 ∷ 114 ∷ 111 ∷ 108
    ∷ 101 ∷ 61 ∷ 112 ∷ 114 ∷ 111 ∷ 100 ∷ 117 ∷ 99 ∷ 101 ∷ 114 ∷ 10 ∷ []

abbrev link_read : LinkEntry
link_read = record link_forth { link_id = 16 }

loads :
    topology_load_string topology text 0 true
    ≡ (ok, record topology { links = push topology.links link_read })
unfolding topology_load_string topology_parse parse_lines parse_line begin_section set_field
    split_at lines topology_trim trim_front trim_back topology_parse_u64 parse_up_to strtoull
    strtoull_from number digits digit skip_spaces topology_register_config topology_validate
    validate_links link_valid topology_name_valid topology_find find_from same_name repeated
    register_links register_link topology_find_link_index append_link component_id_valid
loads = refl

link_forth-IsWritable : IsWritable link_forth
unfolding plain lacks topology_name_valid
link_forth-IsWritable = record {
  name = (refl, refl, refl);
  pool_name = (refl, refl);
  transport_name = (refl, refl);
  role = inl refl;
  words =
      (omega arith, omega arith, omega arith, omega arith, omega arith, omega arith, omega arith);
}

link_back-IsWritable : IsWritable link_back
unfolding plain lacks topology_name_valid
link_back-IsWritable = record {
  name = (refl, refl, refl);
  pool_name = (refl, refl);
  transport_name = (refl, refl);
  role = inr refl;
  words =
      (omega arith, omega arith, omega arith, omega arith, omega arith, omega arith, omega arith);
}

links-AllWritable : AllWritable (link_forth ∷ link_back ∷ [])
unfolding AllWritable
links-AllWritable = (link_forth-IsWritable, (link_back-IsWritable, tt))

topology_load_string-render_example :
    topology_load_string topology (render (link_forth ∷ link_back ∷ [])) 2 true ≡ (
      if all_in_range (link_forth ∷ link_back ∷ [])
      then topology_register_config topology (link_forth ∷ link_back ∷ []) 2
      else (invalid_argument, topology))
topology_load_string-render_example =
    topology_load_string-render topology link_forth (link_back ∷ []) 2 links-AllWritable
      (omega arith)
