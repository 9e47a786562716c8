-- ===== src/Topology/Reading.antt =====
-- How the lines of a written link are read.
use z_ipc.Base.{
  ap, ◌∙◌, refl, ◌==◌, arith, some, if_elim, length, ◌&&◌, ◌^◌, leb, ◌≡◌, ◌<◌, Option, ℕ, Bool,
  true, ◌∷◌, ◌++◌, List,
}
use z_ipc.Topology.Words
use z_ipc.Topology.Lines.{
  set_field-link_id, set_field-pool_name, set_field-transport_name, set_field-local_component,
  set_field-remote_component, set_field-local_epoch, set_field-role, set_field-hop_limit,
  set_field-default_deadline_ns, set_field-timeout_ticks, read_word, read_number, in_link_at,
  role_word, when,
}
use z_ipc.Topology.{max_links, topology_name_valid, LinkEntry, Name}
use z_ipc.Topology.Numerals.{numeral, plain}
use z_ipc.Topology.Parser.{link_zero, with_name, Parse, parse_lines}
use z_ipc.Topology.Render.{is_key, entry, lacks}
use z_ipc.Topology.Text.{String}
use z_ipc.Word.{u32_max, u64_max}
use z_ipc.Topology.Written.{in_range, render_link, IsWritable}
use z_ipc.Topology.Sections.{section_read}

when-when : (a b : Bool) (x : Option Parse) → when a (when b x) ≡ when (a && b) x
when-when a b x = ground arith

when_word : (n : ℕ) → n < 2 ^ 64 → (x : Option Parse) → when (leb n u64_max) x ≡ x
when_word n word x = ground (arith, word)

named :
    (set : Name → LinkEntry) (name : Name)
    → topology_name_valid name ≡ true
    → with_name set name ≡ some (set name)
named set name valid = ground (arith, valid)

pub plain-role_word : (role : ℕ) → plain (role_word role) ≡ true
unfolding plain
plain-role_word role = if_elim (λ s. plain s ≡ true) (role == 1) (λ _. refl) (λ _. refl)

module _ (l : LinkEntry) (z : IsWritable l) (rest : List String) (acc : List LinkEntry) where
  abbrev start : LinkEntry
  start = link_zero l.name

  abbrev with_link_id : LinkEntry
  with_link_id = record (start) { link_id = l.link_id }

  abbrev with_pool_name : LinkEntry
  with_pool_name = record (with_link_id) { pool_name = l.pool_name }

  abbrev with_transport_name : LinkEntry
  with_transport_name = record (with_pool_name) { transport_name = l.transport_name }

  abbrev with_local_component : LinkEntry
  with_local_component = record (with_transport_name) { local_component = l.local_component }

  abbrev with_remote_component : LinkEntry
  with_remote_component = record (with_local_component) { remote_component = l.remote_component }

  abbrev with_local_epoch : LinkEntry
  with_local_epoch = record (with_remote_component) { local_epoch = l.local_epoch }

  abbrev with_role : LinkEntry
  with_role = record (with_local_epoch) { role = l.role }

  abbrev with_hop_limit : LinkEntry
  with_hop_limit = record (with_role) { hop_limit = l.hop_limit }

  abbrev with_default_deadline_ns : LinkEntry
  with_default_deadline_ns = record (with_hop_limit) { default_deadline_ns = l.default_deadline_ns }

  abbrev with_timeout_ticks : LinkEntry
  with_timeout_ticks = record (with_default_deadline_ns) { timeout_ticks = l.timeout_ticks }

  abbrev state : LinkEntry → Parse
  state now = in_link_at now acc

  abbrev read : Option Parse
  read = parse_lines rest (state l)

  abbrev lines_timeout_ticks : List String
  lines_timeout_ticks = entry Words.timeout_ticks (numeral l.timeout_ticks) ∷ rest

  abbrev lines_default_deadline_ns : List String
  lines_default_deadline_ns =
      entry Words.default_deadline_ns (numeral l.default_deadline_ns) ∷ lines_timeout_ticks

  abbrev lines_hop_limit : List String
  lines_hop_limit = entry Words.hop_limit (numeral l.hop_limit) ∷ lines_default_deadline_ns

  abbrev lines_role : List String
  lines_role = entry Words.role (role_word l.role) ∷ lines_hop_limit

  abbrev lines_local_epoch : List String
  lines_local_epoch = entry Words.local_epoch (numeral l.local_epoch) ∷ lines_role

  abbrev lines_remote_component : List String
  lines_remote_component = entry Words.remote (numeral l.remote_component) ∷ lines_local_epoch

  abbrev lines_local_component : List String
  lines_local_component = entry Words.local (numeral l.local_component) ∷ lines_remote_component

  abbrev lines_transport_name : List String
  lines_transport_name = entry Words.transport l.transport_name ∷ lines_local_component

  abbrev lines_pool_name : List String
  lines_pool_name = entry Words.pool l.pool_name ∷ lines_transport_name

  abbrev lines_link_id : List String
  lines_link_id = entry Words.id (numeral l.link_id) ∷ lines_pool_name

  abbrev fits_timeout_ticks : Bool
  fits_timeout_ticks = leb l.timeout_ticks u32_max

  abbrev fits_hop_limit : Bool
  fits_hop_limit = leb l.hop_limit u32_max && fits_timeout_ticks

  abbrev fits_local_epoch : Bool
  fits_local_epoch = leb l.local_epoch u32_max && fits_hop_limit

  abbrev fits_remote_component : Bool
  fits_remote_component = leb l.remote_component 65535 && fits_local_epoch

  abbrev fits_local_component : Bool
  fits_local_component = leb l.local_component 65535 && fits_remote_component

  from_timeout_ticks :
      parse_lines lines_timeout_ticks (state with_default_deadline_ns)
      ≡ when fits_timeout_ticks read
  unfolding is_key plain lacks
  from_timeout_ticks =
      read_number rest acc Words.timeout_ticks u32_max l.timeout_ticks
        (λ n. record (with_default_deadline_ns) { timeout_ticks = n }) with_default_deadline_ns refl
        (λ value. set_field-timeout_ticks value with_default_deadline_ns) (omega (arith, z.words.6))

  from_default_deadline_ns :
      parse_lines lines_default_deadline_ns (state with_hop_limit) ≡ when fits_timeout_ticks read
  unfolding is_key plain lacks
  from_default_deadline_ns =
      read_number lines_timeout_ticks acc Words.default_deadline_ns u64_max l.default_deadline_ns
        (λ n. record (with_hop_limit) { default_deadline_ns = n }) with_hop_limit refl
        (λ value. set_field-default_deadline_ns value with_hop_limit) z.words.5
      ∙ ap (when (leb l.default_deadline_ns u64_max)) from_timeout_ticks
      ∙ when_word l.default_deadline_ns z.words.5 (when fits_timeout_ticks read)

  from_hop_limit : parse_lines lines_hop_limit (state with_role) ≡ when fits_hop_limit read
  unfolding is_key plain lacks
  from_hop_limit =
      read_number lines_default_deadline_ns acc Words.hop_limit u32_max l.hop_limit
        (λ n. record (with_role) { hop_limit = n }) with_role refl
        (λ value. set_field-hop_limit value with_role) z.words.4
      ∙ ap (when (leb l.hop_limit u32_max)) from_default_deadline_ns
      ∙ when-when (leb l.hop_limit u32_max) fits_timeout_ticks read

  from_role : parse_lines lines_role (state with_local_epoch) ≡ when fits_hop_limit read
  unfolding is_key plain lacks
  from_role =
      read_word lines_hop_limit acc Words.role (role_word l.role) with_local_epoch with_role refl
        (plain-role_word l.role) (set_field-role l.role with_local_epoch z.role)
      ∙ from_hop_limit

  from_local_epoch :
      parse_lines lines_local_epoch (state with_remote_component) ≡ when fits_local_epoch read
  unfolding is_key plain lacks
  from_local_epoch =
      read_number lines_role acc Words.local_epoch u32_max l.local_epoch
        (λ n. record (with_remote_component) { local_epoch = n }) with_remote_component refl
        (λ value. set_field-local_epoch value with_remote_component) z.words.3
      ∙ ap (when (leb l.local_epoch u32_max)) from_role
      ∙ when-when (leb l.local_epoch u32_max) fits_hop_limit read

  from_remote_component :
      parse_lines lines_remote_component (state with_local_component)
      ≡ when fits_remote_component read
  unfolding is_key plain lacks
  from_remote_component =
      read_number lines_local_epoch acc Words.remote 65535 l.remote_component
        (λ n. record (with_local_component) { remote_component = n }) with_local_component refl
        (λ value. set_field-remote_component value with_local_component) z.words.2
      ∙ ap (when (leb l.remote_component 65535)) from_local_epoch
      ∙ when-when (leb l.remote_component 65535) fits_local_epoch read

  from_local_component :
      parse_lines lines_local_component (state with_transport_name) ≡ when fits_local_component read
  unfolding is_key plain lacks
  from_local_component =
      read_number lines_remote_component acc Words.local 65535 l.local_component
        (λ n. record (with_transport_name) { local_component = n }) with_transport_name refl
        (λ value. set_field-local_component value with_transport_name) z.words.1
      ∙ ap (when (leb l.local_component 65535)) from_remote_component
      ∙ when-when (leb l.local_component 65535) fits_remote_component read

  from_transport_name :
      parse_lines lines_transport_name (state with_pool_name) ≡ when fits_local_component read
  unfolding is_key plain lacks
  from_transport_name =
      read_word lines_local_component acc Words.transport l.transport_name with_pool_name
        with_transport_name refl z.transport_name.0
        (set_field-transport_name l.transport_name with_pool_name
          ∙ named (λ name. record (with_pool_name) { transport_name = name }) l.transport_name
              z.transport_name.1)
      ∙ from_local_component

  from_pool_name : parse_lines lines_pool_name (state with_link_id) ≡ when fits_local_component read
  unfolding is_key plain lacks
  from_pool_name =
      read_word lines_transport_name acc Words.pool l.pool_name with_link_id with_pool_name refl
        z.pool_name.0
        (set_field-pool_name l.pool_name with_link_id
          ∙ named (λ name. record (with_link_id) { pool_name = name }) l.pool_name z.pool_name.1)
      ∙ from_transport_name

  from_link_id : parse_lines lines_link_id (state start) ≡ when fits_local_component read
  unfolding is_key plain lacks
  from_link_id =
      read_number lines_pool_name acc Words.id u64_max l.link_id
        (λ n. record (start) { link_id = n }) start refl (λ value. set_field-link_id value start)
        z.words.0
      ∙ ap (when (leb l.link_id u64_max)) from_pool_name
      ∙ when_word l.link_id z.words.0 (when fits_local_component read)

  pub read_link :
      (before : Bool)
      → length acc < max_links
      → parse_lines (render_link l ++ rest) (record { links = acc; in_link = before })
        ≡ when (in_range l) read
  read_link before room =
      section_read l.name (record { links = acc; in_link = before }) lines_link_id z.name room
      ∙ from_link_id
