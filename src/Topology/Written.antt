-- ===== src/Topology/Written.antt =====
-- The text that a configuration is written as, and which configurations can be written.
use z_ipc.Base.{◌&&◌, ◌⊎◌, ◌^◌, leb, ◌≡◌, ◌<◌, Bool, true, [], ◌∷◌, ◌++◌, List}
use z_ipc.Topology.Words
use z_ipc.Topology.Lines.{role_word}
use z_ipc.Topology.{topology_name_valid, LinkEntry, Name}
use z_ipc.Topology.Numerals.{numeral, plain}
use z_ipc.Topology.Render.{unlines, entry, lacks}
use z_ipc.Topology.Text.{String}
use z_ipc.Word.{u32_max}

abbrev pub section_line : Name → String
section_line name = 91 ∷ 108 ∷ 105 ∷ 110 ∷ 107 ∷ 46 ∷ (name ++ (93 ∷ []))

-- The lines of a link with a role: the section, and every field.
abbrev pub render_link : LinkEntry → List String
render_link l =
    section_line l.name
    ∷ entry Words.id (numeral l.link_id)
    ∷ entry Words.pool l.pool_name
    ∷ entry Words.transport l.transport_name
    ∷ entry Words.local (numeral l.local_component)
    ∷ entry Words.remote (numeral l.remote_component)
    ∷ entry Words.local_epoch (numeral l.local_epoch)
    ∷ entry Words.role (role_word l.role)
    ∷ entry Words.hop_limit (numeral l.hop_limit)
    ∷ entry Words.default_deadline_ns (numeral l.default_deadline_ns)
    ∷ entry Words.timeout_ticks (numeral l.timeout_ticks)
    ∷ []

abbrev pub render_lines : List LinkEntry → List String
render_lines [] = []
render_lines (l ∷ config) = render_link l ++ render_lines config

-- The text of a configuration.
unfoldable pub render : List LinkEntry → String
render config = unlines (render_lines config)

-- Names without blanks and NULs, the link's also without closing brackets; a role; 64-bit numbers.
pub record IsWritable (l : LinkEntry) : Type 0 where
  pub name : (plain l.name ≡ true) × (lacks 93 l.name ≡ true) × (topology_name_valid l.name ≡ true)
  pub pool_name : (plain l.pool_name ≡ true) × (topology_name_valid l.pool_name ≡ true)
  pub transport_name :
      (plain l.transport_name ≡ true) × (topology_name_valid l.transport_name ≡ true)
  pub role : (l.role ≡ 1) ⊎ (l.role ≡ 2)
  pub words :
      (l.link_id < 2 ^ 64)
      × (l.local_component < 2 ^ 64)
      × (l.remote_component < 2 ^ 64)
      × (l.local_epoch < 2 ^ 64)
      × (l.hop_limit < 2 ^ 64)
      × (l.default_deadline_ns < 2 ^ 64)
      × (l.timeout_ticks < 2 ^ 64)

-- Every number is in the range of its field.
abbrev pub in_range : LinkEntry → Bool
in_range l =
    leb l.local_component 65535
    && (leb l.remote_component 65535
        && (leb l.local_epoch u32_max && (leb l.hop_limit u32_max && leb l.timeout_ticks u32_max)))
