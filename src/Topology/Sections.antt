-- ===== src/Topology/Sections.antt =====
-- How the section line of a written link is read.
use z_ipc.Base.{
  ap, ◌∙◌, refl, none, some, arith, not, length, if◌then◌else◌, ◌||◌, ◌≡◌, ◌<◌, leb, Option, true,
  [], ◌∷◌, ◌++◌, List,
}
use z_ipc.Topology.{max_links, topology_name_valid, same_name, Name, LinkEntry}
use z_ipc.Topology.Text.{topology_trim, String}
use z_ipc.Topology.Numerals.{plain}
use z_ipc.Topology.Parser.{
  and_then, section, link_zero, split_at, parse_lines, begin_section, Parse, parse_line,
}
use z_ipc.Topology.Render.{topology_trim-plain, split_at-lacks, plain-append, lacks}
use z_ipc.Topology.Lines.{in_link_at}
use z_ipc.Topology.Written.{section_line}

abbrev dotted : Name → String
dotted name = 108 ∷ 105 ∷ 110 ∷ 107 ∷ 46 ∷ name

pub plain-section_line : (name : Name) → plain name ≡ true → plain (section_line name) ≡ true
unfolding plain
plain-section_line name h = plain-append name (93 ∷ []) h refl

parse_line-section_line :
    (name : Name) (s : Parse)
    → parse_line s (section_line name) ≡ section s.links (split_at 93 (dotted name ++ (93 ∷ [])))
unfolding parse_line
parse_line-section_line name s = refl

split_at-dotted :
    (name : Name)
    → lacks 93 name ≡ true
    → split_at 93 (dotted name ++ (93 ∷ [])) ≡ some (dotted name, [])
unfolding lacks
split_at-dotted name h = split_at-lacks 93 (dotted name) [] h

topology_trim-dotted : (name : Name) → plain name ≡ true → topology_trim (dotted name) ≡ dotted name
unfolding plain
topology_trim-dotted name h = topology_trim-plain (dotted name) h

abbrev begin : List LinkEntry → Name → Option Parse
begin links name =
    if not (topology_name_valid name) || leb max_links (length links)
    then none
    else some (in_link_at (link_zero name) links)

begin_section-dotted :
    (name : Name) (links : List LinkEntry)
    → begin_section links (dotted name) ≡ begin links (topology_trim name)
unfolding begin_section same_name
begin_section-dotted name links = refl

begins :
    (name : Name) (links : List LinkEntry)
    → topology_name_valid name ≡ true
    → length links < max_links
    → begin links name ≡ some (in_link_at (link_zero name) links)
begins name links valid room = ground (arith, valid, room)

pub section_read :
    (name : Name) (s : Parse) (rest : List String)
    → (plain name ≡ true) × (lacks 93 name ≡ true) × (topology_name_valid name ≡ true)
    → length s.links < max_links
    → parse_lines (section_line name ∷ rest) s
      ≡ parse_lines rest (in_link_at (link_zero name) s.links)
unfolding parse_lines
section_read name s rest h room =
    let opened =
      begin_section-dotted name s.links
      ∙ ap (begin s.links) (topology_trim-plain name h.0)
      ∙ begins name s.links h.2 room in
    ap (λ line. and_then (parse_line s line) (parse_lines rest))
      (topology_trim-plain (section_line name) (plain-section_line name h.0))
    ∙ ap (λ r. and_then r (parse_lines rest))
        (parse_line-section_line name s
          ∙ ap (section s.links) (split_at-dotted name h.1)
          ∙ ap (begin_section s.links) (topology_trim-dotted name h.0)
          ∙ opened)
