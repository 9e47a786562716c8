-- ===== src/Topology/RoundTrip.antt =====
-- Theorems on the text of a configuration, and what zipc_topology_load_string of src/core/zipc.c
-- makes of it.
use z_ipc.Base.{
  ap, ◌∙◌, refl, length, some, none, arith, ◌&&◌, ◌≡◌, ◌≤◌, ◌+◌, Option, ℕ, Bool, true, false, [],
  ◌∷◌, ◌++◌, List, if◌then◌else◌,
}
use z_ipc.Topology.Words
use z_ipc.Topology.{max_links, LinkEntry}
use mathlib.Core.List.{reverse_aux}
use z_ipc.Topology.Parser.{
  topology_load_string, register_parsed, topology_parse, parse_line, links_of, parse_lines, Parse,
}
use z_ipc.Topology.Lines.{role_word, in_link_at, when}
use z_ipc.Topology.Text.{String, trim_back, trim_front, topology_trim}
use z_ipc.Topology.Render.{unlines, plain-entry, lines-unlines, lacks, all_plain, is_key}
use z_ipc.Topology.Register.{topology_register_config, Topology}
use z_ipc.Topology.Numerals.{plain-numeral, numeral, plain}
use z_ipc.Status.{invalid_argument}
use z_ipc.Topology.Written.{render_link, render, render_lines, IsWritable, in_range}
use z_ipc.Topology.Reading.{plain-role_word, read_link}
use z_ipc.Topology.Sections.{plain-section_line}

abbrev pub all_in_range : List LinkEntry → Bool
all_in_range [] = true
all_in_range (l ∷ config) = in_range l && all_in_range config

unfoldable pub AllWritable : List LinkEntry → Type 0
AllWritable [] = Unit
AllWritable (l ∷ config) = IsWritable l × AllWritable config

-- What is read, the links of `acc` first.
abbrev expected : List LinkEntry → List LinkEntry → Option (List LinkEntry)
expected acc config = if all_in_range config then some (reverse_aux acc config) else none

expected-when :
    (acc config : List LinkEntry) (l : LinkEntry)
    → (if in_range l then expected (l ∷ acc) config else none) ≡ expected acc (l ∷ config)
expected-when acc config l = ground arith

links_of-when :
    (b : Bool) (x : Option Parse) → links_of (when b x) ≡ (if b then links_of x else none)
links_of-when b x = ground arith

end_read :
    (acc : List LinkEntry) (before : Bool)
    → parse_lines ([] ∷ []) (record { links = acc; in_link = before })
      ≡ some (record { links = acc; in_link = before })
unfolding parse_lines parse_line topology_trim trim_front trim_back
end_read acc before = refl

read_config :
    (config acc : List LinkEntry) (before : Bool)
    → AllWritable config
    → length acc + length config ≤ max_links
    → links_of
        (parse_lines (render_lines config ++ ([] ∷ [])) (record { links = acc; in_link = before }))
      ≡ expected acc config
unfolding AllWritable
read_config [] acc before z room = ap links_of (end_read acc before)
read_config (l ∷ config) acc before z room =
    ap links_of
      (read_link l z.0 (render_lines config ++ ([] ∷ [])) acc before (omega (arith, room)))
    ∙ links_of-when (in_range l) (parse_lines (render_lines config ++ ([] ∷ [])) (in_link_at l acc))
    ∙ ap (λ x. if in_range l then x else none)
        (read_config config (l ∷ acc) true z.1 (omega (arith, room)))
    ∙ expected-when acc config l

both : {a b : Bool} → a ≡ true → b ≡ true → (a && b) ≡ true
both h g = ground (arith, h, g)

plain-render_link :
    (l : LinkEntry) (rest : List String)
    → IsWritable l
    → all_plain rest ≡ true
    → all_plain (render_link l ++ rest) ≡ true
unfolding is_key plain lacks
plain-render_link l rest z h =
    let name = plain-section_line l.name z.name.0 in
    let id = plain-entry Words.id (numeral l.link_id) refl (plain-numeral l.link_id) in
    let pool = plain-entry Words.pool l.pool_name refl z.pool_name.0 in
    let transport = plain-entry Words.transport l.transport_name refl z.transport_name.0 in
    let local =
      plain-entry Words.local (numeral l.local_component) refl (plain-numeral l.local_component) in
    let remote =
      plain-entry Words.remote (numeral l.remote_component) refl
        (plain-numeral l.remote_component) in
    let epoch =
      plain-entry Words.local_epoch (numeral l.local_epoch) refl (plain-numeral l.local_epoch) in
    let role = plain-entry Words.role (role_word l.role) refl (plain-role_word l.role) in
    let hops = plain-entry Words.hop_limit (numeral l.hop_limit) refl (plain-numeral l.hop_limit) in
    let deadline =
      plain-entry Words.default_deadline_ns (numeral l.default_deadline_ns) refl
        (plain-numeral l.default_deadline_ns) in
    let ticks =
      plain-entry Words.timeout_ticks (numeral l.timeout_ticks) refl
        (plain-numeral l.timeout_ticks) in
    both name (
      both id (
        both pool (
          both transport (
            both local
              (both remote (both epoch (both role (both hops (both deadline (both ticks h))))))))))

plain-render_lines :
    (config : List LinkEntry) → AllWritable config → all_plain (render_lines config) ≡ true
unfolding AllWritable
plain-render_lines [] z = refl
plain-render_lines (l ∷ config) z =
    plain-render_link l (render_lines config) z.0 (plain-render_lines config z.1)

-- A configuration that is written is read back, or refused if a number is out of range.
topology_parse-render :
    (config : List LinkEntry)
    → AllWritable config
    → length config ≤ max_links
    → topology_parse (render config) ≡ (if all_in_range config then some config else none)
unfolding topology_parse render
topology_parse-render config z room =
    ap (λ ls. links_of (parse_lines ls (record { links = []; in_link = false })))
      (lines-unlines (render_lines config) (plain-render_lines config z))
    ∙ read_config config [] false z (omega (arith, room))

registers :
    {P T : Type 0} (t : Topology P T) (l : LinkEntry) (config : List LinkEntry) (policy : ℕ)
    (b : Bool)
    → register_parsed t policy (if b then some (l ∷ config) else none)
      ≡ (if b then topology_register_config t (l ∷ config) policy else (invalid_argument, t))
registers t l config policy true = refl
registers t l config policy false = refl

load_cons :
    {P T : Type 0} (t : Topology P T) (c : ℕ) (cs : String) (policy : ℕ)
    → topology_load_string t (c ∷ cs) policy true
      ≡ register_parsed t policy (topology_parse (c ∷ cs))
unfolding topology_load_string
load_cons t c cs policy = ground arith

load_render :
    {P T : Type 0} (t : Topology P T) (l : LinkEntry) (config : List LinkEntry) (policy : ℕ)
    → topology_load_string t (render (l ∷ config)) policy true
      ≡ register_parsed t policy (topology_parse (render (l ∷ config)))
unfolding render unlines
load_render t l config policy = load_cons t 91 _ policy

-- A configuration of at least one link and at most 64 is written with a section and all ten fields
-- for each link: decimal numbers below 2^64, roles that are producer or consumer, valid names
-- without blanks and NULs, and link names without closing brackets. Loading that text, with memory
-- for its copy, does what registering the configuration does, if every component, epoch, hop limit
-- and timeout is in the range of its C type; else it is refused as an invalid argument and the
-- registry keeps its value.
pub topology_load_string-render :
    {P T : Type 0} (t : Topology P T) (l : LinkEntry) (config : List LinkEntry) (policy : ℕ)
    → AllWritable (l ∷ config)
    → length (l ∷ config) ≤ max_links
    → topology_load_string t (render (l ∷ config)) policy true ≡ (
        if all_in_range (l ∷ config)
        then topology_register_config t (l ∷ config) policy
        else (invalid_argument, t))
topology_load_string-render t l config policy z room =
    load_render t l config policy
    ∙ ap (register_parsed t policy) (topology_parse-render (l ∷ config) z room)
    ∙ registers t l config policy (all_in_range (l ∷ config))
