-- ===== src/Topology/Parser.antt =====
-- `zipc_topology_load_string` of src/core/zipc.c.
use z_ipc.Base.{
  ℕ, Bool, true, false, Option, none, some, List, [], ◌∷◌, leb, ◌==◌, ◌||◌, not, length, take, drop,
}
use z_ipc.Base.{if◌then◌else◌}
use z_ipc.Word.{u64_max, u32_max}
use z_ipc.Status.{Status, invalid_argument, platform}
use z_ipc.Topology.{Name, LinkEntry, same_name, topology_name_valid, max_links}
use z_ipc.Topology.Register.{Topology, topology_register_config}
use z_ipc.Topology.Words
use mathlib.Core.List.{reverse}
use z_ipc.Topology.Text.{String, topology_trim, parse_up_to}

-- `strchr`: what stands before the first such character, and behind it.
unfoldable pub split_at : ℕ → String → Option (String × String)
split_at c [] = none
split_at c (x ∷ xs) =
    let rest = split_at c xs in
    if x == c
    then some ([], xs)
    else elim rest [ none ↦ none | some (before, after) ↦ some (x ∷ before, after) ]

-- The lines of `strtok`, with the empty ones that it passes over; the text ends at its first NUL.
unfoldable pub lines : String → List String
lines [] = [] ∷ []
lines (c ∷ cs) =
    let rest = lines cs in
    if c == 0
    then [] ∷ []
    else if c == 10
    then [] ∷ rest
    else elim rest [ [] ↦ (c ∷ []) ∷ [] | line ∷ more ↦ (c ∷ line) ∷ more ]

-- The links so far, the last one first; `in_link` says that `current` is the last one, and not NULL.
pub record Parse : Type 0 where
  pub links : List LinkEntry
  pub in_link : Bool

-- A link of zero bytes, with a name; a name that is not given is empty.
abbrev pub link_zero : Name → LinkEntry
link_zero name = record {
  name = name;
  link_id = 0;
  pool_name = [];
  transport_name = [];
  local_component = 0;
  remote_component = 0;
  local_epoch = 0;
  role = 0;
  hop_limit = 0;
  default_deadline_ns = 0;
  timeout_ticks = 0;
}

abbrev pub with_number : (ℕ → LinkEntry) → Option ℕ → Option LinkEntry
with_number set none = none
with_number set (some n) = some (set n)

abbrev pub with_name : (Name → LinkEntry) → Name → Option LinkEntry
with_name set name = if topology_name_valid name then some (set name) else none

abbrev pub is_word : String → String → Bool
is_word s word = same_name s word

-- The field of the key is set; none is a parse error.
unfoldable pub set_field : String → String → LinkEntry → Option LinkEntry
set_field key value l =
    if is_word key Words.id || is_word key Words.link_id
    then with_number (λ n. record l { link_id = n }) (parse_up_to u64_max value)
    else if is_word key Words.pool
    then with_name (λ name. record l { pool_name = name }) value
    else if is_word key Words.transport
    then with_name (λ name. record l { transport_name = name }) value
    else if is_word key Words.local || is_word key Words.local_component
    then with_number (λ n. record l { local_component = n }) (parse_up_to 65535 value)
    else if is_word key Words.remote || is_word key Words.remote_component
    then with_number (λ n. record l { remote_component = n }) (parse_up_to 65535 value)
    else if is_word key Words.local_epoch
    then with_number (λ n. record l { local_epoch = n }) (parse_up_to u32_max value)
    else if is_word key Words.role
    then (if is_word value Words.producer
        then some (record l { role = 1 })
        else if is_word value Words.consumer
        then some (record l { role = 2 })
        else none)
    else if is_word key Words.hop_limit
    then with_number (λ n. record l { hop_limit = n }) (parse_up_to u32_max value)
    else if is_word key Words.default_deadline_ns
    then with_number (λ n. record l { default_deadline_ns = n }) (parse_up_to u64_max value)
    else if is_word key Words.timeout_ticks
    then with_number (λ n. record l { timeout_ticks = n }) (parse_up_to u32_max value)
    else none

abbrev pub with_field : List LinkEntry → Option LinkEntry → Option Parse
with_field links none = none
with_field links (some l) = some (record { links = l ∷ links; in_link = true })

-- `key = value`, in the last link.
abbrev pub assign : List LinkEntry → Option (String × String) → Option Parse
assign links none = none
assign [] (some (key, value)) = none
assign (l ∷ links) (some (key, value)) =
    with_field links (set_field (topology_trim key) (topology_trim value) l)

-- A section other than that of a link closes the last one.
unfoldable pub begin_section : List LinkEntry → String → Option Parse
begin_section links section =
    let name = topology_trim (drop 5 section) in
    if not (is_word (take 5 section) Words.link_dot || is_word (take 5 section) Words.link_space)
    then some (record { links = links; in_link = false })
    else if not (topology_name_valid name) || leb max_links (length links)
    then none
    else some (record { links = link_zero name ∷ links; in_link = true })

abbrev pub section : List LinkEntry → Option (String × String) → Option Parse
section links none = none
section links (some (inside, after)) = begin_section links (topology_trim inside)

-- One line, without the blanks around it.
unfoldable pub parse_line : Parse → String → Option Parse
parse_line s [] = some s
parse_line s (c ∷ cs) =
    if (c == 35) || (c == 59)
    then some s
    else if c == 91
    then section s.links (split_at 93 cs)
    else if not s.in_link
    then some s
    else assign s.links (split_at 61 (c ∷ cs))

abbrev pub and_then : Option Parse → (Parse → Option Parse) → Option Parse
and_then none next = none
and_then (some s) next = next s

unfoldable pub parse_lines : List String → Parse → Option Parse
parse_lines [] s = some s
parse_lines (line ∷ rest) s = and_then (parse_line s (topology_trim line)) (parse_lines rest)

abbrev pub links_of : Option Parse → Option (List LinkEntry)
links_of none = none
links_of (some s) = some (reverse s.links)

unfoldable pub topology_parse : String → Option (List LinkEntry)
topology_parse text = links_of (parse_lines (lines text) (record { links = []; in_link = false }))

abbrev pub register_parsed :
    {P T : Type 0} → Topology P T → ℕ → Option (List LinkEntry) → Status × Topology P T
register_parsed t policy none = (invalid_argument, t)
register_parsed t policy (some []) = (invalid_argument, t)
register_parsed t policy (some (l ∷ config)) = topology_register_config t (l ∷ config) policy

-- `allocates` says that there is memory for the copy of the text.
unfoldable pub topology_load_string :
    {P T : Type 0} → Topology P T → String → ℕ → Bool → Status × Topology P T
topology_load_string t text policy allocates =
    if length text == 0
    then (invalid_argument, t)
    else if not allocates
    then (platform, t)
    else register_parsed t policy (topology_parse text)
