-- ===== src/Topology/Words.antt =====
-- The words of the topology text (src/core/zipc.c: the literals of zipc_topology_load_string).
use z_ipc.Base.{[], ◌∷◌}
use z_ipc.Topology.Text.{String}

abbrev pub id : String
id = 105 ∷ 100 ∷ []

abbrev pub link_id : String
link_id = 108 ∷ 105 ∷ 110 ∷ 107 ∷ 95 ∷ 105 ∷ 100 ∷ []

abbrev pub pool : String
pool = 112 ∷ 111 ∷ 111 ∷ 108 ∷ []

abbrev pub transport : String
transport = 116 ∷ 114 ∷ 97 ∷ 110 ∷ 115 ∷ 112 ∷ 111 ∷ 114 ∷ 116 ∷ []

abbrev pub local : String
local = 108 ∷ 111 ∷ 99 ∷ 97 ∷ 108 ∷ []

abbrev pub local_component : String
local_component =
    108 ∷ 111 ∷ 99 ∷ 97 ∷ 108 ∷ 95 ∷ 99 ∷ 111 ∷ 109 ∷ 112 ∷ 111 ∷ 110 ∷ 101 ∷ 110 ∷ 116 ∷ []

abbrev pub remote : String
remote = 114 ∷ 101 ∷ 109 ∷ 111 ∷ 116 ∷ 101 ∷ []

abbrev pub remote_component : String
remote_component =
    114 ∷ 101 ∷ 109 ∷ 111 ∷ 116 ∷ 101 ∷ 95 ∷ 99 ∷ 111 ∷ 109 ∷ 112 ∷ 111 ∷ 110 ∷ 101 ∷ 110 ∷ 116 ∷ []

abbrev pub local_epoch : String
local_epoch = 108 ∷ 111 ∷ 99 ∷ 97 ∷ 108 ∷ 95 ∷ 101 ∷ 112 ∷ 111 ∷ 99 ∷ 104 ∷ []

abbrev pub role : String
role = 114 ∷ 111 ∷ 108 ∷ 101 ∷ []

abbrev pub producer : String
producer = 112 ∷ 114 ∷ 111 ∷ 100 ∷ 117 ∷ 99 ∷ 101 ∷ 114 ∷ []

abbrev pub consumer : String
consumer = 99 ∷ 111 ∷ 110 ∷ 115 ∷ 117 ∷ 109 ∷ 101 ∷ 114 ∷ []

abbrev pub hop_limit : String
hop_limit = 104 ∷ 111 ∷ 112 ∷ 95 ∷ 108 ∷ 105 ∷ 109 ∷ 105 ∷ 116 ∷ []

abbrev pub default_deadline_ns : String
default_deadline_ns =
    100 ∷ 101 ∷ 102 ∷ 97 ∷ 117 ∷ 108 ∷ 116 ∷ 95 ∷ 100 ∷ 101 ∷ 97 ∷ 100 ∷ 108 ∷ 105 ∷ 110 ∷ 101 ∷ 95
    ∷ 110 ∷ 115 ∷ []

abbrev pub timeout_ticks : String
timeout_ticks = 116 ∷ 105 ∷ 109 ∷ 101 ∷ 111 ∷ 117 ∷ 116 ∷ 95 ∷ 116 ∷ 105 ∷ 99 ∷ 107 ∷ 115 ∷ []

abbrev pub link_dot : String
link_dot = 108 ∷ 105 ∷ 110 ∷ 107 ∷ 46 ∷ []

abbrev pub link_space : String
link_space = 108 ∷ 105 ∷ 110 ∷ 107 ∷ 32 ∷ []
