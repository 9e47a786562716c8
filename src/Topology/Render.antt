-- ===== src/Topology/Render.antt =====
-- The topology text of a configuration, and how its lines are read.
use z_ipc.Base.{
  refl, ◌∙◌, ap, arith, some, ◌==◌, ◌&&◌, ◌≡◌, not, ℕ, Bool, true, false, [], ◌∷◌, ◌++◌, List,
}
use z_ipc.Topology.Numerals.{plain}
use z_ipc.Topology.Text.{String, topology_trim, trim_front, trim_back}
use z_ipc.Topology.Parser.{set_field, with_field, assign, parse_line, lines, split_at}
use z_ipc.Topology.{LinkEntry}
use mathlib.Core.Path.{ap₂}

-- The string does not have the character.
unfoldable pub lacks : ℕ → String → Bool
lacks c [] = true
lacks c (x ∷ xs) = not (x == c) && lacks c xs

pub split_at-lacks :
    (c : ℕ) (before after : String)
    → lacks c before ≡ true
    → split_at c (before ++ (c ∷ after)) ≡ some (before, after)
unfolding split_at lacks
split_at-lacks c [] after h = ground arith
split_at-lacks c (x ∷ xs) after h =
    let later = split_at-lacks c xs after (ground (arith, h)) in ground (arith, h, later)

pub plain-append : (xs ys : String) → plain xs ≡ true → plain ys ≡ true → plain (xs ++ ys) ≡ true
unfolding plain
plain-append [] ys h g = g
plain-append (x ∷ xs) ys h g =
    let later = plain-append xs ys (ground (arith, h)) g in ground (arith, h, later)

trim_back-plain : (s : String) → plain s ≡ true → trim_back s ≡ s
unfolding trim_back plain
trim_back-plain [] h = refl
trim_back-plain (c ∷ cs) h =
    let later = trim_back-plain cs (ground (arith, h)) in ground (arith, h, later)

trim_front-plain : (s : String) → plain s ≡ true → trim_front s ≡ s
unfolding trim_front plain
trim_front-plain [] h = refl
trim_front-plain (c ∷ cs) h = ground (arith, h)

pub topology_trim-plain : (s : String) → plain s ≡ true → topology_trim s ≡ s
unfolding topology_trim
topology_trim-plain s h = ap trim_back (trim_front-plain s h) ∙ trim_back-plain s h

-- Each line with its end.
unfoldable pub unlines : List String → String
unlines [] = []
unlines (line ∷ rest) = line ++ (10 ∷ unlines rest)

abbrev pub all_plain : List String → Bool
all_plain [] = true
all_plain (line ∷ rest) = plain line && all_plain rest

lines-line :
    (line rest : String) → plain line ≡ true → lines (line ++ (10 ∷ rest)) ≡ line ∷ lines rest
unfolding lines plain
lines-line [] rest h = refl
lines-line (c ∷ cs) rest h =
    let later = lines-line cs rest (ground (arith, h)) in ground (arith, h, later)

pub lines-unlines : (ls : List String) → all_plain ls ≡ true → lines (unlines ls) ≡ ls ++ ([] ∷ [])
unfolding lines unlines
lines-unlines [] h = refl
lines-unlines (line ∷ rest) h =
    lines-line line (unlines rest) (ground (arith, h))
    ∙ ap (λ more. line ∷ more) (lines-unlines rest (ground (arith, h)))

-- `key=value`
abbrev pub entry : String → String → String
entry key value = key ++ (61 ∷ value)

-- A key that starts no comment and no section.
unfoldable pub is_key : String → Bool
is_key [] = false
is_key (c ∷ cs) =
    not (c == 35) && not (c == 59) && not (c == 91) && plain (c ∷ cs) && lacks 61 (c ∷ cs)

plain-equals : (v : String) → plain v ≡ true → plain (61 ∷ v) ≡ true
unfolding plain
plain-equals v h = ground (arith, h)

pub plain-entry :
    (key value : String) → is_key key ≡ true → plain value ≡ true → plain (entry key value) ≡ true
unfolding is_key
plain-entry [] value k h = absurd cc
plain-entry (c ∷ cs) value k h =
    plain-append (c ∷ cs) (61 ∷ value) (ground (arith, k)) (plain-equals value h)

assign_lem :
    (key value : String) (l : LinkEntry) (acc : List LinkEntry)
    → plain key ≡ true
    → lacks 61 key ≡ true
    → plain value ≡ true
    → assign (l ∷ acc) (split_at 61 (entry key value)) ≡ with_field acc (set_field key value l)
assign_lem key value l acc k free v =
    ap (assign (l ∷ acc)) (split_at-lacks 61 key value free)
    ∙ ap₂ (λ a b. with_field acc (set_field a b l)) (topology_trim-plain key k)
        (topology_trim-plain value v)

-- A line that sets a field.
pub parse_line-entry :
    (key value : String) (l : LinkEntry) (acc : List LinkEntry)
    → is_key key ≡ true
    → plain value ≡ true
    → parse_line (record { links = l ∷ acc; in_link = true }) (entry key value)
      ≡ with_field acc (set_field key value l)
unfolding parse_line is_key
parse_line-entry [] value l acc k v = absurd cc
parse_line-entry (c ∷ cs) value l acc k v =
    let set = assign_lem (c ∷ cs) value l acc (ground (arith, k)) (ground (arith, k)) v in
    ground (arith, k, set)
