-- ===== src/Topology/Lines.antt =====
-- The fields of a rendered link, one line each.
use z_ipc.Base.{
  inr, sym, refl, inl, ◌^◌, arith, ◌∙◌, ◌<◌, leb, some, ltb, ap, none, ◌⊎◌, ◌==◌, ◌≡◌,
  if◌then◌else◌, Option, ℕ, Bool, true, ◌∷◌, List,
}
use z_ipc.Topology.Words
use z_ipc.Topology.Render.{entry, is_key, parse_line-entry, plain-entry, topology_trim-plain}
use z_ipc.Topology.Parser.{
  with_name, parse_line, with_number, with_field, and_then, parse_lines, Parse, set_field,
}
use z_ipc.Topology.Text.{parse_up_to, String}
use z_ipc.Topology.{same_name, LinkEntry}
use z_ipc.Topology.Numerals.{parse_up_to-numeral, plain-numeral, numeral, plain}
use z_ipc.Word.{u32_max, u64_max}
use mathlib.Core.Path.{subst}

pub set_field-link_id :
    (value : String) (l : LinkEntry)
    → set_field Words.id value l
      ≡ with_number (λ n. record l { link_id = n }) (parse_up_to u64_max value)
unfolding set_field same_name
set_field-link_id value l = refl

pub set_field-local_component :
    (value : String) (l : LinkEntry)
    → set_field Words.local value l
      ≡ with_number (λ n. record l { local_component = n }) (parse_up_to 65535 value)
unfolding set_field same_name
set_field-local_component value l = refl

pub set_field-remote_component :
    (value : String) (l : LinkEntry)
    → set_field Words.remote value l
      ≡ with_number (λ n. record l { remote_component = n }) (parse_up_to 65535 value)
unfolding set_field same_name
set_field-remote_component value l = refl

pub set_field-local_epoch :
    (value : String) (l : LinkEntry)
    → set_field Words.local_epoch value l
      ≡ with_number (λ n. record l { local_epoch = n }) (parse_up_to u32_max value)
unfolding set_field same_name
set_field-local_epoch value l = refl

pub set_field-hop_limit :
    (value : String) (l : LinkEntry)
    → set_field Words.hop_limit value l
      ≡ with_number (λ n. record l { hop_limit = n }) (parse_up_to u32_max value)
unfolding set_field same_name
set_field-hop_limit value l = refl

pub set_field-default_deadline_ns :
    (value : String) (l : LinkEntry)
    → set_field Words.default_deadline_ns value l
      ≡ with_number (λ n. record l { default_deadline_ns = n }) (parse_up_to u64_max value)
unfolding set_field same_name
set_field-default_deadline_ns value l = refl

pub set_field-timeout_ticks :
    (value : String) (l : LinkEntry)
    → set_field Words.timeout_ticks value l
      ≡ with_number (λ n. record l { timeout_ticks = n }) (parse_up_to u32_max value)
unfolding set_field same_name
set_field-timeout_ticks value l = refl

pub set_field-pool_name :
    (value : String) (l : LinkEntry)
    → set_field Words.pool value l ≡ with_name (λ name. record l { pool_name = name }) value
unfolding set_field same_name
set_field-pool_name value l = refl

pub set_field-transport_name :
    (value : String) (l : LinkEntry)
    → set_field Words.transport value l
      ≡ with_name (λ name. record l { transport_name = name }) value
unfolding set_field same_name
set_field-transport_name value l = refl

-- The word of a role that is not unspecified.
abbrev pub role_word : ℕ → String
role_word role = if role == 1 then Words.producer else Words.consumer

pub set_field-role :
    (role : ℕ) (l : LinkEntry)
    → (role ≡ 1) ⊎ (role ≡ 2)
    → set_field Words.role (role_word role) l ≡ some (record l { role = role })
unfolding set_field same_name
set_field-role role l (inl e) =
    subst (λ r. set_field Words.role (role_word r) l ≡ some (record l { role = r })) (sym e) refl
set_field-role role l (inr e) =
    subst (λ r. set_field Words.role (role_word r) l ≡ some (record l { role = r })) (sym e) refl

abbrev pub when : Bool → Option Parse → Option Parse
when b x = if b then x else none

abbrev pub in_link_at : LinkEntry → List LinkEntry → Parse
in_link_at l acc = record { links = l ∷ acc; in_link = true }

module _ (rest : List String) (acc : List LinkEntry) where
  read_entry :
      (key value : String) (l : LinkEntry)
      → is_key key ≡ true
      → plain value ≡ true
      → parse_lines (entry key value ∷ rest) (in_link_at l acc)
        ≡ and_then (with_field acc (set_field key value l)) (parse_lines rest)
  unfolding parse_lines
  read_entry key value l k v =
      ap (λ line. and_then (parse_line (in_link_at l acc) line) (parse_lines rest))
        (topology_trim-plain (entry key value) (plain-entry key value k v))
      ∙ ap (λ r. and_then r (parse_lines rest)) (parse_line-entry key value l acc k v)

  number_step :
      (set : ℕ → LinkEntry) (most n : ℕ)
      → and_then
          (with_field acc (with_number set (if ltb most n then none else some n)))
          (parse_lines rest)
        ≡ when (leb n most) (parse_lines rest (in_link_at (set n) acc))
  number_step set most n = ground arith

  -- A line of a number is read if it is in range, and else refused.
  pub read_number :
      (key : String) (most n : ℕ) (set : ℕ → LinkEntry) (l : LinkEntry)
      → is_key key ≡ true
      → ((value : String) → set_field key value l ≡ with_number set (parse_up_to most value))
      → n < 2 ^ 64
      → parse_lines (entry key (numeral n) ∷ rest) (in_link_at l acc)
        ≡ when (leb n most) (parse_lines rest (in_link_at (set n) acc))
  read_number key most n set l k is word =
      read_entry key (numeral n) l k (plain-numeral n)
      ∙ ap (λ x. and_then (with_field acc x) (parse_lines rest))
          (is (numeral n) ∙ ap (with_number set) (parse_up_to-numeral most n word))
      ∙ number_step set most n

  -- A line of a word that sets a field.
  pub read_word :
      (key value : String) (l l1 : LinkEntry)
      → is_key key ≡ true
      → plain value ≡ true
      → set_field key value l ≡ some l1
      → parse_lines (entry key value ∷ rest) (in_link_at l acc)
        ≡ parse_lines rest (in_link_at l1 acc)
  read_word key value l l1 k v is =
      read_entry key value l k v ∙ ap (λ x. and_then (with_field acc x) (parse_lines rest)) is
