-- ===== src/Topology/Numerals.antt =====
-- Decimal numerals, and what topology_parse_u64 reads in them.
use z_ipc.Base.{
  sym, ap, ◌∙◌, none, ◌*◌, ltb, refl, if◌then◌else◌, if_elim, ◌==◌, ◌%◌, ◌^◌, some, arith, ◌&&◌,
  ◌/◌, ◌<◌, ◌≡◌, ◌≤◌, not, ◌+◌, ℕ, zero, suc, Bool, true, false, [], ◌∷◌,
}
use z_ipc.Topology.Text.{
  up_to, String, blank, digit, digits, number, skip_spaces, signed, strtoull_from, strtoull, whole,
  topology_parse_u64, parse_up_to, topology_trim, trim_front, trim_back, clamp,
}

-- The decimal digits of `n`, in front of `rest`, with fuel for the digits.
unfoldable pub decimal : ℕ → ℕ → String → String
decimal zero n rest = (48 + n) ∷ rest
decimal (suc fuel) n rest =
    let longer = decimal fuel (n / 10) ((48 + n % 10) ∷ rest) in
    if ltb n 10 then (48 + n) ∷ rest else longer

unfoldable pub numeral : ℕ → String
numeral n = decimal n n []

-- No character is blank or NUL.
unfoldable pub plain : String → Bool
plain [] = true
plain (c ∷ cs) = not (blank c) && not (c == 0) && plain cs

plain-decimal :
    (fuel n : ℕ) (rest : String) → n ≤ fuel → plain rest ≡ true → plain (decimal fuel n rest) ≡ true
unfolding decimal plain
plain-decimal zero n rest small h = ground (arith, small, h)
plain-decimal (suc fuel) n rest small h =
    if_elim (λ s. plain s ≡ true) (ltb n 10) (λ one. ground (arith, one, h))
      λ more.
        plain-decimal fuel (n / 10) ((48 + n % 10) ∷ rest) (ground (arith, small, more))
          (ground (arith, h))

pub plain-numeral : (n : ℕ) → plain (numeral n) ≡ true
unfolding numeral plain
plain-numeral n = plain-decimal n n [] (omega arith) refl

digits-decimal :
    (fuel n : ℕ) (rest : String) → n ≤ fuel → digits 10 0 (decimal fuel n rest) ≡ digits 10 n rest
unfolding decimal digits digit
digits-decimal zero n rest small = let none : n ≡ 0 = omega (arith, small) in ground (arith, none)
digits-decimal (suc fuel) n rest small =
    if_elim (λ s. digits 10 0 s ≡ digits 10 n rest) (ltb n 10) (λ one. ground (arith, one))
      λ more.
        let whole_of : n / 10 * 10 + n % 10 ≡ n = omega arith in
        let low : n % 10 < 10 = omega arith in
        digits-decimal fuel (n / 10) ((48 + n % 10) ∷ rest) (ground (arith, small, more))
        ∙ ground (arith, whole_of, low)

-- A numeral starts with a digit, and only that of 0 with a zero.
record Starts (n : ℕ) (s : String) : Type 0 where
  first : ℕ
  rest : String
  is : s ≡ first ∷ rest
  low : 48 ≤ first
  high : first ≤ 57
  nonzero : 0 < n → 48 < first

decimal-Starts : (fuel n : ℕ) (rest : String) → n ≤ fuel → Starts n (decimal fuel n rest)
unfolding decimal
decimal-Starts zero n rest small = record {
  first = 48 + n;
  rest = rest;
  is = refl;
  low = omega arith;
  high = omega (arith, small);
  nonzero = λ pos. omega (arith, pos);
}
decimal-Starts (suc fuel) n rest small =
    if_elim (Starts n) (ltb n 10)
      (λ one. record {
        first = 48 + n;
        rest = rest;
        is = refl;
        low = omega arith;
        high = ground (arith, one);
        nonzero = λ pos. omega (arith, pos);
      })
      λ more.
        let longer =
          decimal-Starts fuel (n / 10) ((48 + n % 10) ∷ rest) (ground (arith, small, more)) in
        record {
          first = longer.first;
          rest = longer.rest;
          is = longer.is;
          low = longer.low;
          high = longer.high;
          nonzero = λ pos. longer.nonzero (ground (arith, more));
        }

number-decimal :
    (first : ℕ) (rest : String)
    → 48 < first
    → first ≤ 57
    → number (first ∷ rest) ≡ some (digits 10 0 (first ∷ rest))
unfolding number digit
number-decimal first [] low high = ground arith
number-decimal first (d ∷ []) low high = ground arith
number-decimal first (d ∷ e ∷ rest) low high = ground arith

strtoull-digit :
    (first : ℕ) (rest : String)
    → 48 ≤ first
    → first ≤ 57
    → strtoull (first ∷ rest) ≡ signed false (number (first ∷ rest))
unfolding strtoull strtoull_from skip_spaces
strtoull-digit first rest low high = ground arith

number-Starts :
    (n : ℕ) (s : String) → 0 < n → Starts n s → digits 10 0 s ≡ (n, []) → number s ≡ some (n, [])
number-Starts n s pos st d =
    ap number st.is
    ∙ number-decimal st.first st.rest (st.nonzero pos) st.high
    ∙ ap some (ap (digits 10 0) (sym st.is) ∙ d)

digits-numeral : (n : ℕ) → digits 10 0 (numeral n) ≡ (n, [])
unfolding numeral digits
digits-numeral n = digits-decimal n n [] (omega arith)

numeral-Starts : (n : ℕ) → Starts n (numeral n)
unfolding numeral
numeral-Starts n = decimal-Starts n n [] (omega arith)

number-zero : number (numeral 0) ≡ some (0, [])
unfolding numeral number digits digit decimal
number-zero = refl

number-numeral : (n : ℕ) → number (numeral n) ≡ some (n, [])
number-numeral zero = number-zero
number-numeral (suc m) =
    number-Starts (suc m) (numeral (suc m)) (omega arith) (numeral-Starts (suc m))
      (digits-numeral (suc m))

strtoull-numeral : (n : ℕ) → strtoull (numeral n) ≡ some (clamp false n, [])
strtoull-numeral n =
    let st = numeral-Starts n in
    ap strtoull st.is
    ∙ strtoull-digit st.first st.rest st.low st.high
    ∙ ap (λ s. signed false (number s)) (sym st.is)
    ∙ ap (signed false) (number-numeral n)

whole-end : (n : ℕ) → n < 2 ^ 64 → whole (some (clamp false n, [])) ≡ some n
unfolding topology_trim trim_front trim_back
whole-end n word = ground (arith, word)

pub parse_u64-numeral : (n : ℕ) → n < 2 ^ 64 → topology_parse_u64 (numeral n) ≡ some n
unfolding topology_parse_u64
parse_u64-numeral n word = ap whole (strtoull-numeral n) ∙ whole-end n word

-- A numeral is read as its number, or refused if that is out of range.
pub parse_up_to-numeral :
    (most n : ℕ) → n < 2 ^ 64 → parse_up_to most (numeral n) ≡ (if ltb most n then none else some n)
unfolding parse_up_to
parse_up_to-numeral most n word = ap (up_to most) (parse_u64-numeral n word)
