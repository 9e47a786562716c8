-- ===== src/Pool/Layout.antt =====
-- Theorems on where an accepted pool lies in memory.
use native.Mathlib.Nat.{
  zero-mod, add-mod, mul_assoc, div-add-mod', mod-lt, mul-mod_left, suc-mul, div-lt_iff_lt-mul,
  mul-le-mul_right, le-div_iff_mul-le, mod-eq_of_lt,
}
use z_ipc.Base.{
  refl, sym, if_elim, suc, inr, inl, Bool-cases, ◌⊎◌, ℕ, true, false, Option, none, some, ltb, ◌==◌,
  ◌&&◌, ◌||◌, not, ◌+◌, ◌-◌, ◌*◌, ◌%◌, ◌/◌, ◌≤◌, ◌<◌, ◌≡◌, arith, ap, ◌∙◌, ◌^◌,
}
use z_ipc.Word.{u32, u32_max, u64, u64_max}
use z_ipc.Status.{Status, is_ok}
use z_ipc.Platform.{Platform}
use z_ipc.Pool.{
  guard_pages, strict_ownership, memory_address_aligned, PoolConfig, Abi, payload_memory_of,
  align_up_checked, is_power_of_two, memory_range_fits, pool_ranges_valid,
}
use z_ipc.Pool.Config.{pages_fit, normalize_config, check_stride, check_plain, plain_stride}
use z_ipc.Pool.Size.{pool_required_control_size, pool_required_payload_size, payload_size_at}
use z_ipc.Pool.Format.{
  apply_guard_pages, format_at, cleared_memory, formatted_memory, ControlMemory, pool_format,
}
use mathlib.Core.Path.{ap₂, subst}

-- The smallest multiple of `alignment` that is at least `value`.
pub record IsLeastMultiple (value alignment aligned : ℕ) : Type 0 where
  pub multiple : aligned % alignment ≡ 0
  pub above : value ≤ aligned
  pub least : (other : ℕ) → value ≤ other → other % alignment ≡ 0 → aligned ≤ other

-- The quotient by which the smallest multiple is found.
least_multiple :
    (value alignment : ℕ)
    → 0 < alignment
    → let v = value + alignment - 1 in IsLeastMultiple value alignment (v - v % alignment)
least_multiple value alignment pos =
    let v = value + alignment - 1 in
    let whole = div-add-mod' v alignment in
    let low = mod-lt v pos in
    let is : v - v % alignment ≡ v / alignment * alignment = omega (arith, whole) in
    record {
      multiple = ap (λ n. n % alignment) is ∙ mul-mod_left (v / alignment) alignment;
      above = omega (arith, low);
      least = λ other high even.
          let k = other / alignment in
          let other_whole = div-add-mod' other alignment in
          let more : suc k * alignment ≡ k * alignment + alignment = suc-mul k alignment in
          let below : v < suc k * alignment = omega (arith, other_whole, even, more, high, pos) in
          let fewer : v / alignment < suc k = (div-lt_iff_lt-mul pos).1 below in
          let scaled : v / alignment * alignment ≤ k * alignment =
            mul-le-mul_right alignment (omega (arith, fewer)) in
          omega (arith, is, scaled, other_whole, even);
    }

-- With a 64-bit alignment, a size is rounded up to the smallest multiple of a power of two, no more
-- than a 64-bit word; the rounding is refused only if the alignment is no power of two or the sum
-- does not fit a word.
pub align_up_checked_lem :
    (value alignment : ℕ)
    → alignment < 2 ^ 64
    → ((aligned : ℕ)
        → align_up_checked value alignment ≡ some aligned
        → IsLeastMultiple value alignment aligned × (aligned < 2 ^ 64))
      × (align_up_checked value alignment ≡ none
          → (is_power_of_two alignment ≡ false) ⊎ (2 ^ 64 ≤ value + (alignment - 1)))
unfolding align_up_checked is_power_of_two
align_up_checked_lem value alignment word = (
  λ aligned run.
      let pos : 0 < alignment = ground (arith, run) in
      let is : value + alignment - 1 - (value + alignment - 1) % alignment ≡ aligned =
        ground (arith, run) in
      let small : value + alignment - 1 < 2 ^ 64 = ground (arith, run) in
      (
        subst (IsLeastMultiple value alignment) is (least_multiple value alignment pos),
        omega (arith, is, small),
      ),
  λ run. elim (Bool-cases (is_power_of_two alignment)) [
    | inl power ↦ inr (ground (arith, run, power))
    | inr other ↦ inl other
  ],
)

-- What the tests of a configuration say of the stride.
record Strided (c : PoolConfig) (stride : ℕ) : Type 0 where
  covers : c.slot_capacity ≤ stride
  multiple : stride % c.payload_alignment ≡ 0

check_stride-Strided :
    (c : PoolConfig) (stride : ℕ)
    → is_ok (check_stride c stride).0 ≡ true
    → Strided c (check_stride c stride).1
unfolding check_stride
check_stride-Strided c stride good = record { covers = ground arith; multiple = ground arith }

check_plain-Strided :
    (c : PoolConfig) (x : Option ℕ)
    → is_ok (check_plain c x).0 ≡ true
    → Strided c (check_plain c x).1
check_plain-Strided c none good = absurd cc
check_plain-Strided c (some stride) good = check_stride-Strided c stride good

normalize_config-Strided :
    (abi : Abi) (c : PoolConfig)
    → is_ok (normalize_config abi c).0 ≡ true
    → Strided c (normalize_config abi c).1
unfolding normalize_config
normalize_config-Strided abi c =
    let m = payload_memory_of c in
    let guarded = u32 (c.slot_capacity + u32 m.page_size) in
    let P : Status × ℕ → Type 0 = λ r. is_ok r.0 ≡ true → Strided c r.1 in
    if_elim P
      ((c.slot_count == 0)
        || (c.slot_capacity == 0)
        || not (is_power_of_two c.payload_alignment)
        || ltb 3 c.flags)
      (λ bad good. absurd cc)
      λ h1.
        if_elim P
          (not (c.control_offset % abi.header_align == 0)
            || not (memory_address_aligned c.control_memory c.control_offset abi.header_align)
            || not (c.payload_offset % c.payload_alignment == 0)
            || not (memory_address_aligned m c.payload_offset c.payload_alignment))
          (λ bad good. absurd cc)
          λ h2.
            if_elim P (strict_ownership c.flags && not (pages_fit c)) (λ bad good. absurd cc)
              λ h3.
                if_elim P (guard_pages c.flags)
                  (λ guarding.
                    if_elim P (not (pages_fit c) || ltb (u32_max - u32 m.page_size) c.slot_capacity)
                      (λ bad good. absurd cc)
                      λ h4.
                        if_elim P (not (c.slot_stride == 0) && not (c.slot_stride == guarded))
                          (λ bad good. absurd cc) λ h5. check_stride-Strided c guarded)
                  λ plain. check_plain-Strided c (plain_stride c)

-- What a format that succeeded has found.
pub record Accepted (abi : Abi) (c : PoolConfig) : Type 0 where
  pub config : is_ok (normalize_config abi c).0 ≡ true
  pub control_size : (pool_required_control_size abi c.slot_count == 0) ≡ false
  pub payload_size :
      (pool_required_payload_size c.slot_count c.slot_capacity
          (normalize_config abi c).1
          c.payload_alignment
        == 0)
      ≡ false
  pub ranges :
      pool_ranges_valid c (pool_required_control_size abi c.slot_count) (
        pool_required_payload_size c.slot_count c.slot_capacity
          (normalize_config abi c).1
          c.payload_alignment)
      ≡ true

pub pool_format-Accepted :
    (abi : Abi) (p : Platform) (c : PoolConfig) (memory : ControlMemory) (calls : ℕ)
    → is_ok (pool_format abi p c memory calls).0 ≡ true
    → Accepted abi c
unfolding pool_format
pool_format-Accepted abi p c memory calls good = record {
  config = ground arith;
  control_size = ground arith;
  payload_size = ground arith;
  ranges = ground arith;
}

-- The payload of `count` strides.
payload_size_at_lem :
    (count capacity alignment stride : ℕ)
    → 0 < stride
    → (payload_size_at count capacity alignment stride == 0) ≡ false
    → (payload_size_at count capacity alignment stride ≡ count * stride) × (count * stride < 2 ^ 64)
unfolding payload_size_at
payload_size_at_lem count capacity alignment stride pos some_size =
    let few : count ≤ u64_max / stride = ground (arith, some_size) in
    let small : count * stride ≤ u64_max = (le-div_iff_mul-le pos).0 few in
    let plain : u64 (count * stride) ≡ count * stride = mod-eq_of_lt (omega (arith, small)) in
    (ground (arith, some_size, plain), omega (arith, small))

required_at :
    (count capacity stride alignment : ℕ)
    → 0 < stride
    → (pool_required_payload_size count capacity stride alignment == 0) ≡ false
    → pool_required_payload_size count capacity stride alignment
      ≡ payload_size_at count capacity alignment stride
unfolding pool_required_payload_size
required_at count capacity stride alignment pos some_size = ground (arith, pos, some_size)

in_memory :
    (c : PoolConfig) (control_required payload_required : ℕ)
    → pool_ranges_valid c control_required payload_required ≡ true
    → c.payload_offset + payload_required ≤ (payload_memory_of c).size
unfolding pool_ranges_valid memory_range_fits
in_memory c control_required payload_required valid = ground (arith, valid)

-- The control range lies in its memory too, and in one memory the ranges are apart.
pub control_in_memory :
    (c : PoolConfig) (control_required payload_required : ℕ)
    → pool_ranges_valid c control_required payload_required ≡ true
    → c.control_offset + control_required ≤ c.control_memory.size
unfolding pool_ranges_valid memory_range_fits
control_in_memory c control_required payload_required valid = ground (arith, valid)

ranges_apart :
    (c : PoolConfig) (control_required payload_required : ℕ)
    → pool_ranges_valid c control_required payload_required ≡ true
    → c.control_memory.address ≡ (payload_memory_of c).address
    → c.control_offset + control_required < 2 ^ 64
    → c.payload_offset + payload_required < 2 ^ 64
    → (c.control_offset + control_required ≤ c.payload_offset)
      ⊎ (c.payload_offset + payload_required ≤ c.control_offset)
unfolding pool_ranges_valid
ranges_apart c control_required payload_required valid same small1 small2 =
    let end1 : u64 (c.control_offset + control_required) ≡ c.control_offset + control_required =
      mod-eq_of_lt small1 in
    let end2 : u64 (c.payload_offset + payload_required) ≡ c.payload_offset + payload_required =
      mod-eq_of_lt small2 in
    ground (arith, valid, same, end1, end2)

-- What the first tests of a configuration say.
normalize_config-needs :
    (abi : Abi) (c : PoolConfig)
    → is_ok (normalize_config abi c).0 ≡ true
    → (0 < c.slot_capacity) × (c.payload_offset % c.payload_alignment ≡ 0)
unfolding normalize_config
normalize_config-needs abi c good = (ground (arith, good), ground (arith, good))

-- A multiple of a multiple, at a multiple.
multiple_at :
    (offset stride alignment i : ℕ)
    → offset % alignment ≡ 0
    → stride % alignment ≡ 0
    → (offset + i * stride) % alignment ≡ 0
multiple_at offset stride alignment i first step =
    let whole : stride / alignment * alignment ≡ stride =
      omega (arith, div-add-mod' stride alignment, step) in
    let scaled : i * stride ≡ i * (stride / alignment) * alignment =
      ap (λ n. i * n) (sym whole) ∙ sym (mul_assoc i (stride / alignment) alignment) in
    let none_left : (i * stride) % alignment ≡ 0 =
      ap (λ n. n % alignment) scaled ∙ mul-mod_left (i * (stride / alignment)) alignment in
    add-mod offset (i * stride) alignment
    ∙ ap₂ (λ x y. (x + y) % alignment) first none_left
    ∙ zero-mod alignment

-- The stride is the header's.
stride_formatted :
    (abi : Abi) (c : PoolConfig) (stride calls : ℕ) (x : Option ℕ)
    → is_ok (format_at abi c stride calls x).0 ≡ true
    → (format_at abi c stride calls x).1.header.slot_stride ≡ stride
unfolding formatted_memory cleared_memory
stride_formatted abi c stride calls none good = refl
stride_formatted abi c stride calls (some controls_offset) good = ground arith

module _ (abi : Abi) (p : Platform) (c : PoolConfig) (memory : ControlMemory) (calls : ℕ) where
  abbrev stride_of : ℕ
  stride_of = (pool_format abi p c memory calls).1.header.slot_stride

  -- Where the slots and the control memory of a pool lie.
  pub record LaidOut (stride : ℕ) : Type 0 where
    pub covers : c.slot_capacity ≤ stride
    pub apart : (i j : ℕ) → i < j → i * stride + c.slot_capacity ≤ j * stride
    pub inside :
        (i : ℕ)
        → i < c.slot_count
        → c.payload_offset + (i * stride + c.slot_capacity) ≤ (payload_memory_of c).size
    pub aligned : (i : ℕ) → (c.payload_offset + i * stride) % c.payload_alignment ≡ 0
    pub separate :
        c.control_memory.address ≡ (payload_memory_of c).address
        → (c.control_offset + pool_required_control_size abi c.slot_count ≤ c.payload_offset)
          ⊎ (c.payload_offset + c.slot_count * stride ≤ c.control_offset)

  abbrev size_of : ℕ
  size_of =
      pool_required_payload_size c.slot_count c.slot_capacity (normalize_config abi c).1
        c.payload_alignment

  -- A format that succeeds reaches its last step.
  pub formats_at :
      is_ok (pool_format abi p c memory calls).0 ≡ true
      → (pool_format abi p c memory calls
          ≡ format_at abi c
              (normalize_config abi c).1
              (apply_guard_pages p c (normalize_config abi c).1 calls).1
              (align_up_checked abi.header_size abi.control_align))
        × (is_ok (apply_guard_pages p c (normalize_config abi c).1 calls).0 ≡ true)
  unfolding pool_format
  formats_at =
      let guarded = apply_guard_pages p c (normalize_config abi c).1 calls in
      let at =
        format_at abi c (normalize_config abi c).1 guarded.1
          (align_up_checked abi.header_size abi.control_align) in
      let P : Status × ControlMemory × ℕ → Type 0 =
        λ r. is_ok r.0 ≡ true → (r ≡ at) × (is_ok guarded.0 ≡ true) in
      if_elim P (not (is_ok (normalize_config abi c).0))
        (λ bad good. absurd (ground (arith, bad, good)))
        λ h1.
          if_elim P
            ((pool_required_control_size abi c.slot_count == 0)
              || (size_of == 0)
              || not (pool_ranges_valid c (pool_required_control_size abi c.slot_count) size_of))
            (λ bad good. absurd cc)
            λ h2.
              if_elim P (not (is_ok guarded.0)) (λ bad good. absurd (ground (arith, bad, good)))
                λ h3 good. (refl, ground (arith, h3))

  pub stride_is :
      is_ok (pool_format abi p c memory calls).0 ≡ true → stride_of ≡ (normalize_config abi c).1
  stride_is good =
      let at = (formats_at good).0 in
      ap (λ (r : Status × ControlMemory × ℕ). r.1.header.slot_stride) at
      ∙ stride_formatted abi c (normalize_config abi c).1
          (apply_guard_pages p c (normalize_config abi c).1 calls).1
          (align_up_checked abi.header_size abi.control_align)
          (ap (λ (r : Status × ControlMemory × ℕ). is_ok r.0) (sym at) ∙ good)

  laid_out :
      Accepted abi c
      → c.control_memory.size < 2 ^ 64
      → (payload_memory_of c).size < 2 ^ 64
      → LaidOut (normalize_config abi c).1
  laid_out a word1 word2 =
      let stride = (normalize_config abi c).1 in
      let s = normalize_config-Strided abi c a.config in
      let needs = normalize_config-needs abi c a.config in
      let pos : 0 < stride = omega (arith, s.covers, needs.0) in
      let at =
        required_at c.slot_count c.slot_capacity stride c.payload_alignment pos a.payload_size in
      let sized =
        payload_size_at_lem c.slot_count c.slot_capacity c.payload_alignment stride pos
          (ap (λ n. n == 0) (sym at) ∙ a.payload_size) in
      let total : size_of ≡ c.slot_count * stride = at ∙ sized.0 in
      let fits = in_memory c (pool_required_control_size abi c.slot_count) size_of a.ranges in
      record {
        covers = s.covers;
        apart = λ i j before.
            let more : suc i * stride ≤ j * stride = mul-le-mul_right stride before in
            let next : suc i * stride ≡ i * stride + stride = suc-mul i stride in
            omega (arith, more, next, s.covers);
        inside = λ i low.
            let more : suc i * stride ≤ c.slot_count * stride = mul-le-mul_right stride low in
            let next : suc i * stride ≡ i * stride + stride = suc-mul i stride in
            omega (arith, more, next, s.covers, total, fits);
        aligned = λ i. multiple_at c.payload_offset stride c.payload_alignment i needs.1 s.multiple;
        separate = λ same.
            let inner =
              control_in_memory c (pool_required_control_size abi c.slot_count) size_of a.ranges in
            subst
              (λ n.
                (c.control_offset + pool_required_control_size abi c.slot_count ≤ c.payload_offset)
                ⊎ (c.payload_offset + n ≤ c.control_offset))
              total
              (ranges_apart c (pool_required_control_size abi c.slot_count) size_of a.ranges same
                (omega (arith, inner, word1)) (omega (arith, fits, word2)));
      }

  -- A format that succeeds, in memories of 64-bit sizes, lays the slots out one behind the other
  -- in steps of the header's stride, none reaching into the next, all inside the payload memory and
  -- at its alignment, and apart from the control memory if both are in one memory.
  pub pool_format_lays_out :
      is_ok (pool_format abi p c memory calls).0 ≡ true
      → c.control_memory.size < 2 ^ 64
      → (payload_memory_of c).size < 2 ^ 64
      → LaidOut stride_of
  pool_format_lays_out good word1 word2 =
      let a = pool_format-Accepted abi p c memory calls good in
      subst LaidOut (sym (stride_is good)) (laid_out a word1 word2)
