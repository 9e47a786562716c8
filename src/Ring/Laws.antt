-- ===== src/Ring/Laws.antt =====
-- Theorems on the ring of message descriptors, by the list of the queued messages.
use Prim.Native.Nat.{◌∣◌}
use z_ipc.Ring.{
  ring_initialize, ring_commit, ring_peek, ring_pop, same_message, ring_push, already_queued, Ring,
}
use z_ipc.Base.{
  inr, inl, ◌≢◌, ◌⊎◌, ◌||◌, refl, zero, false, ◌∙◌, ap, leb, [], true, sym, ◌∷◌, arith, suc, ltb,
  ◌++◌, ◌+◌, if_elim, update, ◌≡◌, ◌%◌, ◌<◌, length, ◌^◌, List, ◌≤◌, ℕ,
}
use z_ipc.Word.{u32, sub32}
use z_ipc.State.{Message}
use z_ipc.Ring.Window.{held-suc, held-update, contains, length-held, held}
use z_ipc.Status.{recovery_required, no_buffer, ok, transport, Status}
use mathlib.Core.Path.{ap₂}
use native.Mathlib.Nat.{mod-mod_of_dvd, mod-add-mod}
use native.Mathlib.Decide.{ℕ_discrete}

-- A ring whose depth divides the range of its positions, as a power of two does, and that holds no
-- more than its depth.
pub record IsRing (r : Ring) : Type 0 where
  pub deep : 2 ≤ r.depth
  pub depth_word : r.depth < 2 ^ 32
  pub divides : r.depth ∣ 2 ^ 32
  pub producer_word : r.producer < 2 ^ 32
  pub consumer_word : r.consumer < 2 ^ 32
  pub bounded : sub32 r.producer r.consumer ≤ r.depth

abbrev pub count : Ring → ℕ
count r = sub32 r.producer r.consumer

-- The messages that are queued, the oldest first.
abbrev pub queue : Ring → List Message
queue r = held r.entries r.depth r.consumer (count r)

-- A position may be wrapped before the entry is looked up.
wrapped : (depth position : ℕ) → depth ∣ 2 ^ 32 → u32 position % depth ≡ position % depth
wrapped depth position d = mod-mod_of_dvd depth position d

held-wrapped :
    (entries : ℕ → Message) (depth a b n : ℕ)
    → a % depth ≡ b % depth
    → held entries depth a n ≡ held entries depth b n
held-wrapped entries depth a b zero same = refl
held-wrapped entries depth a b (suc n) same =
    ap₂ (λ k xs. entries k ∷ xs) same
      (held-wrapped entries depth (a + 1) (b + 1) n
        (sym (mod-add-mod a depth 1) ∙ ap (λ k. (k + 1) % depth) same ∙ mod-add-mod b depth 1))

already_queued-contains :
    (entries : ℕ → Message) (depth : ℕ) (message : Message) (position n : ℕ)
    → depth ∣ 2 ^ 32
    → already_queued entries depth message position n
      ≡ contains message (held entries depth position n)
unfolding already_queued
already_queued-contains entries depth message position zero d = refl
already_queued-contains entries depth message position (suc n) d =
    ap (λ b. same_message (entries (position % depth)) message || b)
      (already_queued-contains entries depth message (u32 (position + 1)) n d
        ∙ ap (contains message) (
            held-wrapped entries depth (u32 (position + 1)) (position + 1) n
              (wrapped depth (position + 1) d)))

-- The three ways in which a push ends.
pub data Pushed (r : Ring) (message : Message) : Status × Ring → Type 0 where
  full : length (queue r) ≡ r.depth → Pushed r message (transport, r)
  repeated :
      length (queue r) < r.depth → contains message (queue r) ≡ true → Pushed r message (ok, r)
  queued :
      {r' : Ring}
      → length (queue r) < r.depth
      → contains message (queue r) ≡ false
      → IsRing r'
      → r'.depth ≡ r.depth
      → queue r' ≡ queue r ++ (message ∷ [])
      → Pushed r message (ok, r')

module _ (r : Ring) (z : IsRing r) where
  pub length-queue : length (queue r) ≡ count r
  length-queue = length-held r.entries r.depth r.consumer (count r)

  abbrev pub pushed : Message → Ring
  pushed message = record r {
    entries = update r.entries (r.producer % r.depth) message;
    producer = u32 (r.producer + 1);
  }

  one_more : count r < r.depth → sub32 (u32 (r.producer + 1)) r.consumer ≡ suc (count r)
  one_more low = omega (arith, z.depth_word, z.producer_word, z.consumer_word)

  behind : r.producer % r.depth ≡ (r.consumer + count r) % r.depth
  behind =
      let position : u32 (r.consumer + count r) ≡ r.producer =
        omega (arith, z.producer_word, z.consumer_word) in
      sym (ap (λ k. k % r.depth) position) ∙ wrapped r.depth (r.consumer + count r) z.divides

  pub queue-pushed :
      (message : Message) → count r < r.depth → queue (pushed message) ≡ queue r ++ (message ∷ [])
  queue-pushed message low =
      ap (held (pushed message).entries r.depth r.consumer) (one_more low)
      ∙ held-suc (pushed message).entries r.depth r.consumer (count r)
      ∙ ap₂ (λ xs x. xs ++ (x ∷ [])) before here
    where
      before : held (pushed message).entries r.depth r.consumer (count r) ≡ queue r
      before =
          ap (λ k. held (update r.entries k message) r.depth r.consumer (count r)) behind
          ∙ held-update r.entries r.depth r.consumer (count r) (r.consumer + count r) message
              (omega arith) (omega arith)

      here : (pushed message).entries ((r.consumer + count r) % r.depth) ≡ message
      here = ground (arith, behind)

  pub pushed-IsRing : (message : Message) → count r < r.depth → IsRing (pushed message)
  pushed-IsRing message low = record {
    deep = z.deep;
    depth_word = z.depth_word;
    divides = z.divides;
    producer_word = omega arith;
    consumer_word = z.consumer_word;
    bounded = omega (arith, one_more low);
  }

  -- In a ring within its bounds whose depth divides 2^32, a push onto `depth` messages is refused;
  -- one of a message that is queued already succeeds and changes nothing; any other puts the
  -- message behind the queue and keeps the ring in its bounds.
  pub ring_push_lem : (message : Message) → Pushed r message (ring_push r message)
  unfolding ring_push
  ring_push_lem message =
      let P = Pushed r message in
      let same = already_queued-contains r.entries r.depth message r.consumer (count r) z.divides in
      if_elim P (ltb r.depth 2) (λ shallow. absurd (ground (arith, z.deep)))
        λ _.
          if_elim P (leb r.depth (count r))
            (λ no_room. full (ground (arith, length-queue, z.bounded, no_room)))
            λ room.
              if_elim P (already_queued r.entries r.depth message r.consumer (count r))
                (λ again. repeated (ground (arith, length-queue, room)) (sym same ∙ again))
                λ fresh.
                  queued (ground (arith, length-queue, room)) (sym same ∙ fresh)
                    (pushed-IsRing message (ground (arith, room))) refl
                    (queue-pushed message (ground (arith, room)))

  -- In a ring within its bounds whose depth divides 2^32, a pop of an empty ring is refused; any
  -- other returns the oldest message, takes it off, and keeps the ring in its bounds.
  pub ring_pop_lem :
      (message : Message)
      → ((queue r ≡ []) × (ring_pop r message ≡ (no_buffer, message, r)))
        ⊎ ((first : Message) × (rest : List Message) × (r' : Ring) × (queue r ≡ first ∷ rest)
            × (ring_pop r message ≡ (ok, first, r'))
            × IsRing r'
            × (queue r' ≡ rest))
  unfolding ring_pop
  ring_pop_lem message = elim (ℕ_discrete r.consumer r.producer) [
    | yes empty ↦
        let none_held : count r ≡ 0 = omega (arith, z.producer_word, z.consumer_word) in
        inl (ap (held r.entries r.depth r.consumer) none_held, ground (arith, empty, z.deep))
    | no some_held ↦ inr (
      r.entries (r.consumer % r.depth),
      held r.entries r.depth (r.consumer + 1) (sub32 r.producer (u32 (r.consumer + 1))),
      record r { consumer = u32 (r.consumer + 1) },
      ap (held r.entries r.depth r.consumer) (fewer some_held),
      ground (arith, some_held, z.deep),
      record {
        deep = z.deep;
        depth_word = z.depth_word;
        divides = z.divides;
        producer_word = z.producer_word;
        consumer_word = omega arith;
        bounded = omega (arith, fewer some_held, z.bounded);
      },
      held-wrapped r.entries r.depth (u32 (r.consumer + 1)) (r.consumer + 1)
          (sub32 r.producer (u32 (r.consumer + 1))) (wrapped r.depth (r.consumer + 1) z.divides),
    )
  ]
    where
      fewer : r.consumer ≢ r.producer → count r ≡ suc (sub32 r.producer (u32 (r.consumer + 1)))
      fewer some_held = omega (arith, z.producer_word, z.consumer_word)

  -- In a ring within its bounds whose depth divides 2^32, a peek that finds a message and the
  -- commit of the position that it gave do what a pop does; a second commit of that position is
  -- refused.
  pub ring_commit-peek :
      (message first : Message) (before position : ℕ)
      → ring_peek r message before ≡ (ok, first, position)
      → (ring_pop r message ≡ (ok, first, (ring_commit r position).1))
        × ((ring_commit r position).0 ≡ ok)
        × (ring_commit (ring_commit r position).1 position
            ≡ (recovery_required, (ring_commit r position).1))
  unfolding ring_peek ring_commit ring_pop
  ring_commit-peek message first before position seen =
      (ground (arith, z.deep), ground (arith, z.deep), ground (arith, z.deep, z.consumer_word))

-- Initialization with a 32-bit depth of at least 2 that divides 2^32 gives an empty ring within
-- its bounds.
pub ring_initialize-IsRing :
    (r : Ring) (depth : ℕ)
    → 2 ≤ depth
    → depth < 2 ^ 32
    → depth ∣ 2 ^ 32
    → ((ring_initialize r depth).0 ≡ ok)
      × IsRing (ring_initialize r depth).1
      × (queue (ring_initialize r depth).1 ≡ [])
unfolding ring_initialize
ring_initialize-IsRing r depth deep word divides =
    let shallow : ltb depth 2 ≡ false = ground arith in
    rw shallow (
      refl,
      record {
        deep = deep;
        depth_word = word;
        divides = divides;
        producer_word = omega arith;
        consumer_word = omega arith;
        bounded = omega arith;
      },
      refl,
    )
