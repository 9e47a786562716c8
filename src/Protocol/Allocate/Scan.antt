-- ===== src/Protocol/Allocate/Scan.antt =====
-- The loop of buffer_allocate_internal over the slots.
use z_ipc.Protocol.Allocate.{
  stuck, Attempt, allocate_scan, Request, skipped, returned, try_slot, fresh_slot, name_allocation,
}
use z_ipc.Protocol.Allocate.Slots.{name_allocation-returns, name_allocation-named, name_lands}
use z_ipc.Identity.Laws.{generate_buffer_id_total, IsQuiet}
use z_ipc.State.{buffer_invalid, visited_zero, Buffer, World, Slot}
use z_ipc.Base.{
  ◌≢◌, inr, inl, Bool-cases, ◌≤◌, zero, suc, ◌%◌, ◌+◌, ◌<◌, refl, some, arith, false, ◌==◌, ◌&&◌,
  true, ◌≡◌, Bool, ℕ,
}
use z_ipc.Platform.{tick, now_ns, Platform}
use z_ipc.Status.{no_buffer, free, claiming, is_ok, Status, owned, is_free, component_id_valid}
use z_ipc.Protocol.Common.{count_allocation_failure, next_generation}
use z_ipc.VisitedSet.{visited_set_add}
use z_ipc.Handle.{buffer_id_component, buffer_id_valid, ClaimKind, claim_token_make}
use z_ipc.Identity.{generate_buffer_id}
use z_ipc.Word.{u32}
use native.Mathlib.Decide.{ℕ_discrete}
use mathlib.Core.Path.{subst₂, subst}
use z_ipc.Protocol.Frame.{Frame}

-- A slot that an allocation may take.
abbrev pub takeable : Slot → Bool
takeable s = is_free s.state && (s.claim_token == 0)

-- What a successful allocation makes of the slot `old`.
pub record Granted (q : Request) (epoch : ℕ) (old s : Slot) : Type 0 where
  pub state : s.state ≡ owned
  pub generation : s.generation ≡ next_generation old.generation
  pub owner_id : s.owner_id ≡ q.allocator
  pub owner_epoch : s.owner_epoch ≡ epoch
  pub claim_token : s.claim_token ≡ 0
  pub hop_count : s.hop_count ≡ 1
  pub visited : s.visited ≡ visited_set_add visited_zero q.allocator
  pub region : s.region ≡ record { offset = q.offset; length = q.length }
  pub parent_id : s.identity.parent_id ≡ q.parent_id
  pub named :
      (buffer_id_valid s.identity.id ≡ true) × (buffer_id_component s.identity.id ≡ q.allocator)

-- An attempt that ended the scan: its slot could be taken; with ZIPC_OK it was granted, else it is
-- free again. All else in the pool but its counters is as before.
pub record Taken (q : Request) (epoch : ℕ) (w : World) (slot_id : ℕ) (status : Status)
    (view : Buffer) (w' : World) : Type 0 where
  pub could : takeable (w.pool.controls slot_id) ≡ true
  pub frame : Frame w slot_id w'
  pub granted :
      is_ok status ≡ true → Granted q epoch (w.pool.controls slot_id) (w'.pool.controls slot_id)
  pub failed :
      is_ok status ≡ false
      → ((w'.pool.controls slot_id).state ≡ free)
        × ((w'.pool.controls slot_id).claim_token ≡ 0)
        × (view ≡ buffer_invalid)

-- The slot that the scan looks at after `k` others.
abbrev pub index : World → ℕ → ℕ → ℕ
index w start k = u32 (start + k) % w.pool.header.slot_count

-- The slots from the `from`-th to before the `to`-th of the scan cannot be taken.
abbrev pub NoneBetween : World → ℕ → ℕ → ℕ → Type 0
NoneBetween w start from to =
    (k : ℕ) → from ≤ k → k < to → takeable (w.pool.controls (index w start k)) ≡ false

module _ (p : Platform) (q : Request) (epoch : ℕ)
    (valid : component_id_valid q.allocator ≡ true) where
  try_slot_skips :
      (slot_id : ℕ) (buffer : Buffer) (w : World)
      → takeable (w.pool.controls slot_id) ≡ false
      → try_slot p q epoch slot_id buffer w ≡ skipped w
  unfolding try_slot
  try_slot_skips slot_id buffer w h = ground arith

  abbrev claimed : ℕ → World → Slot
  claimed slot_id w = fresh_slot q epoch (now_ns p w) (record (w.pool.controls slot_id) {
    state = claiming;
    claim_token = claim_token_make ClaimKind.allocate q.allocator epoch;
  })

  try_slot_takes :
      (slot_id : ℕ) (buffer : Buffer) (w : World)
      → takeable (w.pool.controls slot_id) ≡ true
      → try_slot p q epoch slot_id buffer w
        ≡ name_allocation p q
            (claim_token_make ClaimKind.allocate q.allocator epoch)
            slot_id
            (claimed slot_id w)
            buffer
            (generate_buffer_id p q.allocator (tick w))
  unfolding try_slot
  try_slot_takes slot_id buffer w h = ground arith

  try_slot-Taken :
      (slot_id : ℕ) (buffer : Buffer) (w : World) (status : Status) (view : Buffer) (w' : World)
      → IsQuiet w q.allocator
      → takeable (w.pool.controls slot_id) ≡ true
      → try_slot p q epoch slot_id buffer w ≡ returned status view w'
      → Taken q epoch w slot_id status view w'
  unfolding fresh_slot
  try_slot-Taken slot_id buffer w status view w' quiet could h =
      let (r, made, o) = generate_buffer_id_total p q.allocator valid (tick w) calm in
      let claim = claim_token_make ClaimKind.allocate q.allocator epoch in
      let run : name_allocation p q claim slot_id (claimed slot_id w) buffer (some r)
          ≡ returned status view w' =
        cc (try_slot_takes slot_id buffer w could) in
      let l =
        name_lands p q claim slot_id (claimed slot_id w) buffer status view w w' r refl o.same_pool
          run in
      record {
        could = could;
        frame = l.frame;
        granted = λ good.
            let named =
              name_allocation-named p q claim slot_id (claimed slot_id w) buffer status view w' r
                run good in
            let s = l.granted good in
            record {
              state = s.state;
              generation = s.generation;
              owner_id = s.owner_id;
              owner_epoch = s.owner_epoch;
              claim_token = s.claim_token;
              hop_count = s.hop_count;
              visited = s.visited;
              region = s.region;
              parent_id = ground (arith, s.identity);
              named = ground (arith, s.identity, o.named);
            };
        failed = λ bad. let (freed, gone) = l.failed bad in (freed.state, freed.claim_token, gone);
      }
    where
      calm : IsQuiet (tick w) q.allocator
      calm = record { still = quiet.still; alone = quiet.alone; in_range = quiet.in_range }

  try_slot_returns :
      (slot_id : ℕ) (buffer : Buffer) (w : World)
      → IsQuiet w q.allocator
      → takeable (w.pool.controls slot_id) ≡ true
      → (try_slot p q epoch slot_id buffer w ≢ stuck)
        × ((w' : World) → try_slot p q epoch slot_id buffer w ≢ skipped w')
  try_slot_returns slot_id buffer w quiet could =
      let (r, made, o) =
        generate_buffer_id_total p q.allocator valid (tick w)
          (record { still = quiet.still; alone = quiet.alone; in_range = quiet.in_range }) in
      let claim = claim_token_make ClaimKind.allocate q.allocator epoch in
      let never = name_allocation-returns p q claim slot_id (claimed slot_id w) buffer r in
      let run = try_slot_takes slot_id buffer w could in
      (λ e. never.0 (cc run), λ w' e. never.1 w' (cc run))

  -- How the scan of the slots from `seen` to `end` ends.
  pub data Scanned (start seen end : ℕ) (buffer : Buffer) (w : World) (r : Status × Buffer × World)
      : Type 0 where
    exhausted :
        NoneBetween w start seen end
        → r ≡ (no_buffer, buffer, count_allocation_failure w)
        → Scanned start seen end buffer w r
    took :
        (k : ℕ)
        → seen ≤ k
        → k < end
        → NoneBetween w start seen k
        → Taken q epoch w (index w start k) r.0 r.1 r.2
        → Scanned start seen end buffer w r

  NoneBetween-earlier :
      (w : World) (start seen end : ℕ)
      → takeable (w.pool.controls (index w start seen)) ≡ false
      → NoneBetween w start (suc seen) end
      → NoneBetween w start seen end
  NoneBetween-earlier w start seen end h rest k low high = elim (ℕ_discrete seen k) [
    | yes e ↦ subst (λ i. takeable (w.pool.controls (index w start i)) ≡ false) e h
    | no ne ↦ rest k (omega arith) high
  ]

  -- One more slot in front that cannot be taken.
  Scanned-earlier :
      {start seen end : ℕ} {buffer : Buffer} {w : World} {r : Status × Buffer × World}
      → takeable (w.pool.controls (index w start seen)) ≡ false
      → Scanned start (suc seen) end buffer w r
      → Scanned start seen end buffer w r
  Scanned-earlier {start} {seen} {end} {w} h (exhausted all e) =
      exhausted (NoneBetween-earlier w start seen end h all) e
  Scanned-earlier {start} {seen} {w} h (took k low high before t) =
      took k (omega arith) high (NoneBetween-earlier w start seen k h before) t

  pub Scanned-cast :
      {start seen seen' end end' : ℕ} {buffer : Buffer} {w : World} {r : Status × Buffer × World}
      → seen ≡ seen'
      → end ≡ end'
      → Scanned start seen end buffer w r
      → Scanned start seen' end' buffer w r
  Scanned-cast {start} {buffer} {w} {r} d e s = subst₂ (λ a b. Scanned start a b buffer w r) d e s

  -- The scan returns, and ends in one of the two ways.
  pub allocate_scan_lem :
      (n seen start : ℕ) (buffer : Buffer) (w : World)
      → IsQuiet w q.allocator
      → (r : Status × Buffer × World) × (allocate_scan n p q epoch start seen buffer w ≡ some r)
        × Scanned start seen (seen + n) buffer w r
  unfolding allocate_scan
  allocate_scan_lem zero seen start buffer w quiet = (
    (no_buffer, buffer, count_allocation_failure w),
    refl,
    exhausted (λ k low high. absurd (omega arith)) refl,
  )
  allocate_scan_lem (suc n) seen start buffer w quiet =
      elim (Bool-cases (takeable (w.pool.controls (index w start seen)))) [
        | inl could ↦ taken could (try_slot p q epoch (index w start seen) buffer w) refl
        | inr cannot ↦
            let (r, e, rest) = allocate_scan_lem n (seen + 1) start buffer w quiet in
            (
              r,
              ground (arith, e, try_slot_skips (index w start seen) buffer w cannot),
              Scanned-earlier cannot (Scanned-cast (omega arith) (omega arith) rest),
            )
      ]
    where
      taken :
          takeable (w.pool.controls (index w start seen)) ≡ true
          → (a : Attempt) → try_slot p q epoch (index w start seen) buffer w ≡ a
          → (r : Status × Buffer × World) × (allocate_scan (suc n) p q epoch start seen buffer w
              ≡ some r)
            × Scanned start seen (seen + suc n) buffer w r
      taken could (skipped w') e =
          absurd ((try_slot_returns (index w start seen) buffer w quiet could).1 w' e)
      taken could stuck e =
          absurd ((try_slot_returns (index w start seen) buffer w quiet could).0 e)
      taken could (returned status view w') e = (
        (status, view, w'),
        ground (arith, e),
        took seen (omega arith) (omega arith) (λ k low high. absurd (omega arith))
            (try_slot-Taken (index w start seen) buffer w status view w' quiet could e),
      )
