-- ===== src/Protocol/Common.antt =====
-- What the protocol operations share: the counters of the pool header, `free_claiming_slot`, and
-- the undo of a claim.
use z_ipc.State.{region_zero, clear_claim_token, Slot, World, Header}
use z_ipc.Word.{u32, u64}
use z_ipc.Status.{hop_limit_unlimited, deadline_none, invalid_component_id, SlotState, free}
use z_ipc.Base.{leb, ltb, ◌&&◌, ◌==◌, not, if◌then◌else◌, ◌+◌, Bool, ℕ}

abbrev pub with_header : World → Header → World
with_header w header = record w { pool = record (w.pool) { header = header } }

abbrev pub count_allocation_failure : World → World
count_allocation_failure w = with_header w (record (w.pool.header) {
  allocation_failure_count = u64 (w.pool.header.allocation_failure_count + 1);
})

abbrev pub count_release : World → World
count_release w =
    with_header w (record (w.pool.header) { release_count = u64 (w.pool.header.release_count + 1) })

-- The token is read, and cleared if it is still the same.
unfoldable pub free_claiming_slot : Slot → Slot
free_claiming_slot s = record s {
  state = free;
  owner_id = invalid_component_id;
  next_owner_id = invalid_component_id;
  region = region_zero;
  claim_token = 0;
}

-- A claim given up: the state is stored back and the token cleared.
abbrev pub give_back : SlotState → ℕ → Slot → Slot
give_back state claim s = clear_claim_token (record s { state = state }) claim

-- `generation + 1U`, where 0 is skipped
abbrev pub next_generation : ℕ → ℕ
next_generation generation = if u32 (generation + 1) == 0 then 1 else u32 (generation + 1)

-- `slot->deadline_ns != ZIPC_DEADLINE_NONE && now_ns > slot->deadline_ns`
abbrev pub past_deadline : Slot → ℕ → Bool
past_deadline s now = not (s.deadline_ns == deadline_none) && ltb s.deadline_ns now

-- `slot->hop_limit != ZIPC_HOP_LIMIT_UNLIMITED && slot->hop_count >= slot->hop_limit`
abbrev pub past_hop_limit : Slot → Bool
past_hop_limit s = not (s.hop_limit == hop_limit_unlimited) && leb s.hop_limit s.hop_count
