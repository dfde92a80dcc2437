-- ===== src/Ring/Interleaving.antt =====
-- One producer and one consumer on the ring, their steps in any order. A step of a thread is one
-- of its uses of the ring: the producer acquires a slot and copies bytes to it, later commits it;
-- the consumer peeks, works on the view, later releases it.
use log_transfer_analyzer.Prelude.{
  ℕ, zero, suc, ◌+◌, ◌-◌, ◌*◌, ◌%◌, ◌≤◌, ◌<◌, ◌≡◌, refl, sym, ap, ap₂, subst, ◌∙◌, List, [], ◌∷◌,
  ◌++◌, append_assoc, append-nil, Option, none, some, length, length-replicate, replicate, get_or,
  Bytes, slice, take, length-take, u64_mod, arith,
}
use native.Mathlib.Decide.{dec_lt}
use log_transfer_analyzer.Ring.{
  Ring, WriteSlot, ReadView, try_acquire, write_at, commit, try_peek, viewed, release, create,
}
use log_transfer_analyzer.Ring.Contents.{
  contents, IsRing, length-contents, try_acquire-full, try_acquire-room, contents-write_at,
  write_at-IsRing, write_at_slot, contents-commit, commit-IsRing, commit_sizes, try_peek-none,
  try_peek-some, contents-release, release-IsRing,
}

-- The steps: the producer's, then the consumer's.
pub data Event : Type 0 where
  fill : Bytes → Event
  publish look free : Event

-- The ring, the bytes that the producer has copied and not committed, and the consumer's view.
pub record System : Type 0 where
  pub ring : Ring
  pub pending : Option Bytes
  pub view : Option ReadView

-- The chunks that a step hands over to the consumer, and those that it takes from it.
pub record Effect : Type 0 where
  pub sent : List Bytes
  pub received : List Bytes

abbrev pub nothing : Effect
nothing = record { sent = []; received = [] }

-- The producer copies at most what the slot holds; with no slot it waits.
abbrev pub filled : System → Bytes → Option WriteSlot → System × Effect
filled s bytes none = (s, nothing)
filled s bytes (some slot) =
    let copied = take slot.capacity bytes in
    (record s { ring = write_at s.ring slot.position copied; pending = some copied }, nothing)

-- A view is read just before its release, after whatever the producer did in between.
abbrev pub step : System → Event → System × Effect
step s (fill bytes) = elim s.pending [
  | some _ ↦ (s, nothing)
  | none ↦ filled s bytes (try_acquire s.ring)
]
step s publish = elim s.pending [
  | none ↦ (s, nothing)
  | some bytes ↦ (
    record s { ring = commit s.ring (length bytes); pending = none },
    record { sent = bytes ∷ []; received = [] },
  )
]
step s look = elim s.view [
  | some _ ↦ (s, nothing)
  | none ↦ (record s { view = try_peek s.ring }, nothing)
]
step s free = elim s.view [
  | none ↦ (s, nothing)
  | some view ↦ (
    record s { ring = release s.ring; view = none },
    record { sent = []; received = viewed s.ring view ∷ [] },
  )
]

unfoldable pub run_events : System → List Event → System × Effect
run_events s [] = (s, nothing)
run_events s (e ∷ events) =
    let (s', done) = step s e in
    let (s'', more) = run_events s' events in
    (s'', record { sent = done.sent ++ more.sent; received = done.received ++ more.received })

abbrev pub start : ℕ → ℕ → System
start slot_count slot_size = record {
  ring = create slot_count slot_size;
  pending = none;
  view = none;
}

-- The slot that the producer holds.
abbrev Drafted : Ring → Option Bytes → Type 0
Drafted r none = Unit
Drafted r (some bytes) =
    (r.tail - r.head < r.slot_count)
    × (length bytes ≤ r.slot_size)
    × (slice r.storage (r.tail % r.slot_count * r.slot_size) (length bytes) ≡ bytes)

-- The view that the consumer holds.
abbrev Viewing : Ring → Option ReadView → Type 0
Viewing r none = Unit
Viewing r (some view) =
    (r.head < r.tail)
    × (view.position ≡ r.head % r.slot_count * r.slot_size)
    × (view.size ≡ get_or r.sizes (r.head % r.slot_count) 0)

record IsSystem (r : Ring) (pending : Option Bytes) (view : Option ReadView) : Type 0 where
  pub ring_ok : IsRing r
  pub drafted : Drafted r pending
  pub viewing : Viewing r view

-- A step keeps the order: what the consumer gets comes from the front of the ring, and what the
-- producer commits goes to its end.
abbrev Keeps : System → System × Effect → Type 0
Keeps s (s', done) =
    IsSystem s'.ring s'.pending s'.view
    × (done.received ++ contents s'.ring ≡ contents s.ring ++ done.sent)
    × (s'.ring.tail ≤ s.ring.tail + 1)

-- A step that changes no chunk.
idle :
    (r : Ring) (p : Option Bytes) (w : Option ReadView)
    → IsSystem r p w
    → let s : System = record { ring = r; pending = p; view = w } in Keeps s (s, nothing)
idle r p w v = (v, sym (append-nil (contents r)), omega arith)

fill_lem :
    (r : Ring) (p : Option Bytes) (w : Option ReadView) (bytes : Bytes)
    → IsSystem r p w
    → let s : System = record { ring = r; pending = p; view = w } in Keeps s (step s (fill bytes))
unfolding write_at
fill_lem r (some b) w bytes v = idle r (some b) w v
fill_lem r none w bytes v = elim (dec_lt (r.tail - r.head) r.slot_count) [
  | no h ↦
      subst (λ o. Keeps s (filled s bytes o))
        (sym (try_acquire-full r v.ring_ok (omega (arith, v.ring_ok.ordered, v.ring_ok.bounded))))
        (idle r none w v)
  | yes h ↦
      subst (λ o. Keeps s (filled s bytes o)) (sym (try_acquire-room r v.ring_ok h))
        (
          record {
            ring_ok = write_at-IsRing r v.ring_ok copied fits;
            drafted = (h, fits, write_at_slot r v.ring_ok copied fits);
            viewing = seen w v.viewing;
          },
          contents-write_at r v.ring_ok copied h fits ∙ sym (append-nil (contents r)),
          omega arith,
        )
]
  where
    s : System
    s = record { ring = r; pending = none; view = w }

    copied : Bytes
    copied = take r.slot_size bytes

    fits : length copied ≤ r.slot_size
    fits = omega (arith, length-take r.slot_size bytes)

    seen :
        (w : Option ReadView)
        → Viewing r w
        → Viewing (write_at r (r.tail % r.slot_count * r.slot_size) copied) w
    seen none h = tt
    seen (some view) h = h

publish_lem :
    (r : Ring) (p : Option Bytes) (w : Option ReadView)
    → IsSystem r p w
    → r.tail + 1 < u64_mod
    → let s : System = record { ring = r; pending = p; view = w } in Keeps s (step s publish)
unfolding commit
publish_lem r none w v small = idle r none w v
publish_lem r (some b) w v small =
    let (room, fits, there) = v.drafted in
    (
      record {
        ring_ok = commit-IsRing r v.ring_ok (length b) room small fits;
        drafted = tt;
        viewing = seen w v.viewing;
      },
      contents-commit r v.ring_ok (length b) room small ∙ ap (λ x. contents r ++ (x ∷ [])) there,
      omega arith,
    )
  where
    seen : (w : Option ReadView) → Viewing r w → Viewing (commit r (length b)) w
    seen none h = tt
    seen (some view) (h, at, size) = (
      omega (arith, small),
      at,
      size ∙ sym (commit_sizes r v.ring_ok (length b) r.head v.drafted.0 (omega arith) h),
    )

look_lem :
    (r : Ring) (p : Option Bytes) (w : Option ReadView)
    → IsSystem r p w
    → let s : System = record { ring = r; pending = p; view = w } in Keeps s (step s look)
look_lem r p (some view) v = idle r p (some view) v
look_lem r p none v = (
  record { ring_ok = v.ring_ok; drafted = v.drafted; viewing = seen },
  sym (append-nil (contents r)),
  omega arith,
)
  where
    seen : Viewing r (try_peek r)
    seen = elim (dec_lt r.head r.tail) [
      | yes h ↦ rw (try_peek-some r v.ring_ok h) (h, refl, refl)
      | no h ↦ rw (try_peek-none r v.ring_ok (omega (arith, v.ring_ok.ordered))) tt
    ]

free_lem :
    (r : Ring) (p : Option Bytes) (w : Option ReadView)
    → IsSystem r p w
    → let s : System = record { ring = r; pending = p; view = w } in Keeps s (step s free)
unfolding release
free_lem r p none v = idle r p none v
free_lem r p (some view) v =
    let (h, at, size) = v.viewing in
    (
      record { ring_ok = release-IsRing r v.ring_ok h; drafted = kept p v.drafted; viewing = tt },
      ap₂ (λ i n. slice r.storage i n ∷ contents (release r)) at size
          ∙ sym (contents-release r v.ring_ok h)
          ∙ sym (append-nil (contents r)),
      omega arith,
    )
  where
    kept : (p : Option Bytes) → Drafted r p → Drafted (release r) p
    kept none d = tt
    kept (some b) (room, fits, there) =
        (omega (arith, v.viewing.0, v.ring_ok.unwrapped), fits, there)

step_lem :
    (s : System) (e : Event)
    → IsSystem s.ring s.pending s.view
    → s.ring.tail + 1 < u64_mod
    → Keeps s (step s e)
step_lem s (fill bytes) v small = fill_lem s.ring s.pending s.view bytes v
step_lem s publish v small = publish_lem s.ring s.pending s.view v small
step_lem s look v small = look_lem s.ring s.pending s.view v
step_lem s free v small = free_lem s.ring s.pending s.view v

run_lem :
    (events : List Event) (s : System)
    → IsSystem s.ring s.pending s.view
    → s.ring.tail + length events < u64_mod
    → let (s', done) = run_events s events in
      IsSystem s'.ring s'.pending s'.view
      × (done.received ++ contents s'.ring ≡ contents s.ring ++ done.sent)
unfolding run_events
run_lem [] s v small = (v, sym (append-nil (contents s.ring)))
run_lem (e ∷ events) s v small =
    let (v', kept, tail) = step_lem s e v (omega arith) in
    let (v'', rest) = run_lem events (step s e).0 v' (omega arith) in
    let now = (step s e).1 in
    let later = (run_events (step s e).0 events).1 in
    let left = contents (run_events (step s e).0 events).0.ring in
    (
      v'',
      append_assoc now.received later.received left
          ∙ ap (λ x. now.received ++ x) rest
          ∙ sym (append_assoc now.received (contents (step s e).0.ring) later.sent)
          ∙ ap (λ x. x ++ later.sent) kept
          ∙ append_assoc (contents s.ring) now.sent later.sent,
    )

get_or-replicate : (n j : ℕ) → get_or {A = ℕ} (replicate n 0) j 0 ≡ 0
get_or-replicate zero j = refl
get_or-replicate (suc n) zero = refl
get_or-replicate (suc n) (suc j) = get_or-replicate n j

pub create-IsRing :
    (slot_count slot_size : ℕ)
    → 0 < slot_count
    → slot_count < u64_mod
    → IsRing (create slot_count slot_size)
unfolding create
create-IsRing slot_count slot_size positive few = record {
  some_slot = positive;
  few_slots = few;
  room = length-replicate (slot_count * slot_size) 0;
  sized = length-replicate slot_count 0;
  ordered = omega arith;
  bounded = omega arith;
  unwrapped = omega arith;
  sizes_fit = λ j. omega (arith, get_or-replicate slot_count j);
}

-- However fewer than 2 ^ 64 steps of the producer and the consumer interleave, on a ring with at
-- least one slot and fewer than 2 ^ 64, the consumer gets the committed chunks in their order,
-- unchanged and each once: what it has got, and then what the ring still holds, is what was
-- committed. At the end the ring holds no more chunks than it has slots.
pub run_events_fifo :
    (slot_count slot_size : ℕ) (events : List Event)
    → 0 < slot_count
    → slot_count < u64_mod
    → length events < u64_mod
    → let (s, done) = run_events (start slot_count slot_size) events in
      (done.received ++ contents s.ring ≡ done.sent)
      × (length (contents s.ring) ≤ s.ring.slot_count)
unfolding create
run_events_fifo slot_count slot_size events positive few small =
    let v : IsSystem (create slot_count slot_size) none none = record {
      ring_ok = create-IsRing slot_count slot_size positive few;
      drafted = tt;
      viewing = tt;
    } in
    let (v', fifo) = run_lem events (start slot_count slot_size) v (omega arith) in
    (
      fifo,
      omega (
        arith,
        length-contents (run_events (start slot_count slot_size) events).0.ring,
        v'.ring_ok.bounded,
      ),
    )
