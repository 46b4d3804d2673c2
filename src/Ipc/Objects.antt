-- ===== src/Ipc/Objects.antt =====
-- The object table: allocation, and what leaves the objects alone.
use yalnix.Base.{
  ℕ, zero, suc, ◌+◌, ◌≤◌, ◌<◌, ◌≡◌, refl, ◌∙◌, ◌⊎◌, inl, inr, true, false, Option, none, some, List,
  [], ◌∷◌, arith, Bool-cases,
}
use yalnix.Hardware.{Hardware}
use yalnix.State.{Kernel, Resume, QueueRef, IpcObject}
use yalnix.Process.{
  process_make_ready, process_next_ready, wake_at, wake_from, is_due, process_wake_delayed,
  requeue_current, kc_switch, process_switch, process_schedule,
}
use yalnix.Process.Schedule.{go_on}
use yalnix.Ipc.{wake, wake_all, block_on, free_slot, alloc_object, is_free, ipc_max_objects}

pub process_make_ready-objects : (p : ℕ) (k : Kernel) → (process_make_ready p k).objects ≡ k.objects
unfolding process_make_ready
process_make_ready-objects p k = ground arith

pub wake-objects : (p : ℕ) (k : Kernel) → (wake p k).objects ≡ k.objects
unfolding wake
wake-objects p k = process_make_ready-objects p _

pub wake_all-objects : (q : List ℕ) (k : Kernel) → (wake_all q k).objects ≡ k.objects
unfolding wake_all
wake_all-objects [] k = refl
wake_all-objects (p ∷ q) k = wake_all-objects q (wake p k) ∙ wake-objects p k

wake_at-objects : (i : ℕ) (k : Kernel) → (wake_at i k).objects ≡ k.objects
unfolding wake_at
wake_at-objects i k = elim (Bool-cases (is_due (k.process_table i) k)) [
  | inl due ↦ rw due (process_make_ready-objects (k.process_table i) _)
  | inr not_due ↦ rw not_due
]

wake_from-objects : (left i : ℕ) (k : Kernel) → (wake_from left i k).objects ≡ k.objects
unfolding wake_from
wake_from-objects zero i k = refl
wake_from-objects (suc left) i k =
    wake_from-objects left (i + 1) (wake_at i k) ∙ wake_at-objects i k

requeue_current-objects : (k : Kernel) → (requeue_current k).objects ≡ k.objects
unfolding requeue_current
requeue_current-objects k = ground (arith, process_make_ready-objects k.current k)

module _ ⦃hw : Hardware⦄ where
  process_switch-objects :
      (next : ℕ) (r : Resume) (k : Kernel) → (process_switch next r k).objects ≡ k.objects
  unfolding process_switch kc_switch
  process_switch-objects next r k = ground arith

  go_on-objects : (next : ℕ) (r : Resume) (k : Kernel) → (go_on next r k).objects ≡ k.objects
  go_on-objects next r k = ground (arith, process_switch-objects next r k)

  -- The scheduler does not touch the objects.
  pub process_schedule-objects :
      (r : Resume) (k : Kernel) → (process_schedule r k).objects ≡ k.objects
  unfolding process_schedule process_next_ready process_wake_delayed
  process_schedule-objects r k =
      go_on-objects _ r _
      ∙ requeue_current-objects (process_wake_delayed k)
      ∙ wake_from-objects hw.max_procs 0 k

  pub block_on-objects :
      (ref : QueueRef) (r : Resume) (k : Kernel) → (block_on ref r k).objects ≡ k.objects
  unfolding block_on
  block_on-objects ref r k = process_schedule-objects r _

-- What AllocObject finds: the lowest free slot, or none where every slot is taken.
abbrev pub Slot : (ℕ → IpcObject) → (lo hi : ℕ) → Option ℕ → Type 0
Slot objects lo hi none = (i : ℕ) → lo ≤ i → i < hi → is_free (objects i) ≡ false
Slot objects lo hi (some id) =
    (lo ≤ id)
    × (id < hi)
    × (is_free (objects id) ≡ true)
    × ((i : ℕ) → lo ≤ i → i < id → is_free (objects i) ≡ false)

free_slot-Slot :
    (left i hi : ℕ) (objects : ℕ → IpcObject)
    → i + left ≡ hi
    → Slot objects i hi (free_slot left i objects)
unfolding free_slot
free_slot-Slot zero i hi objects e = λ j lo lt. absurd (omega arith)
free_slot-Slot (suc left) i hi objects e = elim (Bool-cases (is_free (objects i))) [
  | inl here ↦ rw here (omega arith, omega arith, here, λ j lo lt. absurd (omega arith))
  | inr taken ↦ rw taken (
      extend (free_slot left (i + 1) objects) taken
        (free_slot-Slot left (i + 1) hi objects (omega arith)))
]
  where
    first : (j : ℕ) → i ≤ j → (j ≡ i) ⊎ (i + 1 ≤ j)
    first j h = ground arith

    extend :
        (o : Option ℕ)
        → is_free (objects i) ≡ false
        → Slot objects (i + 1) hi o
        → Slot objects i hi o
    extend none taken rest =
        λ j lo lt. elim (first j lo) [ inl eq ↦ rw eq taken | inr later ↦ rest j later lt ]
    extend (some id) taken rest = (
      omega arith,
      rest.1,
      rest.2,
      λ j lo lt. elim (first j lo) [ inl eq ↦ rw eq taken | inr later ↦ rest.3 j later lt ],
    )

-- AllocObject finds the lowest free slot of the 128, or fails with all of them taken.
pub alloc_object-Slot : (k : Kernel) → Slot k.objects 0 ipc_max_objects (alloc_object k)
unfolding alloc_object
alloc_object-Slot k = free_slot-Slot 128 0 128 k.objects (omega arith)
