-- ===== src/Vmm/Memory.antt =====
-- What a write, the clearing loop and the sharing loop of mckrnl/memory/vmm.c leave in memory.
use goofy_micro_os.Prelude.{
  ap, sym, ℕ, zero, suc, ◌+◌, ◌%◌, ◌≤◌, ◌<◌, ◌≡◌, ◌≢◌, refl, ◌∙◌, true, Bool-cases, inl, inr, List,
  [], ◌∷◌, arith, ◌==◌,
}
use goofy_micro_os.Prelude.Bits.{bit, bit_and-pow}
use goofy_micro_os.Vmm.{
  Mem, write, TaskContext, present, pagedir, page_of, clear_entries, share_entry,
}

pub write_here : (p i v : ℕ) (m : Mem) → write p i v m p i ≡ v
unfolding write
write_here p i v m = ground arith

pub write_other_page : (p i v : ℕ) (m : Mem) (q j : ℕ) → q ≢ p → write p i v m q j ≡ m q j
unfolding write
write_other_page p i v m q j h = ground (arith, h)

pub write_other_place : (p i v : ℕ) (m : Mem) (q j : ℕ) → j ≢ i → write p i v m q j ≡ m q j
unfolding write
write_other_place p i v m q j h = ground (arith, h)

-- An entry is present when it is odd.
pub present-odd : (e : ℕ) → present e ≡ (e % 2 == 1)
unfolding present bit
present-odd e = ground (arith, bit_and-pow e 0)

pub clear_entries_other :
    (count i p : ℕ) (m : Mem) (q j : ℕ) → q ≢ p → clear_entries count i p m q j ≡ m q j
unfolding clear_entries
clear_entries_other zero i p m q j h = refl
clear_entries_other (suc count) i p m q j h =
    clear_entries_other count (i + 1) p (write p i 0 m) q j h ∙ write_other_page p i 0 m q j h

clear_entries_before :
    (count i p : ℕ) (m : Mem) (j : ℕ) → j < i → clear_entries count i p m p j ≡ m p j
unfolding clear_entries
clear_entries_before zero i p m j h = refl
clear_entries_before (suc count) i p m j h =
    clear_entries_before count (i + 1) p (write p i 0 m) j (omega (arith, h))
    ∙ write_other_place p i 0 m p j (omega (arith, h))

-- The loop clears the entries that it comes to.
pub clear_entries_zero :
    (count i p : ℕ) (m : Mem) (j : ℕ) → i ≤ j → j < i + count → clear_entries count i p m p j ≡ 0
unfolding clear_entries
clear_entries_zero zero i p m j lo hi = absurd (omega (arith, lo, hi))
clear_entries_zero (suc count) i p m j lo hi = elim (Bool-cases (i == j)) [
  | inl e ↦
      let same : i ≡ j = ground (arith, e) in
      rw (← same)
        (clear_entries_before count (i + 1) p (write p i 0 m) i (omega arith) ∙ write_here p i 0 m)
  | inr ne ↦
      clear_entries_zero count (i + 1) p (write p i 0 m) j (ground (arith, ne, lo))
        (omega (arith, hi))
]

-- A statement on each active task.
abbrev pub EachActive : (TaskContext → Type 0) → List TaskContext → Type 0
EachActive P [] = Unit
EachActive P (t ∷ ts) = (t.active ≡ true → P t) × EachActive P ts

pub EachActive-map :
    {P Q : TaskContext → Type 0} (ts : List TaskContext)
    → ((t : TaskContext) → P t → Q t)
    → EachActive P ts
    → EachActive Q ts
EachActive-map [] f h = tt
EachActive-map (t ∷ ts) f h = (λ active. f t (h.0 active), EachActive-map ts f h.1)

EachActive-zip :
    {P Q R : TaskContext → Type 0} (ts : List TaskContext)
    → ((t : TaskContext) → P t → Q t → R t)
    → EachActive P ts
    → EachActive Q ts
    → EachActive R ts
EachActive-zip [] f h k = tt
EachActive-zip (t ∷ ts) f h k =
    (λ active. f t (h.0 active) (k.0 active), EachActive-zip ts f h.1 k.1)

-- The directories of the active tasks are those that `dir` names, and none is a page that the
-- context of one is kept in.
pub record Dirs (dir : TaskContext → ℕ) (m : Mem) (ts : List TaskContext) : Type 0 where
  pub named : EachActive (λ t. pagedir m t.context ≡ dir t) ts
  pub kept : EachActive (λ u. EachActive (λ t. dir t ≢ u.context) ts) ts

Dirs-tail :
    {dir : TaskContext → ℕ} {m : Mem} (t : TaskContext) (ts : List TaskContext)
    → Dirs dir m (t ∷ ts)
    → Dirs dir m ts
Dirs-tail t ts d = record { named = d.named.1; kept = EachActive-map ts (λ u h. h.1) d.kept.1 }

Dirs-write :
    {dir : TaskContext → ℕ} {m : Mem} (t : TaskContext) (ts : List TaskContext) (pd v : ℕ)
    → t.active ≡ true
    → Dirs dir m (t ∷ ts)
    → Dirs dir (write (pagedir m t.context) pd v m) ts
Dirs-write {dir} {m} t ts pd v active d =
    let here = d.named.0 active in
    record {
      named =
          EachActive-zip ts
            (λ u same h.
              ap page_of (
                write_other_page (pagedir m t.context) pd v m u.context 0
                  (λ e. h.0 active (sym (e ∙ here))))
              ∙ same)
            d.named.1 d.kept.1;
      kept = EachActive-map ts (λ u h. h.1) d.kept.1;
    }

-- The sharing loop changes no page but the tasks' directories.
pub share_entry_other :
    {dir : TaskContext → ℕ} (context pd : ℕ) (ts : List TaskContext) (m : Mem) (q j : ℕ)
    → Dirs dir m ts
    → EachActive (λ t. dir t ≢ q) ts
    → share_entry context pd ts m q j ≡ m q j
unfolding share_entry
share_entry_other context pd [] m q j d avoid = refl
share_entry_other context pd (t ∷ ts) m q j d avoid = elim (Bool-cases t.active) [
  | inl active ↦
      let v : ℕ = m (pagedir m context) pd in
      rw active (
        share_entry_other context pd ts (write (pagedir m t.context) pd v m) q j
          (Dirs-write t ts pd v active d) avoid.1
        ∙ write_other_page (pagedir m t.context) pd v m q j
            (λ e. avoid.0 active (sym (e ∙ d.named.0 active))))
  | inr inactive ↦ rw inactive (share_entry_other context pd ts m q j (Dirs-tail t ts d) avoid.1)
]
