-- ===== src/Heap.antt =====
-- The heap of a user program, user/libc/stdlib/heap.c. The store maps the address of a segment to its
-- header; 0 is the null pointer, a `size_t` is its value, and a header takes 16 bytes. What the
-- segments hold is not in the store, and `mmap` is the kernel's.
pub mod Chain
pub mod Split
pub mod Fit
pub mod Malloc
pub mod Join
pub mod Release
pub mod Free
mod Tests
use goofy_micro_os.Prelude.{
  ℕ, zero, suc, ◌+◌, ◌-◌, ◌*◌, ◌/◌, ◌%◌, ◌^◌, Bool, true, false, not, ◌&&◌, ◌||◌, Option, none,
  some, ltb, leb, ◌==◌, if◌then◌else◌,
}

-- `heap_segment_header_t`
pub record Header : Type 0 where
  pub length : ℕ
  pub next : ℕ
  pub last : ℕ
  pub free : Bool

pub record Heap : Type 0 where
  pub headers : ℕ → Header
  pub heap_start : ℕ
  pub heap_end : ℕ
  pub last_hdr : ℕ

abbrev pub header_size : ℕ
header_size = 16

abbrev pub u32_mod : ℕ
u32_mod = 2 ^ 32

-- `a - b` of `size_t`
abbrev pub sub32 : ℕ → ℕ → ℕ
sub32 a b = (a + (u32_mod - b % u32_mod)) % u32_mod

abbrev pub put : ℕ → Header → Heap → Heap
put a header s = record s { headers = λ x. if x == a then header else s.headers x }

abbrev pub set_length : ℕ → ℕ → Heap → Heap
set_length a v s = put a (record (s.headers a) { length = v }) s

abbrev pub set_next : ℕ → ℕ → Heap → Heap
set_next a v s = put a (record (s.headers a) { next = v }) s

abbrev pub set_last : ℕ → ℕ → Heap → Heap
set_last a v s = put a (record (s.headers a) { last = v }) s

abbrev pub set_free : ℕ → Bool → Heap → Heap
set_free a v s = put a (record (s.headers a) { free = v }) s

-- `hsh_combine_forward` behind its guards: the link back of the segment after next, and then the
-- header at `this`.
unfoldable pub skip_back : (this next : ℕ) → Heap → Heap
skip_back this next s =
    if (s.headers next).next == 0 then s else set_last ((s.headers next).next) this s

unfoldable pub absorb : (this next : ℕ) → Heap → Heap
absorb this next s =
    let length = ((s.headers this).length + (s.headers next).length + header_size) % u32_mod in
    let s' = set_length this length s in set_next this ((s'.headers next).next) s'

unfoldable pub hsh_combine_forward : ℕ → Heap → Heap
hsh_combine_forward this s =
    let next = (s.headers this).next in
    let s' = if next == s.last_hdr then record s { last_hdr = this } else s in
    if next == 0
    then s
    else if not (s.headers next).free
    then s
    else absorb this next (skip_back this next s')

unfoldable pub hsh_combine_backward : ℕ → Heap → Heap
hsh_combine_backward this s =
    let last = (s.headers this).last in
    if not (last == 0) && (s.headers last).free then hsh_combine_forward last s else s

-- `hsh_split` behind its guards: the link back from the next segment, and then the two headers.
unfoldable pub link_back : (this new : ℕ) → Heap → Heap
link_back this new s =
    if (s.headers this).next == 0 then s else set_last ((s.headers this).next) new s

unfoldable pub divide : (this new split_length split_seg_length : ℕ) → Heap → Heap
divide this new split_length split_seg_length s =
    let s1 = set_next new ((s.headers this).next) s in
    let s2 = set_next this new s1 in
    let s3 = set_last new this s2 in
    let s4 = set_length new split_seg_length s3 in
    let s5 = set_free new ((s4.headers this).free) s4 in
    let s6 = set_length this split_length s5 in
    if s6.last_hdr == this then record s6 { last_hdr = new } else s6

-- The new header, or the null pointer where there is no room for one.
unfoldable pub hsh_split : (this split_length : ℕ) → Heap → ℕ × Heap
hsh_split this split_length s =
    let split_seg_length = sub32 ((s.headers this).length) (split_length + header_size) in
    let new = (this + split_length + header_size) % u32_mod in
    if ltb split_length 0x10
    then (0, s)
    else if ltb split_seg_length 0x10
    then (0, s)
    else (new, divide this new split_length split_seg_length (link_back this new s))

unfoldable pub initialize_heap : (heap_address page_count : ℕ) → Heap → Heap
initialize_heap heap_address page_count s =
    let heap_length = page_count * 0x1000 % u32_mod in
    put heap_address
      (record { length = sub32 heap_length header_size; next = 0; last = 0; free = true })
      (record s {
        heap_start = heap_address;
        heap_end = (heap_address + heap_length) % u32_mod;
        last_hdr = heap_address;
      })

-- `length` rounded up to whole pages.
abbrev pub pages_up : ℕ → ℕ
pages_up length =
    if length % 0x1000 == 0 then length else (length - length % 0x1000 + 0x1000) % u32_mod

unfoldable pub expand_heap : ℕ → Heap → Heap
expand_heap length s =
    let new_segment = s.heap_end in
    let s1 = record s { heap_end = (s.heap_end + pages_up length / 0x1000 * 0x1000) % u32_mod } in
    let s2 = set_last new_segment s1.last_hdr (set_free new_segment true s1) in
    let s3 = record (set_next s2.last_hdr new_segment s2) { last_hdr = new_segment } in
    let s4 =
      set_length new_segment (sub32 (pages_up length) header_size) (set_next new_segment 0 s3) in
    hsh_combine_backward new_segment s4

abbrev pub round_up : ℕ → ℕ
round_up size = if ltb 0 (size % 0x10) then (size - size % 0x10 + 0x10) % u32_mod else size

-- How the walk over the segments ends.
pub data Walk : Type 0 where
  taken : ℕ → Heap → Walk
  no_fit : Walk
  out_of_fuel : Walk

-- The loop of `malloc` at the segment `current_seg`.
unfoldable pub find_segment : (fuel size current_seg : ℕ) → Heap → Walk
find_segment zero size current_seg s = out_of_fuel
find_segment (suc fuel) size current_seg s =
    let header = s.headers current_seg in
    let further = find_segment fuel size header.next s in
    let onward = if header.next == 0 then no_fit else further in
    if header.free
    then (if ltb size header.length
        then take_segment (hsh_split current_seg size s).1
        else if header.length == size
        then take_segment s
        else onward)
    else onward
  where
    take_segment : Heap → Walk
    take_segment s = taken ((current_seg + header_size) % u32_mod) (set_free current_seg false s)

-- `walk` bounds the segments looked at, and `rounds` the expansions; `none` is out of fuel.
unfoldable pub malloc : (rounds walk size : ℕ) → Heap → Option (ℕ × Heap)
malloc rounds walk size s = attempts rounds (round_up size) s
  where
    attempts : ℕ → ℕ → Heap → Option (ℕ × Heap)
    attempts zero size s = none
    attempts (suc rounds) size s =
        let again = attempts rounds (round_up size) (expand_heap size s) in
        if size == 0 then some (0, s) else elim (find_segment walk size s.heap_start s) [
          | taken address s' ↦ some (address, s')
          | no_fit ↦ again
          | out_of_fuel ↦ none
        ]

unfoldable pub heap_free : ℕ → Heap → Heap
heap_free address s =
    let segment = sub32 address header_size in
    hsh_combine_backward segment (hsh_combine_forward segment (set_free segment true s))

-- The result, and the number of bytes that are copied from the old segment to the new.
unfoldable pub realloc : (rounds walk ptr size : ℕ) → Heap → Option (ℕ × ℕ × Heap)
realloc rounds walk ptr size s =
    let segment = sub32 ptr header_size in
    if size == 0
    then some (0, 0, heap_free ptr s)
    else if ptr == 0
    then moved (malloc rounds walk size s)
    else if leb size (s.headers segment).length
    then some (ptr, 0, s)
    else copied segment (malloc rounds walk size s)
  where
    moved : Option (ℕ × Heap) → Option (ℕ × ℕ × Heap)
    moved none = none
    moved (some (p, s)) = some (p, 0, s)

    copied : ℕ → Option (ℕ × Heap) → Option (ℕ × ℕ × Heap)
    copied segment none = none
    copied segment (some (p, s)) =
        if p == 0 then some (p, 0, s) else some (p, (s.headers segment).length, heap_free ptr s)

-- `calloc`, but for the `memset`.
unfoldable pub calloc : (rounds walk count size : ℕ) → Heap → Option (ℕ × Heap)
calloc rounds walk count size s = malloc rounds walk (count * size % u32_mod) s
