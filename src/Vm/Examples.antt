-- ===== src/Vm/Examples.antt =====
-- A page table of one mapped page, in a memory of five pages: tests, and the theorems at work on it.
use mathlib.Core.Path.{subst}
use mit6s.Base.{
  ℕ, suc, ◌+◌, ◌-◌, ◌*◌, ◌%◌, ◌<◌, ◌≡◌, refl, sym, ap, ap₂, ◌∙◌, arith, Bool, true, false, none,
  some, some_inj, [], ◌∷◌, ◌==◌, ==_ne, ◌||◌, if◌then◌else◌, pos, ℕ_discrete,
}
use mit6s.Kalloc.{page_size, Kmem}
use mit6s.Kalloc.Owners.{Sound}
use mit6s.Vm.Walk.{pa2pte, pte2pa, is_valid, slot, store, walk_from, walk, walkaddr}
use mit6s.Vm.Maps.{user_rwx, page_round_down, leaf_entry, map_page, map_from, mappages, uvmdealloc}
use mit6s.Vm.Bytes.{get_bytes, string_bytes, copyin_from, copyin, copyinstr_from, copyinstr}
use mit6s.Vm.MapPages.{MapEnd, mappages-MapEnd}
use mit6s.Vm.Lookup.{mappages-walkaddr}
use mit6s.Vm.Unmap.{LeafAt}
use mit6s.Vm.Unmaps.{LeavesAt, RangeFreed, uvmdealloc-RangeFreed}
use mit6s.Vm.CopyIn.{user_bytes, copyin-user_bytes}
use mit6s.Vm.CopyStr.{user_string, copyinstr-user_string}
use mit6s.Vm.Shape.{table, Home}
use mit6s.Vm.Store.{Space, mapped}

abbrev kernel_end : ℕ
kernel_end = 2281680896

abbrev root : ℕ
root = kernel_end

abbrev middle : ℕ
middle = 2281684992

abbrev last : ℕ
last = 2281689088

abbrev data_page : ℕ
data_page = 2281693184

abbrev free_page : ℕ
free_page = 2281697280

-- The page of address 0 holds "hi" and zeros.
abbrev memory : ℕ → ℕ
memory a =
    if a == root
    then pa2pte middle + 1
    else if a == middle
    then pa2pte last + 1
    else if a == last
    then leaf_entry data_page user_rwx
    else if a == data_page
    then 26984
    else 0

abbrev machine : Kmem
machine = record { lock = false; freelist = free_page; mem = memory }

abbrev owned : ℕ → Bool
owned x = x == root || x == middle || x == last || x == data_page

abbrev homes : Home
homes x =
    if x == root
    then some (2, 0)
    else if x == middle
    then some (1, 0)
    else if x == last
    then some (0, 0)
    else none

machine-Sound : Sound kernel_end (record { kmem = machine; own = owned })
machine-Sound = record {
  free = free_page ∷ [];
  listed = (refl, (omega arith, refl, omega arith, omega arith), refl, tt, refl);
  pages = λ p o. ground arith;
}

first_slot : (x i : ℕ) → x % page_size ≡ 0 → i < 512 → is_valid (memory (slot x i)) ≡ true → i ≡ 0
first_slot x i al hi v = ground arith

-- The first entry of a table leads to the next one.
first_child :
    (x l p i y k : ℕ)
    → y % page_size ≡ 0
    → x ≡ y
    → homes y ≡ some (suc k, 0)
    → homes (pte2pa (memory y)) ≡ some (k, 0)
    → homes x ≡ some (suc l, p)
    → i < 512
    → is_valid (memory (slot x i)) ≡ true
    → homes (pte2pa (memory (slot x i))) ≡ some (l, p * 512 + i)
first_child x l p i y k al q hy e h hi v =
    let z : i ≡ 0 = first_slot x i (omega arith) hi v in
    let ex : slot x i ≡ y = omega arith in
    let same : Path (ℕ × ℕ) (suc k, 0) (suc l, p) = some_inj (sym hy ∙ ap homes (sym q) ∙ h) in
    let sl : suc k ≡ suc l = ap (λ n. n.0) same in
    let pz : 0 ≡ p = ap (λ n. n.1) same in
    let lk : k ≡ l = omega arith in
    let pk : 0 ≡ p * 512 + i = omega arith in
    ap (λ a. homes (pte2pa (memory a))) ex ∙ e ∙ ap₂ (λ m n. some (m, n)) lk pk

machine-child :
    (x l p i : ℕ)
    → homes x ≡ some (suc l, p)
    → i < 512
    → is_valid (memory (slot x i)) ≡ true
    → homes (pte2pa (memory (slot x i))) ≡ some (l, p * 512 + i)
machine-child x l p i h hi v = elim (ℕ_discrete x root) [
  | yes q ↦ first_child x l p i root 1 refl q refl refl h hi v
  | no n0 ↦ elim (ℕ_discrete x middle) [
    | yes q ↦ first_child x l p i middle 0 refl q refl refl h hi v
    | no n1 ↦ elim (ℕ_discrete x last) [
      | yes q ↦
          let z : 0 ≡ suc l = ap (λ n. n.0) (some_inj (sym (ap homes q) ∙ h)) in
          absurd (omega arith)
      | no n2 ↦ absurd (cc (rw (==_ne x root n0, ==_ne x middle n1, ==_ne x last n2) at h))
    ]
  ]
]

machine-held : (x l p : ℕ) → homes x ≡ some (l, p) → owned x ≡ true
machine-held x l p h = elim (ℕ_discrete x root) [
  | yes q ↦ ap owned q
  | no n0 ↦ elim (ℕ_discrete x middle) [
    | yes q ↦ ap owned q
    | no n1 ↦ elim (ℕ_discrete x last) [
      | yes q ↦ ap owned q
      | no n2 ↦ absurd (cc (rw (==_ne x root n0, ==_ne x middle n1, ==_ne x last n2) at h))
    ]
  ]
]

abbrev machine-Space : Space kernel_end root machine
machine-Space = record {
  home = homes;
  own = owned;
  shaped = record { child = machine-child; held = machine-held; sound = machine-Sound };
  at_root = refl;
}

first_entry : mapped machine root 0 ≡ leaf_entry data_page user_rwx
unfolding table
first_entry = refl

hello : copyin root 0 3 machine ≡ some (pos 0, 104 ∷ 105 ∷ 0 ∷ [])
unfolding copyin copyin_from get_bytes walkaddr walk_from
hello = refl

hello_string : copyinstr root 0 8 machine ≡ some (pos 0, 104 ∷ 105 ∷ 0 ∷ [])
unfolding copyinstr copyinstr_from string_bytes walkaddr walk_from
hello_string = refl

copyin-user_bytes_example : copyin root 0 3 machine ≡ some (user_bytes root 3 0 machine)
copyin-user_bytes_example = copyin-user_bytes root 0 3 machine (omega arith)

copyinstr-user_string_example : copyinstr root 0 8 machine ≡ some (user_string root 8 0 machine)
copyinstr-user_string_example = copyinstr-user_string root 0 8 machine (omega arith)

mappages-MapEnd_example :
    MapEnd kernel_end root 4096 268435456 6 2 machine
      (mappages 2 root 4096 8192 268435456 6 machine)
mappages-MapEnd_example =
    mappages-MapEnd kernel_end root 2 4096 8192 268435456 6 machine machine-Space (omega arith)
      (omega arith) (omega arith) (omega arith)

-- The memory after a page of device memory has been mapped for user code.
abbrev device_mapped : Kmem
device_mapped = store (last + 8) (leaf_entry 268435456 22) machine

maps_device : mappages 1 root 4096 4096 268435456 22 machine ≡ some (pos 0, device_mapped)
unfolding mappages map_from map_page walk walk_from
maps_device = refl

mappages-walkaddr_example :
    walkaddr root 5000 device_mapped ≡ 268435456 + (page_round_down 5000 - page_round_down 4096)
mappages-walkaddr_example =
    mappages-walkaddr kernel_end root 1 4096 4096 268435456 22 machine device_mapped machine-Space
      (omega arith) (omega arith) refl (omega arith) (omega arith) refl (omega arith) maps_device
      5000 (omega arith) (omega arith)

first-LeavesAt : LeavesAt kernel_end root 0 1 machine machine-Space
unfolding table
first-LeavesAt = record {
  leaf = λ k lt.
      let z : 0 ≡ 0 + k * page_size = omega arith in
      subst (λ a. LeafAt kernel_end root a machine machine-Space) z
        (record { valid = refl; leaf = λ q. omega arith; held = refl; plain = refl });
  apart = λ i j hi hj ne. absurd (ne (omega arith));
}

uvmdealloc-RangeFreed_example :
    (t : Kmem) × (uvmdealloc kernel_end root 100 0 machine ≡ some (0, t))
    × RangeFreed kernel_end root 0 1 machine machine-Space t
uvmdealloc-RangeFreed_example =
    uvmdealloc-RangeFreed kernel_end root 100 0 machine machine-Space (omega arith) (omega arith)
      first-LeavesAt
