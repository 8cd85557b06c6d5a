-- ===== src/Kalloc/Examples.antt =====
-- A memory with two pages behind the kernel: tests, and the theorems at work on it.
use mit6s.Base.{ℕ, ◌+◌, ◌≡◌, ◌⊎◌, refl, arith, false, none, some, [], ◌∷◌, ◌==◌, update}
use mit6s.Kalloc.{page_round_up, Kmem, kfree, kalloc, kinit}
use mit6s.Kalloc.Pages.{Listed}
use mit6s.Kalloc.Owners.{Heap, Sound, Reach, here, next, writes, Fresh, kalloc-Fresh}
use mit6s.Kalloc.Init.{pages_up, page_count, nobody, kinit-Listed}

abbrev kernel_end : ℕ
kernel_end = 2281693184

abbrev last_page : ℕ
last_page = 2281697280

abbrev empty : Kmem
empty = record { lock = false; freelist = 0; mem = λ a. 0 }

-- The first page is held, the last one is free.
abbrev heap : Heap
heap = record {
  kmem = record { lock = false; freelist = last_page; mem = λ a. 0 };
  own = λ p. p == kernel_end;
}

-- The client has written 9 into its page.
abbrev written : Heap
written = record {
  kmem = record (heap.kmem) { mem = update heap.kmem.mem (kernel_end + 8) 9 };
  own = heap.own;
}

heap-Sound : Sound kernel_end heap
heap-Sound = record {
  free = last_page ∷ [];
  listed = (refl, (omega arith, refl, omega arith, omega arith), refl, tt, refl);
  pages = λ p o. ground arith;
}

heap-written : Reach kernel_end heap written
heap-written = next here (writes kernel_end (kernel_end + 8) 9 refl (omega arith) (omega arith))

kalloc_result : (kalloc written.kmem).0 ≡ last_page
unfolding kalloc
kalloc_result = refl

kfree_in_kernel : kfree kernel_end 4096 empty ≡ none
unfolding kfree
kfree_in_kernel = refl

kinit-Listed_example :
    (t : Kmem) × (kinit 5 kernel_end empty ≡ some t)
    × Listed kernel_end nobody t.mem t.freelist
        (pages_up (page_count kernel_end) (page_round_up kernel_end) [])
    × Sound kernel_end (record { kmem = t; own = nobody })
kinit-Listed_example =
    kinit-Listed 5 kernel_end empty (omega arith) (omega arith) (omega arith) refl

kalloc-Fresh_example :
    let (r, t) = kalloc written.kmem in
    ((r ≡ 0) × (written.kmem.freelist ≡ 0)) ⊎ Fresh kernel_end written r t
kalloc-Fresh_example = kalloc-Fresh kernel_end heap-written heap-Sound
