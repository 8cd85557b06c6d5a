-- ===== src/Vm/Index.antt =====
-- The indices that a virtual address has in the three levels of page tables.
use mit6s.Base.{ℕ, zero, suc, ◌+◌, ◌*◌, ◌/◌, ◌%◌, ◌^◌, ◌≤◌, ◌<◌, ◌≡◌, arith}
use mit6s.Kalloc.{page_size}
use mit6s.Vm.Walk.{px, slot}

-- What the addresses of one table of a level have in common: the bits above its index.
abbrev pub prefix : ℕ → ℕ → ℕ
prefix level va = va / 2 ^ (21 + 9 * level)

pub px-lt : (level va : ℕ) → px level va < 512
px-lt level va = omega arith

pub px_page : (level va va' : ℕ) → level ≤ 2 → va / 4096 ≡ va' / 4096 → px level va ≡ px level va'
px_page zero va va' h e = omega arith
px_page (suc zero) va va' h e = omega arith
px_page (suc (suc zero)) va va' h e = omega arith
px_page (suc (suc (suc l))) va va' h e = absurd (omega arith)

pub prefix-suc :
    (level va : ℕ) → level ≤ 1 → prefix level va ≡ prefix (suc level) va * 512 + px (suc level) va
prefix-suc zero va h = omega arith
prefix-suc (suc zero) va h = omega arith
prefix-suc (suc (suc l)) va h = absurd (omega arith)

-- Addresses with the same last table and index are in one page.
pub same_page :
    (va va' : ℕ) → prefix 0 va ≡ prefix 0 va' → px 0 va ≡ px 0 va' → va / 4096 ≡ va' / 4096
same_page va va' e f = omega arith

-- The entries of two tables are apart, and so are two entries of one.
pub slot_inj :
    (x y i j : ℕ)
    → x % page_size ≡ 0
    → y % page_size ≡ 0
    → i < 512
    → j < 512
    → slot x i ≡ slot y j
    → (x ≡ y) × (i ≡ j)
slot_inj x y i j ex ey hi hj e = (omega arith, omega arith)
