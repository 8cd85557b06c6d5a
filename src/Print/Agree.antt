-- ===== src/Print/Agree.antt =====
-- The kernel's `printf`, which looks one byte ahead, and the user's, which keeps a state.
use mit6s.Base.{
  ℕ, zero, suc, ◌-◌, ◌/◌, ◌%◌, ◌^◌, ◌<◌, ◌≡◌, ◌≢◌, ◌⊎◌, inl, inr, refl, sym, ap, ap₂, arith, true,
  false, some, leb, ◌==◌, ==_ne, if◌then◌else◌, List, [], ◌∷◌, ◌++◌, fun_ext, get_or, u32,
  ℕ_discrete, Bool-cases,
}
use mit6s.Print.Digits.{Arg, buf_digits, backwards, next_word, put_front, and_then}
use mit6s.Print.Kernel
use mit6s.Print.User

-- A directive that both know, or neither.
abbrev pub IsShared : ℕ → Type 0
IsShared c = (c ≢ 120) × (c ≢ 112) × (c ≢ 108) × (c ≢ 99)

-- A format whose directives are so.
abbrev pub AllShared : List ℕ → Type 0
AllShared [] = Unit {0}
AllShared (c ∷ []) = Unit {0}
AllShared (c ∷ d ∷ fmt) = ((c ≡ 37) × IsShared d × AllShared fmt) ⊎ ((c ≢ 37) × AllShared (d ∷ fmt))

-- The tables agree on the digits 0 to 9.
same_digit : (k : ℕ) → k < 10 → get_or User.digits k 0 ≡ get_or Kernel.digits k 0
same_digit zero h = refl
same_digit (suc zero) h = refl
same_digit (suc (suc zero)) h = refl
same_digit (suc (suc (suc zero))) h = refl
same_digit (suc (suc (suc (suc zero)))) h = refl
same_digit (suc (suc (suc (suc (suc zero))))) h = refl
same_digit (suc (suc (suc (suc (suc (suc zero)))))) h = refl
same_digit (suc (suc (suc (suc (suc (suc (suc zero))))))) h = refl
same_digit (suc (suc (suc (suc (suc (suc (suc (suc zero)))))))) h = refl
same_digit (suc (suc (suc (suc (suc (suc (suc (suc (suc zero))))))))) h = refl
same_digit (suc (suc (suc (suc (suc (suc (suc (suc (suc (suc k)))))))))) h = absurd (omega arith)

same_buf : (fuel x : ℕ) → buf_digits fuel Kernel.digits 10 x ≡ buf_digits fuel User.digits 10 x
unfolding buf_digits
same_buf zero x = refl
same_buf (suc fuel) x =
    ap₂ (λ d (rest : List ℕ). d ∷ (if x / 10 == 0 then [] else rest))
      (sym (same_digit (x % 10) (omega arith))) (same_buf fuel (x / 10))

same_printint : (xx : ℕ) → Kernel.printint xx 10 true ≡ User.printint xx 10 true
unfolding mit6s.Print.Kernel.printint mit6s.Print.User.printint
same_printint xx = elim (Bool-cases (leb (2 ^ 31) xx)) [
  | inl e ↦ rw e (ap (λ b. backwards (b ++ 45 ∷ [])) (same_buf 32 (u32 (2 ^ 32 - xx))))
  | inr e ↦ rw e (ap (λ b. backwards (b ++ [])) (same_buf 32 xx))
]

same_word :
    (f g : ℕ → List ℕ)
    → ((w : ℕ) → f w ≡ g w)
    → (args : List Arg) → next_word f args ≡ next_word g args
same_word f g e [] = refl
same_word f g e (Arg.word w ∷ args) = ap (λ s. some (s, args)) (e w)
same_word f g e (Arg.str s ∷ args) = refl

same_directive :
    (c : ℕ) (args : List Arg) → IsShared c → Kernel.directive c args ≡ User.directive c args
unfolding mit6s.Print.Kernel.directive mit6s.Print.User.directive
same_directive c args (nx, np, nl, nc) = elim (ℕ_discrete c 100) [
  | yes d ↦
      let e : (c == 100) ≡ true = ground arith in
      rw e (
        same_word (λ w. Kernel.printint (u32 w) 10 true) (λ w. User.printint (u32 w) 10 true)
          (λ w. same_printint (u32 w)) args)
  | no nd ↦ rw (==_ne c 100 nd, ==_ne c 120 nx, ==_ne c 112 np, ==_ne c 108 nl, ==_ne c 99 nc) refl
]

same_from :
    (fmt : List ℕ) (args : List Arg)
    → AllShared fmt
    → Kernel.printf_from fmt args ≡ User.vprintf_from false fmt args
unfolding mit6s.Print.Kernel.printf_from mit6s.Print.User.vprintf_from
same_from [] args a = refl
same_from (c ∷ []) args a = elim (Bool-cases (c == 37)) [ inl e ↦ rw e refl | inr e ↦ rw e refl ]
same_from (c ∷ d ∷ fmt) args (inl (e, shared, a)) =
    let z : (c == 37) ≡ true = ground arith in
    rw z (ap₂ and_then (same_directive d args shared) (fun_ext (λ rest. same_from fmt rest a)))
same_from (c ∷ d ∷ fmt) args (inr (ne, a)) =
    rw (==_ne c 37 ne) (ap (put_front (c ∷ [])) (same_from (d ∷ fmt) args a))

-- On a format whose directives mean the same to both (`%d`, `%s`, `%%` and those that neither
-- knows), the kernel's `printf` and the user's print the same, whatever the arguments are.
pub printf-vprintf :
    (fmt : List ℕ) (args : List Arg)
    → AllShared fmt
    → Kernel.printf (some fmt) args ≡ User.vprintf fmt args
unfolding mit6s.Print.Kernel.printf mit6s.Print.User.vprintf
printf-vprintf fmt args a = same_from fmt args a
