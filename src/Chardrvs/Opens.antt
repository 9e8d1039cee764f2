-- ===== src/Chardrvs/Opens.antt =====
-- chardrvs_open and chardrvs_release between threads: the test of `ref_cntr` and the `atomic_inc` or
-- `atomic_dec` after it are two steps, and any number of threads take theirs in any order.
use linux_kernel_ldd.Prelude.{
  ℕ, zero, suc, ◌+◌, ◌^◌, ◌≤◌, ◌<◌, ◌≡◌, refl, ◌∙◌, true, false, ◌==◌, if◌then◌else◌, if_lem, put,
  sym, pos, Bool, ltb, ◌&&◌, ◌-◌, ap, arith,
}
use linux_kernel_ldd.Chardrvs.{Dev, open_refused, count_user, release_dev, word}

-- Where a thread stands: it has no file, it is in `chardrvs_open` and past the test, it has a file, or
-- it is in `chardrvs_release` and past the test.
pub data Pc : Type 0 where
  outside : Pc
  let_in : Pc
  opened : Pc
  releasing : Pc

-- The two steps of `chardrvs_release`: its test, of an `int`, and its `atomic_dec`.
abbrev pub is_used : {F : Type 0} → Dev F → Bool
is_used d = ltb 0 d.ref_cntr && ltb d.ref_cntr (2 ^ 31)

abbrev pub drop_user : {F : Type 0} → Dev F → Dev F
drop_user d = record d { ref_cntr = word (d.ref_cntr + (2 ^ 32 - 1)) }

-- One after the other they are `chardrvs_release`.
release_dev_lem :
    {F : Type 0} (d : Dev F) → release_dev d ≡ (pos 0, if is_used d then drop_user d else d)
unfolding release_dev
release_dev_lem d = ground arith

module _ (F : Type 0) where
  pub record State : Type 0 where
    pub dev : Dev F
    pub pc : ℕ → Pc

  -- One step of one of the first `threads` threads.
  pub data Step (threads : ℕ) (s : State) : State → Type 0 where
    passes :
        (i : ℕ)
        → i < threads
        → s.pc i ≡ outside
        → open_refused s.dev ≡ false
        → Step threads s (record { dev = s.dev; pc = put s.pc i let_in })
    is_refused :
        (i : ℕ) → i < threads → s.pc i ≡ outside → open_refused s.dev ≡ true → Step threads s s
    counts :
        (i : ℕ)
        → i < threads
        → s.pc i ≡ let_in
        → Step threads s (record { dev = count_user s.dev; pc = put s.pc i opened })
    leaves :
        (i : ℕ)
        → i < threads
        → s.pc i ≡ opened
        → is_used s.dev ≡ true
        → Step threads s (record { dev = s.dev; pc = put s.pc i releasing })
    leaves_unused :
        (i : ℕ)
        → i < threads
        → s.pc i ≡ opened
        → is_used s.dev ≡ false
        → Step threads s (record { dev = s.dev; pc = put s.pc i outside })
    drops :
        (i : ℕ)
        → i < threads
        → s.pc i ≡ releasing
        → Step threads s (record { dev = drop_user s.dev; pc = put s.pc i outside })

  pub data Reach (threads : ℕ) (s : State) : State → Type 0 where
    here : Reach threads s s
    next : {t u : State} → Reach threads s t → Step threads t u → Reach threads s u

  -- Two threads without a file open a device that has one place left: they can both be let in, and then
  -- there are more users than the limit.
  pub open_race :
      (threads : ℕ) (s : State) (i j : ℕ)
      → i < threads
      → j < threads
      → (i == j) ≡ false
      → s.pc i ≡ outside
      → s.pc j ≡ outside
      → s.dev.ref_cntr + 1 ≡ s.dev.usrs_cnt
      → s.dev.usrs_cnt < 2 ^ 31
      → (t : State) × Reach threads s t
        × (t.pc i ≡ opened)
        × (t.pc j ≡ opened)
        × (t.dev.usrs_cnt < t.dev.ref_cntr)
  open_race threads s i j below_i below_j other out_i out_j one small =
      let tested =
        next (next here (passes i below_i out_i (ground arith)))
          (passes j below_j (ground (arith, other)) (ground arith)) in
      let counted =
        next (next tested (counts i below_i (ground (arith, other))))
          (counts j below_j (ground (arith, other))) in
      (_, counted, ground (arith, other), ground (arith, other), ground arith)

abbrev pub as_number : Pc → ℕ
as_number opened = 1
as_number releasing = 1
as_number _ = 0

-- The files open among the first threads, until their `atomic_dec`.
pub opened_below : ℕ → (ℕ → Pc) → ℕ
opened_below zero pc = 0
opened_below (suc n) pc = as_number (pc n) + opened_below n pc

opened_below-above :
    (n i : ℕ) (p : Pc) (pc : ℕ → Pc) → n ≤ i → opened_below n (put pc i p) ≡ opened_below n pc
unfolding opened_below
opened_below-above zero i p pc h = refl
opened_below-above (suc n) i p pc h = ground (arith, opened_below-above n i p pc (omega arith))

opened_below-put :
    (n i : ℕ) (p : Pc) (pc : ℕ → Pc)
    → i < n
    → opened_below n (put pc i p) + as_number (pc i) ≡ opened_below n pc + as_number p
unfolding opened_below
opened_below-put zero i p pc h = absurd (omega arith)
opened_below-put (suc n) i p pc h =
    if_lem
      (λ p'.
        as_number p' + opened_below n (put pc i p) + as_number (pc i)
        ≡ (as_number (pc n) + opened_below n pc) + as_number p)
      (n == i)
      (λ e.
        let at : n ≡ i = ground (arith, e) in
        omega (arith, opened_below-above n i p pc (omega arith), ap (λ k. as_number (pc k)) at))
      (λ e. omega (arith, opened_below-put n i p pc (ground (arith, e, h))))

opened_below-outside : (n : ℕ) → opened_below n (λ i. outside) ≡ 0
unfolding opened_below
opened_below-outside zero = refl
opened_below-outside (suc n) = omega (arith, opened_below-outside n)

opened_below-bounded : (n : ℕ) (pc : ℕ → Pc) → opened_below n pc ≤ n
unfolding opened_below
opened_below-bounded zero pc = omega arith
opened_below-bounded (suc n) pc = ground (arith, opened_below-bounded n pc)

module _ {F : Type 0} where
  abbrev CountsFiles : ℕ → State F → Type 0
  CountsFiles threads s = s.dev.ref_cntr ≡ opened_below threads s.pc

  Step-CountsFiles :
      (threads : ℕ) {s t : State F}
      → threads < 2 ^ 31
      → Step F threads s t
      → CountsFiles threads s
      → CountsFiles threads t
  Step-CountsFiles threads {s} small (passes i below out ok) h =
      ground (arith, h, out, opened_below-put threads i let_in s.pc below)
  Step-CountsFiles threads small (is_refused i below out full) h = h
  Step-CountsFiles threads {s} small (counts i below inside) h = ground (
    arith,
    h,
    inside,
    opened_below-put threads i opened s.pc below,
    opened_below-bounded threads (put s.pc i opened),
  )
  Step-CountsFiles threads {s} small (leaves i below has used) h =
      ground (arith, h, has, opened_below-put threads i releasing s.pc below)
  Step-CountsFiles threads {s} small (leaves_unused i below has unused) h = ground (
    arith,
    h,
    has,
    unused,
    opened_below-put threads i outside s.pc below,
    opened_below-bounded threads s.pc,
  )
  Step-CountsFiles threads {s} small (drops i below has) h = ground (
    arith,
    h,
    has,
    opened_below-put threads i outside s.pc below,
    opened_below-bounded threads s.pc,
  )

  -- Also where opens and releases of fewer than 2 ^ 31 threads overlap in any way, from a device without
  -- users: `ref_cntr` is the number of the files that are open, so that none is lost or counted twice, and
  -- it is 0 again when all are released.
  pub ref_cntr-opened_below :
      (threads : ℕ) (d : Dev F) {s : State F}
      → threads < 2 ^ 31
      → d.ref_cntr ≡ 0
      → Reach F threads (record { dev = d; pc = λ i. outside }) s
      → s.dev.ref_cntr ≡ opened_below threads s.pc
  ref_cntr-opened_below threads d small none_open here =
      none_open ∙ sym (opened_below-outside threads)
  ref_cntr-opened_below threads d small none_open (next r st) =
      Step-CountsFiles threads small st (ref_cntr-opened_below threads d small none_open r)
