-- ===== src/Pltdrv/Files/Steps.antt =====
-- Single steps of the files of pltdrv_attr_dt.c.
use linux_kernel_ldd.Prelude.{
  ℕ, suc, ◌+◌, ◌≡◌, refl, Bool, Option, some, none, List, [], ◌∷◌, ◌++◌, ap, ◌∙◌, ℤ, is_nonzero,
  false, arith, length, if◌then◌else◌, put_self,
}
use linux_kernel_ldd.Kernel.CharDriver.{CharDriver}
use linux_kernel_ldd.Pltdrv.Files.{
  done, private_data, Memory, freed, unset, ready, World, registers, uninstalls, deletes, opens,
  writes, reads, registered, set_up_at, sets_up, uninstall_at, delete_at, open_fifo, write_at,
  read_at, write_file, read_file, exec, put,
}

suc_add : (n i : ℕ) → suc n + i ≡ suc (n + i)
suc_add n i = omega arith

-- The last of the files, and the last two.
pub private_data-last :
    (files : List (Option ℕ)) (f : Option ℕ) → private_data (length files) (files ++ (f ∷ [])) ≡ f
private_data-last [] f = refl
private_data-last (g ∷ files) f = private_data-last files f

pub private_data-two :
    (files : List (Option ℕ)) (f g : Option ℕ)
    → let all = (files ++ (f ∷ [])) ++ (g ∷ []) in
      (private_data (length files) all ≡ f) × (private_data (length files + 1) all ≡ g)
private_data-two [] f g = (refl, refl)
private_data-two (h ∷ files) f g =
    let (first, second) = private_data-two files f g in
    (
      first,
      ap (λ i. private_data i (h ∷ ((files ++ (f ∷ [])) ++ (g ∷ [])))) (suc_add (length files) 1)
          ∙ second,
    )

module _ (c : CharDriver) where
  open c use {Devc, devnr}

  pub opens_lem :
      (w : World c) (n p : ℕ)
      → w.cdevs n ≡ some p
      → exec c w (opens n) ≡ (done, record w { files = w.files ++ (some p ∷ []) })
  unfolding exec open_fifo
  opens_lem w n p node = ap (λ o. open_fifo c o w) node

  pub writes_lem :
      (w : World c) (i p : ℕ) (m : Memory Devc) (signal : Bool) (buf : List ℕ) (count : ℕ)
      → private_data i w.files ≡ some p
      → w.heap p ≡ m
      → exec c w (writes i signal buf count) ≡ write_at c p m signal buf count w
  unfolding exec write_file
  writes_lem w i p m signal buf count file at =
      ap (λ f. write_file c f signal buf count w) file
      ∙ ap (λ o. write_at c p o signal buf count w) at

  pub reads_lem :
      (w : World c) (i p : ℕ) (m : Memory Devc) (signal : Bool) (room count : ℕ)
      → private_data i w.files ≡ some p
      → w.heap p ≡ m
      → exec c w (reads i signal room count) ≡ read_at c p m signal room count w
  unfolding exec read_file
  reads_lem w i p m signal room count file at =
      ap (λ f. read_file c f signal room count w) file
      ∙ ap (λ o. read_at c p o signal room count w) at

  -- The two steps of a remove.
  pub uninstalls-deletes :
      (w : World c) (p : ℕ) (dev : Devc)
      → w.heap p ≡ ready dev
      → (exec c (exec c w (uninstalls p)).1 (deletes p)).1 ≡ record w {
        heap = put (put w.heap p (unset dev)) p freed;
        cdevs = put w.cdevs (devnr dev) none;
      }
  unfolding exec
  uninstalls-deletes w p dev at =
      let torn : World c = record w { heap = put w.heap p (unset dev) } in
      ap (λ m. let w1 = uninstall_at c p m w in delete_at c p (w1.heap p) w1) at
      ∙ ap (λ m. delete_at c p m torn) (put_self w.heap p (unset dev))

  -- A probe whose `kfifo_alloc` succeeds.
  pub registers-sets_up :
      (w : World c) (alloc : ℤ) (dev : Devc)
      → is_nonzero (c.setup alloc dev).0 ≡ false
      → (exec c (exec c w (registers dev)).1 (sets_up w.next alloc)).1
        ≡ record (registered c dev w) {
          heap = put (put w.heap w.next (unset dev)) w.next (ready (c.setup alloc dev).1);
        }
  unfolding exec
  registers-sets_up w alloc dev well =
      let w1 = registered c dev w in
      ap (λ m. set_up_at c w.next alloc m w1) (put_self w.heap w.next (unset dev))
      ∙ ap
          (λ (b : Bool).
            let made = (c.setup alloc dev).1 in
            let m : Memory Devc = if b then unset made else ready made in
            let after : World c = record w1 { heap = put w1.heap w.next m } in after)
          well
