-- ===== src/Pltdrv/Files/Live.antt =====
-- Which memory the open files of pltdrv_attr_dt.c reach.
use linux_kernel_ldd.Prelude.{
  ℕ, zero, suc, ◌<◌, ◌≡◌, refl, Bool, true, false, ◌||◌, Option, none, some, List, [], ◌∷◌, ◌++◌,
  arith, ◌==◌, ap,
}
use linux_kernel_ldd.Kernel.CharDriver.{CharDriver}
use linux_kernel_ldd.Pltdrv.Files.{
  private_data, closed, keeps, used, Memory, freed, unset, ready, World, registered, delete_at,
  open_fifo, finds_unset, put,
}

used-append :
    (p : ℕ) (files : List (Option ℕ)) (f : Option ℕ)
    → used p (files ++ (f ∷ [])) ≡ used p files || keeps p f
unfolding used
used-append p [] f = ground arith
used-append p (g ∷ files) f = ground (arith, used-append p files f)

used-closed :
    (p i : ℕ) (files : List (Option ℕ)) → used p (closed i files) ≡ true → used p files ≡ true
unfolding used
used-closed p i [] h = h
used-closed p zero (f ∷ files) h = ground arith
used-closed p (suc i) (f ∷ files) h = ground (arith, used-closed p i files)

pub used-private_data :
    (p i : ℕ) (files : List (Option ℕ)) → private_data i files ≡ some p → used p files ≡ true
unfolding used
used-private_data p i [] h = ground (arith, h)
used-private_data p zero (none ∷ files) h = ground (arith, h)
used-private_data p zero (some q ∷ files) h = ground (arith, h)
used-private_data p (suc i) (f ∷ files) h = ground (arith, used-private_data p i files h)

abbrev pub is_ready : {D : Type 0} → Memory D → Bool
is_ready (ready dev) = true
is_ready _ = false

abbrev pub is_held : {D : Type 0} → Memory D → Bool
is_held freed = false
is_held _ = true

module _ (c : CharDriver) where
  open c use {Devc, devnr}

  abbrev pub has_number : ℕ → Memory Devc → Bool
  has_number n freed = false
  has_number n (unset dev) = devnr dev == n
  has_number n (ready dev) = devnr dev == n

  has_number_lem : (n : ℕ) (m : Memory Devc) → has_number n m ≡ true → is_held m ≡ true
  has_number_lem n freed h = h
  has_number_lem n (unset dev) h = refl
  has_number_lem n (ready dev) h = refl

  -- Every open file leads to a device that is ready, and every node to a device of its number.
  pub record IsLive (w : World c) : Type 0 where
    pub files : (p : ℕ) → used p w.files ≡ true → is_ready (w.heap p) ≡ true
    pub below : (p : ℕ) → is_held (w.heap p) ≡ true → p < w.next
    pub nodes : (n p : ℕ) → w.cdevs n ≡ some p → has_number n (w.heap p) ≡ true

  pub registered-IsLive : (dev : Devc) (w : World c) → IsLive w → IsLive (registered c dev w)
  registered-IsLive dev w l = record {
    files = λ p h. ground (arith, l.files p h, l.below p);
    below = λ p h. ground (arith, l.below p);
    nodes = λ n p h. ground (arith, h, l.nodes n p, l.below p, has_number_lem n (w.heap p));
  }

  -- A device stays at its pointer, with its number, and ready if a file of it is open.
  pub stays-IsLive :
      (p : ℕ) (m : Memory Devc) (w : World c)
      → (used p w.files ≡ true → is_ready m ≡ true)
      → is_held (w.heap p) ≡ true
      → ((n : ℕ) → has_number n (w.heap p) ≡ true → has_number n m ≡ true)
      → IsLive w
      → IsLive (record w { heap = put w.heap p m })
  stays-IsLive p m w open_ready held same l = record {
    files = λ q h. ground (arith, l.files q h, open_ready);
    below = λ q h. ground (arith, l.below q);
    nodes = λ n q h. ground (arith, l.nodes n q h, same n);
  }

  pub delete_at-IsLive :
      (p : ℕ) (found : Memory Devc) (w : World c)
      → w.heap p ≡ found
      → IsLive w
      → IsLive (delete_at c p found w)
  delete_at-IsLive p freed w at l = l
  delete_at-IsLive p (ready dev) w at l = l
  delete_at-IsLive p (unset dev) w at l = record {
    files = λ q h. ground (arith, l.files q h, ap is_ready at);
    below = λ q h. ground (arith, l.below q);
    nodes = λ n q h. ground (arith, h, at, l.nodes n q);
  }

  pub open_fifo-IsLive :
      (n : ℕ) (found : Option ℕ) (w : World c)
      → w.cdevs n ≡ found
      → finds_unset c found w ≡ false
      → IsLive w
      → IsLive (open_fifo c found w).1
  unfolding open_fifo
  open_fifo-IsLive n none w at set l = l
  open_fifo-IsLive n (some p) w at set l = record {
    files = λ q h. ground (arith, used-append q w.files (some p), l.files q, l.nodes n p at, set);
    below = l.below;
    nodes = l.nodes;
  }

  pub closes-IsLive :
      (i : ℕ) (w : World c) → IsLive w → IsLive (record w { files = closed i w.files })
  closes-IsLive i w l = record {
    files = λ p h. l.files p (used-closed p i w.files h);
    below = l.below;
    nodes = l.nodes;
  }
