-- ===== src/Pltdrv/Numbers.antt =====
-- The numbers that pltdrv_probe gives to devices of the device tree.
use linux_kernel_ldd.Prelude.{
  ℕ, zero, suc, ◌+◌, ◌^◌, ◌<◌, ◌≡◌, ◌≢◌, refl, Bool, true, false, ◌||◌, List, [], ◌∷◌, arith, ◌==◌,
  if◌then◌else◌,
}
use linux_kernel_ldd.Pltdrv.{PrvtDrv, PlatformDevice, data_id_of, probed, removed}

-- The driver with the identities of its bound devices, the last bound first.
pub record Bound : Type 0 where
  pub drv : PrvtDrv
  pub ids : List ℕ

pub bind : PlatformDevice → Bound → Bound
bind ofdev b = record { drv = probed b.drv; ids = data_id_of b.drv ofdev ∷ b.ids }

-- `ids` without `i`.
pub without : ℕ → List ℕ → List ℕ
without i [] = []
without i (j ∷ js) = if i == j then js else j ∷ without i js

pub unbind : ℕ → Bound → Bound
unbind i b = record { drv = removed b.drv; ids = without i b.ids }

pub has : ℕ → List ℕ → Bool
has i [] = false
has i (j ∷ js) = i == j || has i js

-- `n - 1` down to 0.
unfoldable pub countdown : ℕ → List ℕ
countdown zero = []
countdown (suc n) = n ∷ countdown n

-- `n` devices are bound, with the numbers below `n`.
abbrev pub IsDense : ℕ → Bound → Type 0
IsDense n b = (b.drv.nr_devcs_probed ≡ n) × (b.ids ≡ countdown n)

-- Devices of the device tree that come one by one, and go in the reverse order, have the numbers from
-- 0 on, all different.
pub bind-IsDense :
    (n : ℕ) (ofdev : PlatformDevice) (b : Bound)
    → n + 1 < 2 ^ 32
    → ofdev.match ≡ true
    → IsDense n b
    → IsDense (suc n) (bind ofdev b) × IsDense n (unbind n (bind ofdev b))
unfolding bind unbind without data_id_of countdown
bind-IsDense n ofdev b small m h = ground arith

has-without : (i j : ℕ) (js : List ℕ) → i ≢ j → has j (without i js) ≡ has j js
unfolding has without
has-without i j [] h = refl
has-without i j (k ∷ ks) h = ground (arith, has-without i j ks)

-- Where fewer than 2 ^ 32 devices have the numbers from 0 on and any but the last goes, the next device of the device tree is given the number of the
-- last one, which is still bound: two devices with one number.
pub number_taken :
    (n i : ℕ) (ofdev : PlatformDevice) (b : Bound)
    → suc n < 2 ^ 32
    → IsDense (suc n) b
    → i < n
    → ofdev.match ≡ true
    → (data_id_of (unbind i b).drv ofdev ≡ n) × (has n (unbind i b).ids ≡ true)
unfolding unbind data_id_of countdown has
number_taken n i ofdev b small h lt m = ground (arith, has-without i n (countdown (suc n)))

-- Beside `n` devices of the device tree a device of the board code with the identity `n + 1` is bound: the
-- next device of the device tree is given its number.
pub board_number_taken :
    (n : ℕ) (board ofdev : PlatformDevice) (b : Bound)
    → n + 1 < 2 ^ 32
    → IsDense n b
    → board.match ≡ false
    → board.id ≡ n + 1
    → ofdev.match ≡ true
    → let b' = bind board b in (data_id_of b'.drv ofdev ≡ n + 1) × (has (n + 1) b'.ids ≡ true)
unfolding bind data_id_of has
board_number_taken n board ofdev b small h no_match id m = ground (arith, h, id)
