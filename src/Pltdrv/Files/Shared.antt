-- ===== src/Pltdrv/Files/Shared.antt =====
-- Two files of one device of pltdrv_attr_dt.c.
use linux_kernel_ldd.Prelude.{
  ℕ, ◌+◌, ◌≡◌, Bool, some, List, [], ◌∷◌, ◌++◌, ap, ◌∙◌, length, put_self,
}
use linux_kernel_ldd.Kernel.CharDriver.{CharDriver}
use linux_kernel_ldd.Pltdrv.Files.{
  Result, replied, ready, World, opens, writes, reads, write_at, read_at, exec, put,
}
use linux_kernel_ldd.Pltdrv.Files.Steps.{private_data-two, opens_lem, writes_lem, reads_lem}

module _ (c : CharDriver) where
  -- Two opens of the node of a device that is ready: what is written through the first file and then read
  -- through the second one is what a write to the device and then a read of it give.
  pub opened_files_share :
      (w : World c) (n p : ℕ) (dev : c.Devc) (signal : Bool) (buf : List ℕ) (count room wanted : ℕ)
      → w.cdevs n ≡ some p
      → w.heap p ≡ ready dev
      → let i : ℕ = length w.files in
        let (wrote, w') =
          exec c (exec c (exec c w (opens n)).1 (opens n)).1 (writes i signal buf count) in
        let (got, w'') = exec c w' (reads (i + 1) signal room wanted) in
        let (out, taken, dev') = c.write signal buf count dev in
        let (out', given, dev'') = c.read signal room wanted dev' in
        (wrote ≡ replied out taken) × (got ≡ replied out' given)
  unfolding write_at read_at
  opened_files_share w n p dev signal buf count room wanted node at =
      let i : ℕ = length w.files in
      let once : World c = record w { files = w.files ++ (some p ∷ []) } in
      let twice : World c = record w { files = once.files ++ (some p ∷ []) } in
      let opened =
        ap (λ (r : Result × World c). (exec c r.1 (opens n)).1) (opens_lem c w n p node)
        ∙ ap (λ (r : Result × World c). r.1) (opens_lem c once n p node) in
      let last = private_data-two w.files (some p) (some p) in
      let wrote =
        ap (λ w2. exec c w2 (writes i signal buf count)) opened
        ∙ writes_lem c twice i p (ready dev) signal buf count last.0 at in
      let dev' = (c.write signal buf count dev).2 in
      let got =
        ap (λ (r : Result × World c). exec c r.1 (reads (i + 1) signal room wanted)) wrote
        ∙ reads_lem c (record twice { heap = put w.heap p (ready dev') }) (i + 1) p (ready dev')
            signal room wanted last.1 (put_self w.heap p (ready dev')) in
      (ap (λ (r : Result × World c). r.0) wrote, ap (λ (r : Result × World c). r.0) got)
