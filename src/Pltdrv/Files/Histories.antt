-- ===== src/Pltdrv/Files/Histories.antt =====
-- The open files of pltdrv_attr_dt.c over whole histories, device by device.
use linux_kernel_ldd.Prelude.{
  ℕ, ◌<◌, ◌≡◌, refl, Bool, true, ◌&&◌, Option, none, some, List, [], ◌∷◌, arith, ap, ◌∙◌, sym,
}
use mathlib.Core.Path.{ap₂}
use linux_kernel_ldd.Kernel.CharDriver.{CharDriver}
use linux_kernel_ldd.Pltdrv.Files.{Result, ready, World, Call, exec}
use linux_kernel_ldd.Pltdrv.Files.Apart.{Ask, serve, ask_of, spares, Apart, exec-Apart}

module _ (c : CharDriver) where
  open c use {Devc}

  -- A device by itself: what its callers get, and the device in the end.
  unfoldable pub serve_all : List Ask → Devc → List Result × Devc
  serve_all [] dev = ([], dev)
  serve_all (a ∷ asks) dev =
      let (first, next) = serve c a dev in
      let (rest, last) = serve_all asks next in (first ∷ rest, last)

  abbrev pub with_ask : Option Ask → List Ask → List Ask
  with_ask none asks = asks
  with_ask (some a) asks = a ∷ asks

  abbrev pub with_result : Option Ask → Result → List Result → List Result
  with_result none out rest = rest
  with_result (some a) out rest = out ∷ rest

  -- The calls of a history that are on the device, what they get, and the world after the history.
  unfoldable pub asks_of : ℕ → World c → List (Call c) → List Ask
  unfolding exec
  asks_of p w [] = []
  asks_of p w (call ∷ calls) = with_ask (ask_of c p w call) (asks_of p (exec c w call).1 calls)

  unfoldable pub results_of : ℕ → World c → List (Call c) → List Result
  unfolding exec
  results_of p w [] = []
  results_of p w (call ∷ calls) =
      let (out, w') = exec c w call in with_result (ask_of c p w call) out (results_of p w' calls)

  unfoldable pub after : World c → List (Call c) → World c
  unfolding exec
  after w [] = w
  after w (call ∷ calls) = after (exec c w call).1 calls

  abbrev pub all_spare : ℕ → List (Call c) → Bool
  all_spare p [] = true
  all_spare p (call ∷ calls) = spares c p call && all_spare p calls

  Apart-next :
      (p : ℕ) (dev : Devc) (o : Option Ask) (w : World c) (out : Result × World c)
      → Apart c p dev o w out
      → p < out.1.next
  Apart-next p dev none w (out, w') (at, lt) = lt
  Apart-next p dev (some a) w (out, w') (same, at, lt) = lt

  abbrev pub left_as : Option Ask → Devc → Devc
  left_as none dev = dev
  left_as (some a) dev = (serve c a dev).1

  Apart-heap :
      (p : ℕ) (dev : Devc) (o : Option Ask) (w : World c) (out : Result × World c)
      → Apart c p dev o w out
      → out.1.heap p ≡ ready (left_as o dev)
  Apart-heap p dev none w (out, w') (at, lt) = at
  Apart-heap p dev (some a) w (out, w') (same, at, lt) = at

  Apart-results :
      (p : ℕ) (dev : Devc) (o : Option Ask) (w : World c) (out : Result × World c) (asks : List Ask)
      (rest : List Result)
      → Apart c p dev o w out
      → rest ≡ (serve_all asks (left_as o dev)).0
      → with_result o out.0 rest ≡ (serve_all (with_ask o asks) dev).0
  unfolding serve_all
  Apart-results p dev none w (out, w') asks rest h e = e
  Apart-results p dev (some a) w (out, w') asks rest (same, at, lt) e = ap₂ ◌∷◌ same e

  serve_all-with :
      (o : Option Ask) (asks : List Ask) (dev : Devc)
      → (serve_all (with_ask o asks) dev).1 ≡ (serve_all asks (left_as o dev)).1
  unfolding serve_all
  serve_all-with none asks dev = refl
  serve_all-with (some a) asks dev = refl

  -- A device that is ready is as if alone: in every history in which its remove does not begin, the calls
  -- through its files, however many and whenever they were opened, get what these calls on the device itself
  -- give, one after the other, and leave it as they do. Other devices, which come, go and are used
  -- meanwhile, change nothing of this, nor do opens and closes.
  pub results_of-serve_all :
      (p : ℕ) (dev : Devc) (w : World c) (calls : List (Call c))
      → w.heap p ≡ ready dev
      → p < w.next
      → all_spare p calls ≡ true
      → (results_of p w calls ≡ (serve_all (asks_of p w calls) dev).0)
        × ((after w calls).heap p ≡ ready (serve_all (asks_of p w calls) dev).1)
  unfolding asks_of results_of after serve_all
  results_of-serve_all p dev w [] at lt s = (refl, at)
  results_of-serve_all p dev w (call ∷ calls) at lt s =
      let o = ask_of c p w call in
      let out = exec c w call in
      let one = exec-Apart c p dev w call at lt (ground (arith, s)) in
      let (results, left) =
        results_of-serve_all p (left_as o dev) out.1 calls (Apart-heap p dev o w out one)
          (Apart-next p dev o w out one) (ground (arith, s)) in
      (
        Apart-results p dev o w out (asks_of p out.1 calls) (results_of p out.1 calls) one results,
        left ∙ ap ready (sym (serve_all-with o (asks_of p out.1 calls) dev)),
      )
