-- ===== src/Kernel/Lifetime.antt =====
-- A driver on a bus, from its load to its unload. Devices come and go in any order, and the driver core
-- takes those that are left from it when it goes.
use linux_kernel_ldd.Prelude.{
  ℕ, zero, suc, ◌≡◌, refl, sym, ap, ◌∙◌, true, false, Option, some, List, [], ◌∷◌, ◌++◌, arith,
  if◌then◌else◌, if_lem, is_nonzero, ltb, length,
}
use linux_kernel_ldd.Kernel.Replay.{Resource, Log, Outcome, replay_from, replay_from-append}
use linux_kernel_ldd.Kernel.Tally.{
  tally, tally-append, BothAlike, BothAlike-of_eq, BothAlike-trans, BothAlike-nil,
  replay_from-BothAlike,
}

-- What a driver does with devices, and the laws of its probe and its remove: a probe that fails leaves
-- what is held as it was; one that succeeds adds `objects` to it, which the remove gives back.
pub record Driver : Type 1 where
  -- A device that comes, with what the kernel answers to the calls of its probe.
  pub Coming : Type 0
  pub State : Type 0
  pub probe : State → Coming → Outcome
  -- The driver after a successful probe, and after a remove.
  pub counted : State → State
  pub uncounted : State → State
  -- The remove of a device that came in that state.
  pub remove : State → Coming → Log
  pub objects : State → Coming → List Resource
  pub fails :
      (s : State) (c : Coming) (held : List Resource)
      → is_nonzero (probe s c).0 ≡ true
      → replay_from (some held) (probe s c).1 ≡ some held
  pub binds :
      (s : State) (c : Coming) (held : List Resource)
      → is_nonzero (probe s c).0 ≡ false
      → replay_from (some held) (probe s c).1 ≡ some (objects s c ++ held)
  pub removes :
      (s : State) (c : Coming) (held : List Resource)
      → replay_from (some (objects s c ++ held)) (remove s c) ≡ some held

-- A device comes, or the bound device at a position goes.
pub data Event (C : Type 0) : Type 0 where
  comes : C → Event C
  goes : ℕ → Event C

module _ (d : Driver) where
  open d use {State, Coming, probe, counted, uncounted, remove, objects}

  -- A device that is bound, with the state of the driver when it came.
  abbrev pub Bound : Type 0
  Bound = State × Coming

  pub record Bus : Type 0 where
    pub state : State
    pub bound : List Bound

  -- The bound device at a position is removed; what it leaves, and the others.
  pub taken_out : ℕ → List Bound → Log × List Bound
  taken_out i [] = ([], [])
  taken_out zero (b ∷ bs) = (remove b.0 b.1, bs)
  taken_out (suc i) (b ∷ bs) = let rest = taken_out i bs in (rest.0, b ∷ rest.1)

  abbrev goes_at : ℕ → Bus → Log × Bus
  goes_at i s =
      let out = taken_out i s.bound in (out.0, record { state = uncounted s.state; bound = out.1 })

  pub step : Bus → Event Coming → Log × Bus
  unfolding taken_out
  step s (comes c) =
      let out = probe s.state c in
      if is_nonzero out.0
      then (out.1, s)
      else (out.1, record { state = counted s.state; bound = (s.state, c) ∷ s.bound })
  step s (goes i) = if ltb i (length s.bound) then goes_at i s else ([], s)

  pub churn : Bus → List (Event Coming) → Log × Bus
  unfolding step
  churn s [] = ([], s)
  churn s (e ∷ events) =
      let first = step s e in let rest = churn first.1 events in (first.0 ++ rest.0, rest.1)

  -- The driver core removes the devices that are left.
  pub detach : List Bound → Log
  detach [] = []
  detach (b ∷ bs) = remove b.0 b.1 ++ detach bs

  -- What is held beside `loaded` for bound devices.
  expected : List Bound → List Resource → List Resource
  expected [] loaded = loaded
  expected (b ∷ bs) loaded = objects b.0 b.1 ++ expected bs loaded

  tally-expected :
      (r : Resource) (bs : List Bound) (more loaded : List Resource)
      → tally r (expected bs (more ++ loaded)) ≡ tally r (more ++ expected bs loaded)
  unfolding expected
  tally-expected r [] more loaded = refl
  tally-expected r (b ∷ bs) more loaded =
      let objs = objects b.0 b.1 in
      omega (
        arith,
        tally-append r objs (expected bs (more ++ loaded)),
        tally-expected r bs more loaded,
        tally-append r more (objs ++ expected bs loaded),
        tally-append r more (expected bs loaded),
        tally-append r objs (expected bs loaded),
      )

  taken_out_lem :
      (i : ℕ) (bs : List Bound) (loaded : List Resource)
      → let out = taken_out i bs in
        BothAlike (replay_from (some (expected bs loaded)) out.0) (some (expected out.1 loaded))
  unfolding taken_out expected
  taken_out_lem i [] loaded = λ r. refl
  taken_out_lem zero (b ∷ bs) loaded = BothAlike-of_eq _ _ (d.removes b.0 b.1 (expected bs loaded))
  taken_out_lem (suc i) (b ∷ bs) loaded =
      let objs = objects b.0 b.1 in
      let out = taken_out i bs in
      let swapped =
        replay_from-BothAlike out.0 (some (objs ++ expected bs loaded))
          (some (expected bs (objs ++ loaded))) (λ r. sym (tally-expected r bs objs loaded)) in
      BothAlike-trans _ _ _ swapped (
        BothAlike-trans _ _ _ (taken_out_lem i bs (objs ++ loaded))
          (λ r. tally-expected r out.1 objs loaded))

  -- What is held is what the bound devices and `loaded` make, in some order.
  IsSound : List Resource → Option (List Resource) → Bus → Type 0
  IsSound loaded held s = BothAlike held (some (expected s.bound loaded))

  comes-IsSound :
      (s : Bus) (c : Coming) (loaded : List Resource)
      → let out = step s (comes c) in
        IsSound loaded (replay_from (some (expected s.bound loaded)) out.0) out.1
  unfolding step IsSound expected
  comes-IsSound s c loaded =
      let out = probe s.state c in
      let held = expected s.bound loaded in
      if_lem
        (λ (r : Log × Bus).
          BothAlike (replay_from (some held) r.0) (some (expected r.1.bound loaded)))
        (is_nonzero out.0) (λ failed. BothAlike-of_eq _ _ (d.fails s.state c held failed))
        (λ bound. BothAlike-of_eq _ _ (d.binds s.state c held bound))

  goes-IsSound :
      (s : Bus) (i : ℕ) (loaded : List Resource)
      → let out = step s (goes i) in
        IsSound loaded (replay_from (some (expected s.bound loaded)) out.0) out.1
  unfolding step IsSound
  goes-IsSound s i loaded =
      if_lem
        (λ (r : Log × Bus).
          BothAlike (replay_from (some (expected s.bound loaded)) r.0)
            (some (expected r.1.bound loaded)))
        (ltb i (length s.bound)) (λ there. taken_out_lem i s.bound loaded) (λ beyond. λ r. refl)

  step-IsSound :
      (s : Bus) (e : Event Coming) (loaded : List Resource)
      → let out = step s e in
        IsSound loaded (replay_from (some (expected s.bound loaded)) out.0) out.1
  step-IsSound s (comes c) loaded = comes-IsSound s c loaded
  step-IsSound s (goes i) loaded = goes-IsSound s i loaded

  churn-IsSound :
      (s : Bus) (events : List (Event Coming)) (loaded : List Resource)
      (held : Option (List Resource))
      → IsSound loaded held s
      → let out = churn s events in IsSound loaded (replay_from held out.0) out.1
  unfolding churn IsSound
  churn-IsSound s [] loaded held h = h
  churn-IsSound s (e ∷ events) loaded held h =
      let first = step s e in
      let rest = churn first.1 events in
      let begun = replay_from-BothAlike first.0 held (some (expected s.bound loaded)) h in
      BothAlike-trans _ _ _ (BothAlike-of_eq _ _ (replay_from-append held first.0 rest.0)) (
        churn-IsSound first.1 events loaded (replay_from held first.0)
          (BothAlike-trans _ _ _ begun (step-IsSound s e loaded)))

  detach_lem :
      (bs : List Bound) (loaded : List Resource)
      → replay_from (some (expected bs loaded)) (detach bs) ≡ some loaded
  unfolding detach expected
  detach_lem [] loaded = refl
  detach_lem (b ∷ bs) loaded =
      replay_from-append (some (objects b.0 b.1 ++ expected bs loaded)) (remove b.0 b.1) (detach bs)
      ∙ ap (λ h. replay_from h (detach bs)) (d.removes b.0 b.1 (expected bs loaded))
      ∙ detach_lem bs loaded

  -- The driver is loaded, devices come and go, and it is unloaded with the devices that are left.
  pub whole_log : Log → State → List (Event Coming) → Log → Log
  whole_log up s events down =
      let out = churn (record { state = s; bound = [] }) events in
      up ++ (out.0 ++ (detach out.1.bound ++ down))

  pub whole_log_lem :
      (up down : Log) (s : State) (events : List (Event Coming)) (loaded : List Resource)
      → replay_from (some []) up ≡ some loaded
      → replay_from (some loaded) down ≡ some []
      → replay_from (some []) (whole_log up s events down) ≡ some []
  unfolding whole_log IsSound expected
  whole_log_lem up down s events loaded start end =
      let fresh : Bus = record { state = s; bound = [] } in
      let out = churn fresh events in
      let tail = detach out.1.bound ++ down in
      let churned =
        replay_from-BothAlike tail _ _
          (churn-IsSound fresh events loaded (some loaded) (λ r. refl)) in
      let ended =
        replay_from-append (some (expected out.1.bound loaded)) (detach out.1.bound) down
        ∙ ap (λ h. replay_from h down) (detach_lem out.1.bound loaded)
        ∙ end in
      replay_from-append (some []) up (out.0 ++ tail)
      ∙ ap (λ h. replay_from h (out.0 ++ tail)) start
      ∙ replay_from-append (some loaded) out.0 tail
      ∙ BothAlike-nil _ (BothAlike-trans _ _ _ churned (BothAlike-of_eq _ _ ended))
