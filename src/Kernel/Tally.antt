-- ===== src/Kernel/Tally.antt =====
-- Logs of Kernel/Replay against the same objects in another order.
use linux_kernel_ldd.Prelude.{
  if_lem, ℕ, ◌+◌, ◌≡◌, refl, sym, ap, ◌∙◌, true, false, Option, none, some, List, [], ◌∷◌, ◌++◌,
  arith, ◌==◌, ◌&&◌, if◌then◌else◌,
}
use mathlib.Core.Path.{ap₂, subst}
use linux_kernel_ldd.Kernel.Replay.{
  Resource, kind, index, same, Event, Log, acquire, release, keep, give_back, act, replay_from,
}

abbrev hit : Resource → Resource → ℕ
hit r s = if same r s then 1 else 0

-- How often `r` is held.
abbrev pub tally : Resource → List Resource → ℕ
tally r [] = 0
tally r (s ∷ held) = hit r s + tally r held

pub tally-append :
    (r : Resource) (xs ys : List Resource) → tally r (xs ++ ys) ≡ tally r xs + tally r ys
tally-append r [] ys = omega arith
tally-append r (x ∷ xs) ys = omega (arith, tally-append r xs ys)

abbrev pub Alike : List Resource → List Resource → Type 0
Alike a b = (r : Resource) → tally r a ≡ tally r b

Alike-nil : (a : List Resource) → Alike a [] → a ≡ []
Alike-nil [] h = refl
Alike-nil (r ∷ a) h = absurd (ground (arith, h r))

numbers_self : (a b : ℕ) → let n : ℕ = if a == a && b == b then 1 else 0 in n ≡ 1
numbers_self a b = ground arith

equal_both : (a b c d : ℕ) → a == b && c == d ≡ true → (a ≡ b) × (c ≡ d)
equal_both a b c d h = ground arith

hit-same : (x r s : Resource) → same r s ≡ true → hit x s ≡ hit x r
hit-same x r s h =
    let (kinds, indices) = equal_both (kind r) (kind s) (index r) (index s) h in
    ap₂ (λ k i. if kind x == k && index x == i then 1 else 0) (sym kinds) (sym indices)

hit_self : (r : Resource) → hit r r ≡ 1
hit_self r = numbers_self (kind r) (index r)

-- What `give_back` leaves of the counts.
abbrev Given : Resource → List Resource → Option (List Resource) → Type 0
Given r held none = tally r held ≡ 0
Given r held (some out) = (x : Resource) → tally x out + hit x r ≡ tally x held

keep-Given :
    (r s : Resource) (held : List Resource) (left : Option (List Resource))
    → same r s ≡ false
    → Given r held left
    → Given r (s ∷ held) (keep s left)
keep-Given r s held none other g = ground (arith, other, g)
keep-Given r s held (some out) other g = λ x. omega (arith, g x)

give_back-Given : (r : Resource) (held : List Resource) → Given r held (give_back r held)
give_back-Given r [] = refl
give_back-Given r (s ∷ held) =
    if_lem (Given r (s ∷ held)) (same r s) (λ e. λ x. omega (arith, hit-same x r s e))
      (λ other. keep-Given r s held (give_back r held) other (give_back-Given r held))

-- Two logs fault both, or leave the same objects but for their order.
abbrev pub BothAlike : Option (List Resource) → Option (List Resource) → Type 0
BothAlike none none = Unit
BothAlike (some a) (some b) = Alike a b
BothAlike _ _ = ⊥

BothAlike-refl : (left : Option (List Resource)) → BothAlike left left
BothAlike-refl none = tt
BothAlike-refl (some a) = λ r. refl

pub BothAlike-of_eq : (x y : Option (List Resource)) → x ≡ y → BothAlike x y
BothAlike-of_eq x y e = subst (BothAlike x) e (BothAlike-refl x)

pub BothAlike-trans :
    (x y z : Option (List Resource)) → BothAlike x y → BothAlike y z → BothAlike x z
BothAlike-trans none none none h g = tt
BothAlike-trans (some a) (some b) (some c) h g = λ r. h r ∙ g r
BothAlike-trans none none (some c) h g = absurd g
BothAlike-trans none (some b) z h g = absurd h
BothAlike-trans (some a) none z h g = absurd h
BothAlike-trans (some a) (some b) none h g = absurd g

pub BothAlike-nil : (left : Option (List Resource)) → BothAlike left (some []) → left ≡ some []
BothAlike-nil none h = absurd h
BothAlike-nil (some a) h = ap some (Alike-nil a h)

Given-BothAlike :
    (r : Resource) (held held' : List Resource) (left left' : Option (List Resource))
    → Alike held held'
    → Given r held left
    → Given r held' left'
    → BothAlike left left'
Given-BothAlike r held held' none none h g g' = tt
Given-BothAlike r held held' none (some b) h g g' = absurd (omega (arith, h r, g, g' r, hit_self r))
Given-BothAlike r held held' (some a) none h g g' = absurd (omega (arith, h r, g r, g', hit_self r))
Given-BothAlike r held held' (some a) (some b) h g g' = λ x. omega (arith, h x, g x, g' x)

act-BothAlike :
    (e : Event) (held held' : List Resource)
    → Alike held held'
    → BothAlike (act e held) (act e held')
act-BothAlike (acquire r) held held' h = λ x. omega (arith, h x)
act-BothAlike (release r) held held' h =
    Given-BothAlike r held held' _ _ h (give_back-Given r held) (give_back-Given r held')

-- A log does the same to the same objects in another order.
pub replay_from-BothAlike :
    (log : Log) (left left' : Option (List Resource))
    → BothAlike left left'
    → BothAlike (replay_from left log) (replay_from left' log)
replay_from-BothAlike [] left left' h = h
replay_from-BothAlike (e ∷ log) none none h = tt
replay_from-BothAlike (e ∷ log) (some a) (some b) h =
    replay_from-BothAlike log (act e a) (act e b) (act-BothAlike e a b h)
replay_from-BothAlike (e ∷ log) (some a) none h = absurd h
replay_from-BothAlike (e ∷ log) none (some b) h = absurd h
