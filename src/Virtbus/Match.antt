-- ===== src/Virtbus/Match.antt =====
-- virtbus_match on the names that register_virtbus_device gives.
use linux_kernel_ldd.Prelude.{
  ℕ, ◌≡◌, refl, sym, ap, ◌∙◌, ◌↔◌, true, List, [], ◌∷◌, ◌++◌, append_assoc, arith, length, take,
  drop, take-append-drop,
}
use linux_kernel_ldd.Virtbus.{same_start, virtbus_match, registered_name}

same_start-append : (t more : List ℕ) → same_start (t ++ more) t ≡ true
unfolding same_start
same_start-append [] more = refl
same_start-append (c ∷ t) more = ground (arith, same_start-append t more)

same_start-take : (s t : List ℕ) → same_start s t ≡ true → take (length t) s ≡ t
unfolding same_start
same_start-take s [] h = ground arith
same_start-take [] (c ∷ t) h = ground arith
same_start-take (b ∷ s) (c ∷ t) h = ground (arith, same_start-take s t)

-- A device matches a driver exactly where its name starts with the driver's.
pub virtbus_match_iff :
    (dev_name driver_name : List ℕ)
    → (virtbus_match dev_name driver_name ≡ true)
      ↔ (take (length driver_name) dev_name ≡ driver_name)
unfolding virtbus_match
virtbus_match_iff dev_name driver_name = (
  same_start-take dev_name driver_name,
  λ h.
      let whole : driver_name ++ drop (length driver_name) dev_name ≡ dev_name =
        ap (λ t. t ++ drop (length driver_name) dev_name) (sym h)
        ∙ take-append-drop (length driver_name) dev_name in
      ap (λ s. same_start s driver_name) (sym whole)
      ∙ same_start-append driver_name (drop (length driver_name) dev_name),
)

-- Every device that is registered under a name matches the driver of that name, and any driver whose
-- name is the start of that one: names that start alike share their devices.
pub registered-match :
    (driver_name more digits : List ℕ)
    → virtbus_match (registered_name (driver_name ++ more) digits) driver_name ≡ true
unfolding virtbus_match registered_name
registered-match driver_name more digits =
    rw (append_assoc driver_name more (45 ∷ digits))
      (same_start-append driver_name (more ++ 45 ∷ digits))
