-- ===== src/Jiq/Page.antt =====
-- The runs of the printing work of jiq.c.
use linux_kernel_ldd.Prelude.{
  ℕ, ◌+◌, ◌≤◌, ◌<◌, ◌≡◌, ◌⊎◌, inl, inr, true, false, Option, none, some, List, [], ◌∷◌, arith,
  length,
}
use mathlib.Core.Option
use linux_kernel_ldd.Jiq.{limit, Clientdata, jiq_print, print_runs, read_wq_show}

-- Every line has bytes.
abbrev pub AllPrint : List (ℕ × ℕ) → Type 0
AllPrint [] = Unit
AllPrint ((j, line) ∷ runs) = (0 < line) × AllPrint runs

-- The printing came to its end, past the limit.
abbrev pub IsDone : ℕ → Option (ℕ × Clientdata) → Type 0
IsDone page_size none = ⊥
IsDone page_size (some (lines, client)) = limit page_size < client.len

pub IsDone-map :
    (page_size : ℕ) (r : Option (ℕ × Clientdata))
    → IsDone page_size r
    → IsDone page_size (Option.map (λ p. (p.0 + 1, p.1)) r)
IsDone-map page_size none h = h
IsDone-map page_size (some (lines, client)) h = h

compared : (m n : ℕ) → (m < n) ⊎ (n ≤ m)
compared m n = ground arith

jiq_print_stops :
    (page_size heading line j : ℕ) (client : Clientdata)
    → limit page_size < client.len
    → let (again, client') = jiq_print page_size heading line j client in
      (again ≡ false) × (limit page_size < client'.len)
unfolding jiq_print
jiq_print_stops page_size heading line j client h = ground arith

jiq_print_goes_on :
    (page_size heading line j : ℕ) (client : Clientdata)
    → client.len ≤ limit page_size
    → 0 < line
    → let (again, client') = jiq_print page_size heading line j client in
      (again ≡ true) × (client.len < client'.len)
unfolding jiq_print
jiq_print_goes_on page_size heading line j client h p = ground arith

pub print_runs-IsDone_from :
    (page_size heading : ℕ) (runs : List (ℕ × ℕ)) (client : Clientdata)
    → AllPrint runs
    → 0 < length runs
    → limit page_size + 1 < client.len + length runs
    → IsDone page_size (print_runs page_size heading runs client)
unfolding print_runs
print_runs-IsDone_from page_size heading [] client p some_runs h = absurd (omega arith)
print_runs-IsDone_from page_size heading ((j, line) ∷ runs) client p some_runs h =
    elim (compared (limit page_size) client.len) [
      | inl past ↦
          let (again, full) = jiq_print_stops page_size heading line j client past in
          rw (IsDone, again) full
      | inr low ↦
          let (again, grows) = jiq_print_goes_on page_size heading line j client low p.0 in
          let client' = (jiq_print page_size heading line j client).1 in
          rw (IsDone, again)
            (IsDone-map page_size _ (
              print_runs-IsDone_from page_size heading runs client' p.1 (omega arith)
                (omega arith)))
    ]

-- From what `jiq_read_wq_show` sets up, the printing ends with the wake-up of the reader, past the
-- limit, within as many runs as the limit has bytes and two more, whatever the lines' lengths are, as
-- long as each has a byte.
pub print_runs-IsDone :
    (page_size heading j : ℕ) (runs : List (ℕ × ℕ))
    → AllPrint runs
    → limit page_size + 1 < length runs
    → IsDone page_size (print_runs page_size heading runs (read_wq_show j))
unfolding read_wq_show
print_runs-IsDone page_size heading j runs p h =
    print_runs-IsDone_from page_size heading runs (read_wq_show j) p (omega arith) (omega arith)
