-- ===== src/Sockstat/Memory.antt =====
-- The bytes behind the pages.
use infra_pulse.Base.{ℕ, ◌*◌, ◌%◌, ◌^◌, ◌<◌, true, ltb, ◌≡◌, arith, some, [], ◌∷◌, refl}
use infra_pulse.Base.Int.{pos}
use infra_pulse.Base.Text.{codes}
use infra_pulse.Sockstat.{of_bits, mem_bytes}

of_bits-small : (n : ℕ) → n < 2 ^ 63 → of_bits (n % 2 ^ 64) ≡ pos n
of_bits-small n h =
    let m : n % 2 ^ 64 ≡ n = omega arith in
    let l : ltb n (2 ^ 63) ≡ true = ground arith in rw (m, l) refl

-- As long as they fit, the bytes of the pages are their number times the size of a page.
pub mem_bytes-exact :
    (page_size n : ℕ)
    → n * page_size < 2 ^ 63
    → mem_bytes page_size (some (pos n)) ≡ (codes "mem_bytes", some (pos (n * page_size))) ∷ []
mem_bytes-exact page_size n h = rw (of_bits-small (n * page_size) h) refl
