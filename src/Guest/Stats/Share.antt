-- ===== src/Guest/Stats/Share.antt =====
-- The percentage that a sample reports (stats.rs).
use firecracker_lab.Prelude.{
  Text, ℕ, ◌+◌, ◌-◌, ◌*◌, ◌/◌, ◌%◌, ◌^◌, ◌≤◌, ◌<◌, true, ltb, Option, none, some, ◌≡◌, refl, ◌∙◌,
  arith,
}
use firecracker_lab.Guest.Machine.{Stats}
use firecracker_lab.Guest.Stats.{
  busy_pct, ticked, beat, sample, contents_of, available, read_cpu_ticks, read_mem_available_bytes,
}

quotient-le : (a d k : ℕ) → 0 < d → a ≤ k * d → a / d ≤ k
quotient-le a d k p h = grind arith

busy_pct-le : (total idle : ℕ) → 0 < total → busy_pct total idle ≤ 100
unfolding busy_pct
busy_pct-le total idle p = quotient-le (100 * (total - idle) % 2 ^ 64) total 100 p (omega arith)

ticked-le : (ticks : Option (ℕ × ℕ)) (s : Stats) → s.cpu_pct ≤ 100 → (ticked ticks s).cpu_pct ≤ 100
unfolding ticked
ticked-le none s h = h
ticked-le (some (total, idle)) s h =
    ground (arith, busy_pct-le (total - s.prev_cpu_total) (idle - s.prev_cpu_idle))

available-cpu_pct : (o : Option ℕ) (s : Stats) → (available o s).cpu_pct ≡ s.cpu_pct
unfolding available
available-cpu_pct none s = refl
available-cpu_pct (some b) s = refl

-- A sample keeps the percentage at most 100, whatever the two files say.
pub sample-le :
    (now : ℕ) (stat meminfo : Option Text) (s : Stats)
    → s.cpu_pct ≤ 100
    → (sample now stat meminfo s).cpu_pct ≤ 100
unfolding sample beat
sample-le now stat meminfo s h =
    rw available-cpu_pct
      (ticked-le (contents_of read_cpu_ticks stat) (record s { last_beat = now }) h)

available-status : (o : Option ℕ) (s : Stats) → (available o s).status ≡ s.status
unfolding available
available-status none s = refl
available-status (some b) s = refl

ticked-status : (ticks : Option (ℕ × ℕ)) (s : Stats) → (ticked ticks s).status ≡ s.status
unfolding ticked
ticked-status none s = refl
ticked-status (some (total, idle)) s = refl

pub sample-status :
    (now : ℕ) (stat meminfo : Option Text) (s : Stats)
    → (sample now stat meminfo s).status ≡ s.status
unfolding sample beat
sample-status now stat meminfo s =
    available-status (contents_of read_mem_available_bytes meminfo)
      (ticked (contents_of read_cpu_ticks stat) (record s { last_beat = now }))
    ∙ ticked-status (contents_of read_cpu_ticks stat) (record s { last_beat = now })

quotient_bounds : (a d : ℕ) → 0 < d → (a / d * d ≤ a) × (a < (a / d + 1) * d)
quotient_bounds a d p = grind arith

-- After a sample whose ticks are ahead of those of the sample before by less than 2^64 / 100, the
-- percentage is that of the ticks since then that were not idle, rounded down.
pub sample-cpu_pct :
    (now total idle : ℕ) (stat : Text) (meminfo : Option Text) (s : Stats)
    → read_cpu_ticks stat ≡ some (total, idle)
    → s.prev_cpu_total < total
    → 100 * (total - s.prev_cpu_total) < 2 ^ 64
    → ((sample now (some stat) meminfo s).cpu_pct * (total - s.prev_cpu_total)
        ≤ 100 * (total - s.prev_cpu_total - (idle - s.prev_cpu_idle)))
      × (100 * (total - s.prev_cpu_total - (idle - s.prev_cpu_idle))
          < ((sample now (some stat) meminfo s).cpu_pct + 1) * (total - s.prev_cpu_total))
unfolding sample beat contents_of ticked busy_pct
sample-cpu_pct now total idle stat meminfo s read ahead small =
    rw (available-cpu_pct, read, forward, exact)
      (quotient_bounds (100 * busy) elapsed (omega arith))
  where
    elapsed : ℕ
    elapsed = total - s.prev_cpu_total

    busy : ℕ
    busy = elapsed - (idle - s.prev_cpu_idle)

    forward : ltb 0 elapsed ≡ true
    forward = ground arith

    exact : 100 * busy % 2 ^ 64 ≡ 100 * busy
    exact = omega arith
