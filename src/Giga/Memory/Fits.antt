-- ===== src/Giga/Memory/Fits.antt =====
-- memory_collect (memory_telemetry.cpp) and memory_format (memory_format.cpp): the frame and its buffer.
use house_panel.Base.{
  ℕ, ◌+◌, ◌-◌, ◌^◌, ◌≤◌, ◌<◌, ◌≡◌, true, List, [], ◌∷◌, ◌++◌, arith, ◌==◌, Bytes, length, codes,
  length-append, take_length, if_both,
}
use mathlib.Core.Path.{subst}
use house_panel.Base.{ap, if_cases, Bool, true, ◌&&◌, ◌==◌}
use house_panel.Ota.Hex.{to_hex}
use house_panel.Giga.Memory.{memory_init}
use house_panel.Giga.Memory.{
  MemorySample, System, Stacks, add_stack, add_stacks, no_stacks, sample_of, memory_text,
  memory_format, memory_collect, memory_frame_capacity,
}

-- What snprintf writes for an unsigned number: at most as many digits as the largest of its width has.
pub record Decimals (decimal : ℕ → Bytes) : Type 0 where
  pub word_digits : (n : ℕ) → n < 2 ^ 32 → length (decimal n) ≤ 10
  pub long_digits : (n : ℕ) → n < 2 ^ 64 → length (decimal n) ≤ 20

-- The fields of the system's answers have their widths.
pub record IsMachine (y : System) : Type 0 where
  pub uptime_fits : y.uptime < 2 ^ 64
  pub current_fits : y.current_size < 2 ^ 32
  pub max_fits : y.max_size < 2 ^ 32
  pub reserved_fits : y.reserved_size < 2 ^ 32
  pub count_fits : y.alloc_cnt < 2 ^ 32
  pub fail_fits : y.alloc_fail_cnt < 2 ^ 32
  pub threads_fit : length y.threads ≤ 32
  pub used_fits : y.max_used < 2 ^ 32
  pub biggest_fits : y.free_biggest_size < 2 ^ 32

-- Words.
record IsSummed (t : Stacks) : Type 0 where
  reserved_fits : t.reserved < 2 ^ 32
  water_fits : t.high_water < 2 ^ 32
  free_fits : t.min_free < 2 ^ 32

add_stack-IsSummed : (t : Stacks) (x : ℕ × ℕ) → IsSummed t → IsSummed (add_stack t x)
add_stack-IsSummed t (size, free) h = record {
  reserved_fits = omega arith;
  water_fits = omega arith;
  free_fits = ground (arith, h.free_fits);
}

add_stacks-IsSummed : (xs : List (ℕ × ℕ)) (t : Stacks) → IsSummed t → IsSummed (add_stacks t xs)
add_stacks-IsSummed [] t h = h
add_stacks-IsSummed (x ∷ xs) t h = add_stacks-IsSummed xs (add_stack t x) (add_stack-IsSummed t x h)

-- The fields of a sample have their widths.
record IsSample (s : MemorySample) : Type 0 where
  uptime_fits : s.uptime_ms < 2 ^ 64
  heap_current_fits : s.heap_current < 2 ^ 32
  heap_peak_fits : s.heap_peak < 2 ^ 32
  heap_reserved_fits : s.heap_reserved < 2 ^ 32
  alloc_count_fits : s.alloc_count < 2 ^ 32
  alloc_failures_fits : s.alloc_failures < 2 ^ 32
  stack_high_water_fits : s.stack_high_water < 2 ^ 32
  stack_reserved_fits : s.stack_reserved < 2 ^ 32
  stack_count_fits : s.stack_count < 2 ^ 32
  stack_min_free_fits : s.stack_min_free < 2 ^ 32
  gui_used_fits : s.gui_used < 2 ^ 32
  gui_peak_fits : s.gui_peak < 2 ^ 32
  gui_total_fits : s.gui_total < 2 ^ 32
  gui_largest_free_fits : s.gui_largest_free < 2 ^ 32

memory_init-length :
    (ok : Bool) (produced first second : ℕ) (boot_id : Bytes)
    → memory_init ok produced first second ≡ (true, boot_id)
    → length boot_id ≤ 16
unfolding memory_init to_hex
memory_init-length ok produced first second boot_id e =
    if_cases (λ (q : Bool × Bytes). q ≡ (true, boot_id) → length boot_id ≤ 16) (ok && produced == 8)
      _ _ (λ t f. subst (λ b. length b ≤ 16) (ap (λ (q : Bool × Bytes). q.1) f) (omega arith))
      (λ t f. cc (ap (λ (q : Bool × Bytes). q.0) f)) e

module _ (decimal : ℕ → Bytes) (d : Decimals decimal) where
  word :
      (name : Bytes) (n : ℕ) (rest : Bytes) (m : ℕ)
      → n < 2 ^ 32
      → length rest ≤ m
      → length (name ++ (decimal n ++ rest)) ≤ length name + (10 + m)
  word name n rest m h r = omega (
    arith,
    length-append name (decimal n ++ rest),
    length-append (decimal n) rest,
    d.word_digits n h,
    r,
  )

  text_within :
      (start boot_id name : Bytes) (n : ℕ) (rest : Bytes) (m : ℕ)
      → length boot_id ≤ 16
      → length (decimal n) ≤ 20
      → length rest ≤ m
      → length (start ++ (boot_id ++ (name ++ (decimal n ++ rest))))
        ≤ length start + length name + 36 + m
  text_within start boot_id name n rest m b h r = omega (
    arith,
    b,
    h,
    r,
    length-append start (boot_id ++ (name ++ (decimal n ++ rest))),
    length-append boot_id (name ++ (decimal n ++ rest)),
    length-append name (decimal n ++ rest),
    length-append (decimal n) rest,
  )

  memory_text-length :
      (boot_id : Bytes) (s : MemorySample)
      → length boot_id ≤ 16
      → IsSample s
      → length (memory_text decimal boot_id s) < memory_frame_capacity
  unfolding memory_text
  memory_text-length boot_id s b h =
      let fields =
        (word (codes ",\"heap_current\":") s.heap_current _ 336 h.heap_current_fits (
          word (codes ",\"heap_peak\":") s.heap_peak _ 313 h.heap_peak_fits (
            word (codes ",\"heap_reserved\":") s.heap_reserved _ 286 h.heap_reserved_fits (
              word (codes ",\"alloc_count\":") s.alloc_count _ 261 h.alloc_count_fits (
                word (codes ",\"alloc_failures\":") s.alloc_failures _ 233 h.alloc_failures_fits (
                  word (codes ",\"stack_high_water\":") s.stack_high_water _ 203
                    h.stack_high_water_fits
                    (word (codes ",\"stack_reserved\":") s.stack_reserved _ 175
                      h.stack_reserved_fits
                      (word (codes ",\"stack_count\":") s.stack_count _ 150 h.stack_count_fits (
                        word (codes ",\"stack_min_free\":") s.stack_min_free _ 122
                          h.stack_min_free_fits
                          (word (codes ",\"gui_used\":") s.gui_used _ 100 h.gui_used_fits (
                            word (codes ",\"gui_peak\":") s.gui_peak _ 78 h.gui_peak_fits (
                              word (codes ",\"gui_total\":") s.gui_total _ 55 h.gui_total_fits (
                                word (codes ",\"gui_largest_free\":") s.gui_largest_free _ 25
                                  h.gui_largest_free_fits
                                  (if_both
                                    (λ b.
                                      length (codes ",\"stack_complete\":" ++ (b ++ codes "}"))
                                      ≤ 25)
                                    s.stack_complete (codes "true") (codes "false") (omega arith)
                                    (omega arith))))))))))))))) in
      let whole : length (memory_text decimal boot_id s) ≤ 451 =
        text_within (codes "{\"cmd\":\"MEMORY\",\"version\":1,\"boot_id\":\"") boot_id
          (codes "\",\"uptime_ms\":") s.uptime_ms _ 362 b (d.long_digits s.uptime_ms h.uptime_fits)
          fields in
      omega (arith, whole)

  sample_of-IsSample : (y : System) → IsMachine y → IsSample (sample_of y)
  unfolding sample_of
  sample_of-IsSample y m =
      let t = add_stacks-IsSummed y.threads no_stacks (record {
        reserved_fits = omega arith;
        water_fits = omega arith;
        free_fits = omega arith;
      }) in
      record {
        uptime_fits = m.uptime_fits;
        heap_current_fits = m.current_fits;
        heap_peak_fits = m.max_fits;
        heap_reserved_fits = m.reserved_fits;
        alloc_count_fits = m.count_fits;
        alloc_failures_fits = m.fail_fits;
        stack_high_water_fits = t.water_fits;
        stack_reserved_fits = t.reserved_fits;
        stack_count_fits = omega (arith, m.threads_fit);
        stack_min_free_fits =
            if_both (λ n. n < 2 ^ 32) (length y.threads == 0) _ _ (omega arith) t.free_fits;
        gui_used_fits = omega arith;
        gui_peak_fits = m.used_fits;
        gui_total_fits = omega arith;
        gui_largest_free_fits = m.biggest_fits;
      }

  -- Once memory_init has succeeded and the kernel can be locked, the frame that memory_collect writes is
  -- the whole text, within the 768 bytes of the buffer, whatever the widths of its fields let the
  -- counters be and for up to 32 threads. snprintf is assumed to write at most 10 digits of a 32-bit
  -- number and 20 of a 64-bit one.
  pub memory_collect_whole :
      (ok : Bool) (produced first second : ℕ) (boot_id old : Bytes) (y : System)
      → memory_init ok produced first second ≡ (true, boot_id)
      → IsMachine y
      → y.locks ≡ true
      → (let text = memory_text decimal boot_id (sample_of y) in
          memory_collect decimal true boot_id y memory_frame_capacity old ≡ (length text, text))
  unfolding memory_collect memory_format
  memory_collect_whole ok produced first second boot_id old y started m locked =
      let short = memory_init-length ok produced first second boot_id started in
      let fits = memory_text-length boot_id (sample_of y) short (sample_of-IsSample y m) in
      ground (
        arith,
        fits,
        locked,
        take_length (memory_frame_capacity - 1) (memory_text decimal boot_id (sample_of y))
            (omega (arith, fits)),
      )
