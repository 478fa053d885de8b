-- ===== src/Giga/Memory.antt =====
-- memory_format.cpp and memory_telemetry.{h,cpp}: the panel's own memory, as a frame for the server.
pub mod Fits
use house_panel.Base.{
  ◌*◌, ℕ, ◌+◌, ◌-◌, ◌%◌, ◌^◌, Bool, true, false, not, ◌&&◌, ◌||◌, List, [], ◌∷◌, ◌++◌, ltb, leb,
  ◌==◌, if◌then◌else◌, Bytes, length, take, codes, ◌/◌,
}
use house_panel.Ota.Hex.{to_hex}

abbrev pub memory_frame_capacity : ℕ
memory_frame_capacity = 768

pub record MemorySample : Type 0 where
  pub uptime_ms : ℕ
  pub heap_current : ℕ
  pub heap_peak : ℕ
  pub heap_reserved : ℕ
  pub alloc_count : ℕ
  pub alloc_failures : ℕ
  pub stack_high_water : ℕ
  pub stack_reserved : ℕ
  pub stack_count : ℕ
  pub stack_min_free : ℕ
  pub gui_used : ℕ
  pub gui_peak : ℕ
  pub gui_total : ℕ
  pub gui_largest_free : ℕ
  pub stack_complete : Bool

-- `now - last` on uint64_t.
abbrev pub memory_due : ℕ → ℕ → Bool → Bool
memory_due now last first = first || leb 60_000 ((now + 2 ^ 64 - last) % 2 ^ 64)

-- What the operating system and LVGL say: the enumerated threads' stack sizes and free stack spaces.
pub record System : Type 0 where
  pub uptime : ℕ
  pub current_size : ℕ
  pub max_size : ℕ
  pub reserved_size : ℕ
  pub alloc_cnt : ℕ
  pub alloc_fail_cnt : ℕ
  pub locks : Bool
  pub thread_count : ℕ
  pub threads : List (ℕ × ℕ)
  pub total_size : ℕ
  pub free_size : ℕ
  pub max_used : ℕ
  pub free_biggest_size : ℕ

pub record Stacks : Type 0 where
  pub reserved : ℕ
  pub high_water : ℕ
  pub min_free : ℕ

-- The body of the loop over the threads.
abbrev pub add_stack : Stacks → ℕ × ℕ → Stacks
add_stack t (size, free) = record {
  reserved = (t.reserved + size) % 2 ^ 32;
  high_water = (t.high_water + (size + 2 ^ 32 - free) % 2 ^ 32) % 2 ^ 32;
  min_free = if ltb free t.min_free then free else t.min_free;
}

abbrev pub add_stacks : Stacks → List (ℕ × ℕ) → Stacks
add_stacks t [] = t
add_stacks t (x ∷ xs) = add_stacks (add_stack t x) xs

abbrev pub no_stacks : Stacks
no_stacks = record { reserved = 0; high_water = 0; min_free = 2 ^ 32 - 1 }

-- LV_MEM_SIZE
abbrev pub lv_mem_size : ℕ
lv_mem_size = 128 * 1024

unfoldable pub sample_of : System → MemorySample
sample_of y =
    let t = add_stacks no_stacks y.threads in
    let count = length y.threads in
    record {
      uptime_ms = y.uptime;
      heap_current = y.current_size;
      heap_peak = y.max_size;
      heap_reserved = y.reserved_size;
      alloc_count = y.alloc_cnt;
      alloc_failures = y.alloc_fail_cnt;
      stack_high_water = t.high_water;
      stack_reserved = t.reserved;
      stack_count = count;
      stack_min_free = if count == 0 then 0 else t.min_free;
      gui_used = (y.total_size + 2 ^ 32 - y.free_size) % 2 ^ 32;
      gui_peak = y.max_used;
      gui_total = lv_mem_size;
      gui_largest_free = y.free_biggest_size;
      stack_complete = leb y.thread_count 32 && count == y.thread_count;
    }

-- `decimal` is what snprintf writes for %lu and %llu.
module _ (decimal : ℕ → Bytes) where
  abbrev field : Bytes → ℕ → Bytes → Bytes
  field name n rest = name ++ (decimal n ++ rest)

  -- The text of the format string, before snprintf cuts it.
  unfoldable pub memory_text : Bytes → MemorySample → Bytes
  memory_text boot_id s =
      codes "{\"cmd\":\"MEMORY\",\"version\":1,\"boot_id\":\""
      ++ (boot_id
          ++ field (codes "\",\"uptime_ms\":") s.uptime_ms (
              field (codes ",\"heap_current\":") s.heap_current (
                field (codes ",\"heap_peak\":") s.heap_peak (
                  field (codes ",\"heap_reserved\":") s.heap_reserved (
                    field (codes ",\"alloc_count\":") s.alloc_count (
                      field (codes ",\"alloc_failures\":") s.alloc_failures (
                        field (codes ",\"stack_high_water\":") s.stack_high_water (
                          field (codes ",\"stack_reserved\":") s.stack_reserved (
                            field (codes ",\"stack_count\":") s.stack_count (
                              field (codes ",\"stack_min_free\":") s.stack_min_free (
                                field (codes ",\"gui_used\":") s.gui_used (
                                  field (codes ",\"gui_peak\":") s.gui_peak (
                                    field (codes ",\"gui_total\":") s.gui_total (
                                      field (codes ",\"gui_largest_free\":") s.gui_largest_free (
                                        codes ",\"stack_complete\":"
                                        ++ ((if s.stack_complete
                                              then codes "true"
                                              else codes "false")
                                            ++ codes "}"))))))))))))))))

  -- The length that it returns, and the buffer's text.
  unfoldable pub memory_format : ℕ → Bytes → MemorySample → ℕ × Bytes
  unfolding memory_text
  memory_format capacity boot_id s =
      let text = memory_text boot_id s in
      (if leb capacity (length text) then 0 else length text, take (capacity - 1) text)

  -- The state is `initialized` and `boot_id`; `old` is what the buffer holds.
  unfoldable pub memory_collect : Bool → Bytes → System → ℕ → Bytes → ℕ × Bytes
  unfolding memory_format sample_of
  memory_collect initialized boot_id y capacity old =
      if not initialized
      then (0, old)
      else if not y.locks
      then (0, old)
      else memory_format capacity boot_id (sample_of y)

-- `%08lx` of a word is that of its bytes, the highest first.
abbrev word_bytes : ℕ → Bytes
word_bytes w = w / 2 ^ 24 ∷ w / 2 ^ 16 % 256 ∷ w / 2 ^ 8 % 256 ∷ w % 256 ∷ []

-- `initialized` and `boot_id`, from whether trng_get_bytes succeeds, how many bytes it says, and two words.
unfoldable pub memory_init : Bool → ℕ → ℕ → ℕ → Bool × Bytes
unfolding to_hex
memory_init ok produced first second =
    if ok && produced == 8
    then (true, to_hex (word_bytes first ++ word_bytes second))
    else (false, [])
