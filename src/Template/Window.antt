-- ===== src/Template/Window.antt =====
-- The window of numbers that one tick works on.
use blockchain_task_server.Common.{
  ℕ, ◌+◌, ◌-◌, ◌≤◌, ◌<◌, ◌++◌, ◌≡◌, ◌∙◌, ap, sym, arith, ltb, if◌then◌else◌,
}
use blockchain_task_server.BigNumber.{BigNumberLib, IsExact, number, sub, to_number}
use blockchain_task_server.BigNumber.Naturals.{is_greater_than-sub, add-number, sub-number}
use blockchain_task_server.Arrays.{fill_sequence_number}
use blockchain_task_server.Arrays.Sequences.{fill_sequence_number_split}
use blockchain_task_server.Template.{chunk_end}

module _ {B : Type 0} (lib : BigNumberLib B) (exact : IsExact lib) where
  pub chunk_end_lem :
      (chunk s e : ℕ)
      → s ≤ e
      → chunk_end lib chunk s e ≡ (if ltb chunk (e - s) then s + chunk else e)
  unfolding chunk_end
  chunk_end_lem chunk s e h =
      rw (is_greater_than-sub lib exact e s chunk h, add-number lib exact s chunk)

  -- If the big numbers compute exactly, the start is below the end and the chunk is not 0, then the
  -- window is not empty, does not pass the end, and holds no more than a chunk.
  pub chunk_end_bounds :
      (chunk s e : ℕ)
      → s < e
      → 0 < chunk
      → let end = chunk_end lib chunk s e in (s < end) × (end ≤ e) × (end - s ≤ chunk)
  chunk_end_bounds chunk s e h k = ground (arith, chunk_end_lem chunk s e)

  -- If the big numbers compute exactly, the start is below the end and the chunk is not 0, then the
  -- numbers of a window followed by those that it leaves for later ticks are all the numbers from the
  -- start to the end, each once and in order.
  pub window_split :
      (chunk s e : ℕ)
      → s < e
      → 0 < chunk
      → let end = chunk_end lib chunk s e in
        fill_sequence_number (to_number lib (sub lib (number end) (number s))) s
          ++ fill_sequence_number (e - end) end
        ≡ fill_sequence_number (e - s) s
  window_split chunk s e h k =
      let end = chunk_end lib chunk s e in
      let (after, before, _) = chunk_end_bounds chunk s e h k in
      let place : end ≡ s + (end - s) = omega arith in
      ap (λ m. fill_sequence_number m s ++ fill_sequence_number (e - end) end)
        (sub-number lib exact end s (omega arith))
      ∙ (ap (λ m. fill_sequence_number (end - s) s ++ fill_sequence_number (e - end) m) place
          ∙ (sym (fill_sequence_number_split (end - s) (e - end) s)
              ∙ ap (λ m. fill_sequence_number m s) (omega arith)))
