-- ===== src/Rtt/Limits.antt =====
-- rtt.c: the limits that the code puts on the number of channels and on the poll interval.
use blackmagic.Base.{ℕ, ◌+◌, ◌<◌, ◌≤◌, Bool, true, false, ◌&&◌, ◌||◌, ltb, ◌==◌, ◌≡◌, refl, arith}
use blackmagic.Base.{if_lem}
use blackmagic.Base.Words.{u32}
use blackmagic.Rtt.{Io, word_at}
use blackmagic.Rtt.Poll.{
  Core, Rtt, clamp_up, clamp_down, accept_block, after_poll, next_poll_ms, max_chan,
}

next_poll_ms_bounds :
    (busy err : Bool) (lo hi ms : ℕ)
    → lo ≤ hi
    → (lo ≤ next_poll_ms busy err lo hi ms) × (next_poll_ms busy err lo hi ms ≤ hi)
unfolding next_poll_ms
next_poll_ms_bounds busy err lo hi ms h = (ground arith, ground arith)

-- After a poll, with an error or without, the poll interval lies between its limits, which do not
-- change, when they are in order.
pub after_poll_interval :
    (now : ℕ) (busy err : Bool) (r : Rtt)
    → r.min_poll_ms ≤ r.max_poll_ms
    → (let r' = after_poll now busy err r in
        (r'.min_poll_ms ≡ r.min_poll_ms)
        × (r'.max_poll_ms ≡ r.max_poll_ms)
        × (r'.min_poll_ms ≤ r'.poll_ms)
        × (r'.poll_ms ≤ r'.max_poll_ms))
unfolding after_poll
after_poll_interval now busy false r h =
    let (lo, hi) = next_poll_ms_bounds busy false r.min_poll_ms r.max_poll_ms r.poll_ms h in
    (refl, refl, lo, hi)
after_poll_interval now busy true r h =
    let (lo, hi) = next_poll_ms_bounds busy true r.min_poll_ms r.max_poll_ms r.poll_ms h in
    (refl, refl, lo, hi)

-- The limits that `find_rtt` puts on the two counts of channels.
clamp_bounds : (up n : ℕ) → up ≤ max_chan → clamp_down up n ≤ 255 → up + clamp_down up n ≤ max_chan
clamp_bounds up n h small = ground arith

-- When `find_rtt` accepts a control block that was not found before, whatever stands in the
-- memory, there is a channel, and there are 16 at most in the two directions together.
pub accept_block_channels :
    {W : Type 0} (io : Io W) (core : Core W) (r : Rtt) (w : W)
    → r.found ≡ false
    → (accept_block io core r w).0.found ≡ true
    → (let r' = (accept_block io core r w).0 in
        (0 < r'.num_up_chan + r'.num_down_chan) × (r'.num_up_chan + r'.num_down_chan ≤ max_chan))
unfolding accept_block
accept_block_channels {W} io core r w unfound =
    let counts = io.mem_read (u32 (r.cbaddr + 16)) 8 w in
    let up = clamp_up (word_at 0 counts.1) in
    let down = clamp_down up (word_at 4 counts.1) in
    let P : Rtt × W → Type 0 = λ x.
      x.0.found ≡ true
      → (0 < x.0.num_up_chan + x.0.num_down_chan)
        × (x.0.num_up_chan + x.0.num_down_chan ≤ max_chan) in
    if_lem P counts.0 (λ _ f. absurd (ground arith))
      (λ _.
        if_lem P (ltb 255 up || ltb 255 down) (λ _ f. absurd (ground arith))
          (λ small.
            if_lem P (up == 0 && down == 0) (λ _ f. absurd (ground arith))
              (λ there.
                if_lem P (io.mem_read r.cbaddr 24 counts.2).0 (λ _ f. absurd (ground arith))
                  (λ _ f. (
                    ground arith,
                    clamp_bounds up (word_at 4 counts.1) (ground arith) (ground arith),
                  )))))
