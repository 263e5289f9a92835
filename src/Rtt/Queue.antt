-- ===== src/Rtt/Queue.antt =====
-- rtt.c: the bytes that the host sends to the target, through the ring of a channel in the memory of
-- the target. What is unread in the ring, and then what the host has not sent yet, is a queue.
use blackmagic.Base.{ℕ, ◌+◌, ◌<◌, ◌≤◌, Option, some, [], Bytes, length, ◌≡◌, ◌≢◌, ◌⊎◌}
use blackmagic.Base.Words.{u32}
use blackmagic.Rtt.{Io, Channel, Retval, rtt_ok, idle, rtt_err}
use blackmagic.Rtt.Rings.{Filled}
use blackmagic.Rtt.Memory.{Memory}
use blackmagic.Rtt.Refill.{Queued}

-- What `read_rtt` has lost when it ends: at most one byte, and only with an error.
abbrev pub Lost : Retval → Bytes → Type 0
Lost rtt_ok lost = lost ≡ []
Lost idle lost = lost ≡ []
Lost rtt_err lost = length lost ≤ 1

module _ {W : Type 0} (io : Io W) (m : Memory io) where
  -- What `read_rtt` answers about a channel.
  pub record ReadQueued (c : Channel) (w : W) (o : Option (Retval × Channel × W)) : Type 0 where
    pub retval : Retval
    pub channel : Channel
    pub world : W
    pub lost : Bytes
    pub ended : o ≡ some (retval, channel, world)
    pub kept : (channel ≡ c) ⊎ Filled c channel
    pub queued : Queued io m c w channel world lost
    pub few : Lost retval lost

  -- The head is written apart from the ring.
  abbrev pub IsApart : ℕ → Channel → Type 0
  IsApart head_addr c =
      (k j : ℕ) → k < c.buf_size → j < 4 → u32 (c.buf_addr + k) ≢ u32 (head_addr + j)
