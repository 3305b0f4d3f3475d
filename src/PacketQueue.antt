-- ===== src/PacketQueue.antt =====
-- src/core/PacketQueue.hpp: the bounded queue between the capture thread and its consumer. Each
-- operation holds the mutex for its whole body, so a history of calls is a sequence of them.
-- `pop` waits until the queue is not empty: here it is the call at a time when it is not.
pub mod Order
use netprobe_cpp.Base.{
  ℕ, suc, ◌+◌, ◌≤◌, Option, none, some, Bool, leb, ltb, if◌then◌else◌, List, [], ◌∷◌, ◌++◌, length,
  is_empty,
}

-- The head of the list is the front, the oldest packet.
pub record PacketQueue {ℓ} (A : Type ℓ) : Type ℓ where
  pub queue : List A
  pub max_size : ℕ
  pub dropped_packets : ℕ

module _ {ℓ} {A : Type ℓ} where
  pub make : ℕ → PacketQueue A
  make max_size = record {
    queue = [];
    max_size = if ltb 0 max_size then max_size else 1;
    dropped_packets = 0;
  }

  unfoldable pub drop_front : List A → List A
  drop_front [] = []
  drop_front (a ∷ rest) = rest

  -- A full queue loses its oldest packet to the new one.
  unfoldable pub push : PacketQueue A → A → PacketQueue A
  push q a =
      if leb q.max_size (length q.queue)
      then record q {
        queue = drop_front q.queue ++ a ∷ [];
        dropped_packets = q.dropped_packets + 1;
      }
      else record q { queue = q.queue ++ a ∷ [] }

  unfoldable pub take_front : PacketQueue A → List A → Option (A × PacketQueue A)
  take_front q [] = none
  take_front q (a ∷ rest) = some (a, record q { queue = rest })

  unfoldable pub try_pop : PacketQueue A → Option (A × PacketQueue A)
  try_pop q = take_front q q.queue

  unfoldable pub size : PacketQueue A → ℕ
  size q = length q.queue

  pub empty : PacketQueue A → Bool
  empty q = is_empty q.queue

  unfoldable pub clear : PacketQueue A → PacketQueue A
  clear q = record q { queue = [] }

-- The calls that the two threads make.
pub data Call {ℓ} (A : Type ℓ) : Type ℓ where
  pushes : A → Call A
  pops : Call A

-- The queue, and the packets that were handed out, oldest first.
pub record History {ℓ} (A : Type ℓ) : Type ℓ where
  pub state : PacketQueue A
  pub popped : List A

module _ {ℓ} {A : Type ℓ} where
  pub after_pop : History A → Option (A × PacketQueue A) → History A
  after_pop h none = h
  after_pop h (some (a, q)) = record { state = q; popped = h.popped ++ a ∷ [] }

  pub step : History A → Call A → History A
  step h (pushes a) = record h { state = push h.state a }
  step h pops = after_pop h (try_pop h.state)

  pub run : History A → List (Call A) → History A
  run h [] = h
  run h (c ∷ cs) = run (step h c) cs

  -- The packets that a history pushes, oldest first.
  pub pushed : List (Call A) → List A
  pushed [] = []
  pushed (pushes a ∷ cs) = a ∷ pushed cs
  pushed (pops ∷ cs) = pushed cs
