-- ===== src/PacketQueue/Order.antt =====
-- The contract of the queue of src/core/PacketQueue.hpp.
use mathlib.Core.List.{append_assoc, append-nil}
use mathlib.Core.Path.{subst}
use netprobe_cpp.Base.{
  ℕ, ◌+◌, ◌≤◌, ◌≡◌, refl, sym, ap, ◌∙◌, arith, leb, List, [], ◌∷◌, ◌++◌, length, length-append,
  none, some, Bool-cases, inl, inr,
}
use netprobe_cpp.PacketQueue.{
  PacketQueue, make, drop_front, push, take_front, try_pop, Call, pushes, pops, History, after_pop,
  step, run, pushed,
}

-- `xs` is `ys` without `n` of its elements, in the same order.
pub data Without {ℓ} {A : Type ℓ} : List A → List A → ℕ → Type ℓ where
  nil : {n : ℕ} → n ≡ 0 → Without [] [] n
  keep : (a : A) {xs ys : List A} {n : ℕ} → Without xs ys n → Without (a ∷ xs) (a ∷ ys) n
  skip : (a : A) {xs ys : List A} {m n : ℕ} → n ≡ m + 1 → Without xs ys m → Without xs (a ∷ ys) n

module _ {ℓ} {A : Type ℓ} where
  Without-keep_end :
      (b : A) {xs ys : List A} {n : ℕ} → Without xs ys n → Without (xs ++ b ∷ []) (ys ++ b ∷ []) n
  Without-keep_end b (nil e) = keep b (nil e)
  Without-keep_end b (keep a w) = keep a (Without-keep_end b w)
  Without-keep_end b (skip a e w) = skip a e (Without-keep_end b w)

  Without-skip_end :
      (b : A) {xs ys : List A} {n : ℕ} → Without xs ys n → Without xs (ys ++ b ∷ []) (n + 1)
  Without-skip_end b (nil e) = skip b (omega arith) (nil refl)
  Without-skip_end b (keep a w) = keep a (Without-skip_end b w)
  Without-skip_end b (skip a e w) = skip a (omega arith) (Without-skip_end b w)

  pub length-Without : {xs ys : List A} {n : ℕ} → Without xs ys n → length ys ≡ length xs + n
  length-Without (nil e) = omega arith
  length-Without (keep a w) = omega (arith, length-Without w)
  length-Without (skip a e w) = omega (arith, length-Without w)

-- After the pushes `before`: the queue holds the last of them, within its bound; of those before
-- them, the ones that were popped came out in order, and as many are missing as were counted.
pub record IsFifo {ℓ} {A : Type ℓ} (before popped : List A) (q : PacketQueue A) : Type ℓ where
  pub front : List A
  pub split : before ≡ front ++ q.queue
  pub order : Without popped front q.dropped_packets
  pub bounded : length q.queue ≤ q.max_size
  pub positive : 1 ≤ q.max_size

module _ {ℓ} {A : Type ℓ} where
  regroup :
      (a : A) (front queue : List A) {before : List A}
      → before ≡ front ++ queue
      → before ++ a ∷ [] ≡ front ++ (queue ++ a ∷ [])
  regroup a front queue e = rw e (append_assoc front queue (a ∷ []))

  move_end : (a : A) (front rest : List A) → front ++ (a ∷ rest) ≡ (front ++ a ∷ []) ++ rest
  move_end a front rest = sym (append_assoc front (a ∷ []) rest)

  pub push-IsFifo :
      (a : A) (before popped : List A) (q : PacketQueue A)
      → IsFifo before popped q
      → IsFifo (before ++ a ∷ []) popped (push q a)
  unfolding push drop_front
  push-IsFifo a before popped q f = elim (Bool-cases (leb q.max_size (length q.queue))) [
    | inl full ↦ rw full (push_full q.queue f.split f.bounded (ground arith))
    | inr room ↦ rw room (record {
      front = f.front;
      split = regroup a f.front q.queue f.split;
      order = f.order;
      bounded = ground (arith, length-append q.queue (a ∷ []));
      positive = f.positive;
    })
  ]
    where
      push_full :
          (queue : List A)
          → before ≡ f.front ++ queue
          → length queue ≤ q.max_size
          → q.max_size ≤ length queue
          → IsFifo (before ++ a ∷ []) popped (record q {
            queue = drop_front queue ++ a ∷ [];
            dropped_packets = q.dropped_packets + 1;
          })
      push_full [] e b full = absurd (omega (arith, f.positive))
      push_full (x ∷ rest) e b full = record {
        front = f.front ++ x ∷ [];
        split = regroup a (f.front ++ x ∷ []) rest (e ∙ move_end x f.front rest);
        order = Without-skip_end x f.order;
        bounded = omega (arith, length-append rest (a ∷ []));
        positive = f.positive;
      }

  pop-IsFifo :
      (before : List A) (h : History A)
      → IsFifo before h.popped h.state
      → IsFifo before (step h pops).popped (step h pops).state
  unfolding step try_pop take_front after_pop
  pop-IsFifo before h f = go h.state.queue refl
    where
      go :
          (queue : List A)
          → h.state.queue ≡ queue
          → IsFifo before
              (after_pop h (take_front h.state queue)).popped
              (after_pop h (take_front h.state queue)).state
      go [] e = f
      go (a ∷ rest) e = record {
        front = f.front ++ a ∷ [];
        split = f.split ∙ (ap (◌++◌ f.front) e ∙ move_end a f.front rest);
        order = Without-keep_end a f.order;
        bounded = let b = f.bounded in omega (arith, ap length e);
        positive = f.positive;
      }

  run-IsFifo :
      (cs : List (Call A)) (before : List A) (h : History A)
      → IsFifo before h.popped h.state
      → IsFifo (before ++ pushed cs) (run h cs).popped (run h cs).state
  unfolding run pushed
  run-IsFifo [] before h f = rw append-nil f
  run-IsFifo (pushes a ∷ cs) before h f = rw (← append_assoc before (a ∷ []) (pushed cs)) (
      run-IsFifo cs (before ++ a ∷ []) (step h (pushes a))
        (unfold step in push-IsFifo a before h.popped h.state f))
  run-IsFifo (pops ∷ cs) before h f = run-IsFifo cs before (step h pops) (pop-IsFifo before h f)

  pub make-IsFifo : (max_size : ℕ) → IsFifo [] [] (make {A = A} max_size)
  unfolding make
  make-IsFifo max_size = record {
    front = [];
    split = refl;
    order = nil refl;
    bounded = omega arith;
    positive = ground arith;
  }

  pub try_pop-IsFifo :
      (before popped : List A) (q next : PacketQueue A) (a : A)
      → IsFifo before popped q
      → try_pop q ≡ some (a, next)
      → IsFifo before (popped ++ a ∷ []) next
  unfolding after_pop
  try_pop-IsFifo before popped q next a f e =
      subst (λ h. IsFifo before h.popped h.state)
        (ap (after_pop (record { state = q; popped = popped })) e)
        (unfold step in pop-IsFifo before (record { state = q; popped = popped }) f)

  abbrev pub start : ℕ → History A
  start max_size = record { state = make max_size; popped = [] }

  -- After any history of pushes and pops on a new queue: it holds the last of the packets that were
  -- pushed, at most as many as its bound; those that were popped came out in the order of their
  -- pushes; and what is missing among the earlier ones is as much as the queue counted as dropped.
  pub run-make-IsFifo :
      (max_size : ℕ) (cs : List (Call A))
      → IsFifo (pushed cs) (run (start max_size) cs).popped (run (start max_size) cs).state
  run-make-IsFifo max_size cs = run-IsFifo cs [] (start max_size) (make-IsFifo max_size)

  -- No packet is lost without being counted: those that were pushed on a new queue are as many as
  -- those popped, those waiting and those counted as dropped.
  pub run-length :
      (max_size : ℕ) (cs : List (Call A))
      → length (pushed cs)
        ≡ length (run (start max_size) cs).popped
          + length (run (start max_size) cs).state.queue
          + (run (start max_size) cs).state.dropped_packets
  run-length max_size cs =
      let f = run-make-IsFifo max_size cs in
      omega (
        arith,
        ap length f.split,
        length-append f.front (run (start max_size) cs).state.queue,
        length-Without f.order,
      )

module _ {ℓ} {A : Type ℓ} where
  take_front-none : (q : PacketQueue A) (rest : List A) → take_front q rest ≡ none → rest ≡ []
  unfolding take_front
  take_front-none q [] e = refl
  take_front-none q (a ∷ rest) e = cc

  pub try_pop-none : (q : PacketQueue A) → try_pop q ≡ none → q.queue ≡ []
  unfolding try_pop
  try_pop-none q e = take_front-none q q.queue e

  take_front-some :
      (q r : PacketQueue A) (rest : List A) (a : A)
      → take_front q rest ≡ some (a, r)
      → length rest ≡ length r.queue + 1
  unfolding take_front
  take_front-some q r [] a e = cc
  take_front-some q r (b ∷ rest) a e = ground (arith, e)

  pub try_pop-some :
      (q r : PacketQueue A) (a : A) → try_pop q ≡ some (a, r) → length q.queue ≡ length r.queue + 1
  unfolding try_pop
  try_pop-some q r a e = take_front-some q r q.queue a e
